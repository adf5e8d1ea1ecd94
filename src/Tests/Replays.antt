-- ===== src/Tests/Replays.antt =====
-- The theorems on the backtest, applied to the minutes of a breakout.
use binance_momentu.Prelude.{◌≡◌, refl, none, some, [], ◌∷◌, ok, raise, arith}
use binance_momentu.Float.Fixed.{Fixed, fixed_float, Fixed-IsOrdered}
use binance_momentu.Domain.Enums.{Exchange, SignalState}
use binance_momentu.Domain.Events.{KlineEvent}
use binance_momentu.Backtest.{
  BacktestEngine, BacktestTrade, BacktestReport, Outside, Progress, RunOutcome, new_backtest,
  at_start, resolve_intrabar_exit, closed_trade, hold, handle_bar, run_from, run,
}
use binance_momentu.Backtest.Data.{run_idle}
use binance_momentu.Backtest.Spans.{IsLedger, run_from-IsLedger}
use binance_momentu.Tests.Samples.{decimal, strategy, minute, klines}

abbrev engine : BacktestEngine Fixed
engine = new_backtest strategy "SOLUSDT" Exchange.binance none (decimal 2 2)

abbrev outside : Outside
outside = record { today = λ i. 7; close_id = λ i. "close"; fill_id = λ i. "fill" }

run_idle_example :
    run engine outside (klines Exchange.binance)
    ≡ ok (record {
      symbol = "SOLUSDT";
      total_bars = 25;
      trades = [];
      no_trade_count = 25;
      rejected_count = 0;
    })
run_idle_example = run_idle Fixed-IsOrdered engine outside (klines Exchange.binance) refl

-- A trade that was entered on the first bar.
abbrev in_trade : Progress Fixed
in_trade = record (at_start engine outside 2) {
  open_trade = some (record {
    signal_id = "fill";
    entry_bar = 0;
    entry_price = decimal 100 0;
    stop_loss = decimal 99 0;
    take_profit = decimal 103 0;
    size_pct_of_equity = decimal 1 1;
  });
}

-- A bar that touches the stop and the target.
abbrev wild : KlineEvent Fixed
wild = minute Exchange.binance 10000 10400 9800 10000 100 50 10000

abbrev after_wild : RunOutcome Fixed
after_wild = run_from engine outside 1 (wild ∷ []) in_trade

abbrev landed : RunOutcome Fixed → Progress Fixed
landed (ok s) = s
landed (raise e) = in_trade

lands : after_wild ≡ ok (landed after_wild)
unfolding run_from handle_bar hold resolve_intrabar_exit closed_trade
lands = refl

run_from-IsLedger_example : IsLedger 2 (landed after_wild)
run_from-IsLedger_example =
    run_from-IsLedger engine outside 1 (wild ∷ []) in_trade (landed after_wild)
      (record { in_order = omega arith; precedes = omega arith; accounts = refl }) lands

abbrev trade : (pnl : Fixed) → BacktestTrade Fixed
trade pnl = record {
  entry_bar_index = 0;
  exit_bar_index = 1;
  symbol = "SOLUSDT";
  entry_price = decimal 100 0;
  exit_price = decimal 99 0;
  stop_loss = decimal 99 0;
  take_profit = decimal 103 0;
  exit_state = SignalState.stop_loss;
  pnl_percent = pnl;
  r_multiple = decimal 0 0;
}

abbrev report : BacktestReport Fixed
report = record {
  symbol = "SOLUSDT";
  total_bars = 4;
  trades = trade (decimal 10 0) ∷ trade (fixed_float.neg (decimal 5 0)) ∷ [];
  no_trade_count = 0;
  rejected_count = 0;
}
