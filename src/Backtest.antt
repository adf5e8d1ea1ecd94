-- ===== src/Backtest.antt =====
-- app/backtest/engine.py: `BacktestEngine.run`, as a fold over the bars, and the figures of its
-- report. `run` reads the clock through the risk engine, so the days on which the bars are gone
-- through are a function of the bar's index, and so are the identifiers that the evaluations draw.
pub mod Report
pub mod Spans
pub mod Data
use binance_momentu.Prelude.{
  ℕ, ◌+◌, ◌≡◌, Bool, true, false, ◌&&◌, if◌then◌else◌, Option, none, some, List, [], ◌∷◌, ◌++◌,
  length, String, Result, Error, ok, raise, ◌>>=◌,
}
use binance_momentu.Float.{Float, ◌⊕◌, ◌⊖◌, ◌⊗◌, ◌⊘◌, ◌≤?◌, ◌<?◌, abs, lit, nought, divide}
use binance_momentu.Config.{StrategyConfig}
use binance_momentu.Domain.Enums.{
  Exchange, SignalState, rejected, entry_pending, stop_loss, take_profit,
}
use binance_momentu.Domain.Events.{kline, KlineEvent}
use binance_momentu.Features.Store.{
  SymbolFeatureState, FeatureStore, empty_store, default_kline_window, ingest, get,
}
use binance_momentu.Risk.Engine.{
  RiskEngine, new_engine, register_open_position, register_closed_position,
}
use binance_momentu.Signals.Engine.{SignalResult, Context, Evaluation, evaluate_signal}

pub record BacktestTrade (F : Type 0) : Type 0 where
  pub entry_bar_index : ℕ
  pub exit_bar_index : ℕ
  pub symbol : String
  pub entry_price : F
  pub exit_price : F
  pub stop_loss : F
  pub take_profit : F
  pub exit_state : SignalState
  pub pnl_percent : F
  pub r_multiple : F

pub record BacktestReport (F : Type 0) : Type 0 where
  pub symbol : String
  pub total_bars : ℕ
  pub trades : List (BacktestTrade F)
  pub no_trade_count : ℕ
  pub rejected_count : ℕ

-- The dictionary `open_trade`.
pub record OpenTrade (F : Type 0) : Type 0 where
  pub signal_id : String
  pub entry_bar : ℕ
  pub entry_price : F
  pub stop_loss : F
  pub take_profit : F
  pub size_pct_of_equity : F

pub record BacktestEngine (F : Type 0) : Type 0 where
  pub strategy : StrategyConfig F
  pub symbol : String
  pub exchange : Exchange
  pub account_equity_usd : F
  pub penetration_buffer_percent : F

-- What the loop of `run` keeps from bar to bar.
pub record Progress (F : Type 0) : Type 0 where
  pub store : FeatureStore F
  pub risk_engine : RiskEngine F
  pub report : BacktestReport F
  pub open_trade : Option (OpenTrade F)

-- What it reads of the outside: the day on which the bar with an index is gone through, and the
-- identifiers of the evaluation at its close and of the one at the fill.
pub record Outside : Type 0 where
  pub today : ℕ → ℕ
  pub close_id : ℕ → String
  pub fill_id : ℕ → String

abbrev pub RunOutcome : Type 0 → Type 0
RunOutcome F = Result (Progress F)

module _ {F : Type 0} where
  abbrev pub count_no_trade : Progress F → Progress F
  count_no_trade s = record s {
    report = record s.report { no_trade_count = s.report.no_trade_count + 1 };
  }

  abbrev pub count_rejected : Progress F → Progress F
  count_rejected s = record s {
    report = record s.report { rejected_count = s.report.rejected_count + 1 };
  }

module _ {F : Type 0} ⦃f : Float F⦄ where
  -- `account_equity_usd or strategy.paper_starting_equity_usd`.
  abbrev pub new_backtest : StrategyConfig F → String → Exchange → Option F → F → BacktestEngine F
  new_backtest strategy symbol exchange equity buffer = record {
    strategy = strategy;
    symbol = symbol;
    exchange = exchange;
    account_equity_usd = elim equity [
      | none ↦ strategy.paper_starting_equity_usd
      | some e ↦ if f.eq e nought then strategy.paper_starting_equity_usd else e
    ];
    penetration_buffer_percent = buffer;
  }

  unfoldable pub apply_pessimistic_breakout_fill :
      BacktestEngine F → KlineEvent F → Option F → Option F
  apply_pessimistic_breakout_fill b bar none = none
  apply_pessimistic_breakout_fill b bar (some breakout_level) =
      let buffer = breakout_level ⊗ (b.penetration_buffer_percent ⊘ lit 100 0) in
      let fill_price = breakout_level ⊕ buffer in
      if fill_price ≤? bar.high then some fill_price else none

  unfoldable pub resolve_intrabar_exit : KlineEvent F → OpenTrade F → Option (F × SignalState)
  resolve_intrabar_exit bar t =
      let hit_sl = bar.low ≤? t.stop_loss in
      let hit_tp = t.take_profit ≤? bar.high in
      if hit_sl && hit_tp
      then some (t.stop_loss, SignalState.stop_loss)
      else (if hit_sl
          then some (t.stop_loss, SignalState.stop_loss)
          else (if hit_tp then some (t.take_profit, SignalState.take_profit) else none))

  -- The trade that an exit ends, with its result in percent and in multiples of the risk.
  unfoldable pub closed_trade :
      BacktestEngine F → ℕ → OpenTrade F → F → SignalState → Result (BacktestTrade F)
  closed_trade b i t exit_price exit_state = do
    gain ← divide (exit_price ⊖ t.entry_price) t.entry_price
    risk ← divide (abs (t.entry_price ⊖ t.stop_loss)) t.entry_price
    let pnl_percent = gain ⊗ lit 100 0
    let risk_percent = risk ⊗ lit 100 0
    ok (record {
      entry_bar_index = t.entry_bar;
      exit_bar_index = i;
      symbol = b.symbol;
      entry_price = t.entry_price;
      exit_price = exit_price;
      stop_loss = t.stop_loss;
      take_profit = t.take_profit;
      exit_state = exit_state;
      pnl_percent = pnl_percent;
      r_multiple = if nought <? risk_percent then pnl_percent ⊘ risk_percent else nought;
    })

  -- A bar with a trade open.
  unfoldable pub hold :
      BacktestEngine F → Outside → ℕ → KlineEvent F → OpenTrade F → Progress F → RunOutcome F
  hold b o i bar t s = elim (resolve_intrabar_exit bar t) [
    | none ↦ ok s
    | some (exit_price, exit_state) ↦ closed_trade b i t exit_price exit_state >>= λ trade.
        ok (record s {
          report = record s.report { trades = s.report.trades ++ trade ∷ [] };
          risk_engine =
              register_closed_position t.signal_id (trade.pnl_percent ⊗ t.size_pct_of_equity)
                (o.today i) s.risk_engine;
          open_trade = none;
        })
  ]

  -- The evaluation at a price, for a bar.
  abbrev pub context_at :
      BacktestEngine F → SymbolFeatureState F → KlineEvent F → F → String → ℕ → Context F
  context_at b state bar price signal_id today = record {
    features = state;
    current_price = price;
    strategy = b.strategy;
    account_equity_usd = b.account_equity_usd;
    btc_pause_active = false;
    signal_id = signal_id;
    decision_timestamp_ms = bar.close_time;
    today = today;
  }

  -- Each attribute that the source reads of a result is there when its state is ENTRY_PENDING.
  unfoldable pub enter : BacktestEngine F → ℕ → SignalResult F → Progress F → RunOutcome F
  enter b i r s = elim r.entry_price [
    | none ↦ raise Error.type_error
    | some entry ↦ elim r.stop_loss_result [
      | none ↦ raise Error.type_error
      | some stop ↦ elim r.take_profit_result [
        | none ↦ raise Error.type_error
        | some profit ↦
            divide (elim r.final_position_size_usd [ none ↦ nought | some size ↦ size ])
              b.account_equity_usd
            >>= λ size_pct. ok (record s {
              risk_engine = register_open_position r.signal_id b.symbol s.risk_engine;
              open_trade = some (record {
                signal_id = r.signal_id;
                entry_bar = i;
                entry_price = entry;
                stop_loss = stop.stop_loss;
                take_profit = profit.take_profit;
                size_pct_of_equity = size_pct;
              });
            })
      ]
    ]
  ]

  -- What follows the evaluation at the fill price.
  unfoldable pub after_fill : BacktestEngine F → ℕ → Progress F → Evaluation F → RunOutcome F
  after_fill b i s (risk, r) = r >>= λ result.
      let s' = record s { risk_engine = risk } in
      elim result.state [ entry_pending ↦ enter b i result s' | _ ↦ ok (count_no_trade s') ]

  -- What follows the evaluation at the close.
  unfoldable pub after_close :
      BacktestEngine F
      → Outside
      → ℕ
      → KlineEvent F
      → SymbolFeatureState F
      → Progress F
      → Evaluation F
      → RunOutcome F
  after_close b o i bar state s (risk, r) = r >>= λ result.
      let s' = record s { risk_engine = risk } in
      elim result.state [
        | rejected ↦ ok (count_rejected s')
        | entry_pending ↦ elim result.breakout_result [
          | none ↦ raise Error.type_error
          | some breakout ↦ elim (apply_pessimistic_breakout_fill b bar breakout.breakout_level) [
            | none ↦ ok (count_no_trade s')
            | some fill ↦
                after_fill b i s'
                  (evaluate_signal (context_at b state bar fill (o.fill_id i) (o.today i)) risk)
          ]
        ]
        | _ ↦ ok (count_no_trade s')
      ]

  -- A bar with no trade open.
  unfoldable pub seek : BacktestEngine F → Outside → ℕ → KlineEvent F → Progress F → RunOutcome F
  seek b o i bar s = elim (get b.exchange b.symbol s.store) [
    | none ↦ ok (count_no_trade s)
    | some state ↦ after_close b o i bar state s (
        evaluate_signal (context_at b state bar bar.close (o.close_id i) (o.today i)) s.risk_engine)
  ]

  unfoldable pub handle_bar :
      BacktestEngine F → Outside → ℕ → KlineEvent F → Progress F → RunOutcome F
  handle_bar b o i bar s =
      let s' = record s { store = ingest (kline bar) s.store } in
      elim s.open_trade [ none ↦ seek b o i bar s' | some t ↦ hold b o i bar t s' ]

  -- The loop, from the bar with index `i` on.
  unfoldable pub run_from :
      BacktestEngine F → Outside → ℕ → List (KlineEvent F) → Progress F → RunOutcome F
  run_from b o i [] s = ok s
  run_from b o i (bar ∷ bars) s = handle_bar b o i bar s >>= run_from b o (i + 1) bars

  abbrev pub at_start : BacktestEngine F → Outside → ℕ → Progress F
  at_start b o total_bars = record {
    store = empty_store default_kline_window;
    risk_engine = new_engine b.strategy (o.today 0);
    report = record {
      symbol = b.symbol;
      total_bars = total_bars;
      trades = [];
      no_trade_count = 0;
      rejected_count = 0;
    };
    open_trade = none;
  }

  unfoldable pub run : BacktestEngine F → Outside → List (KlineEvent F) → Result (BacktestReport F)
  run b o bars = run_from b o 0 bars (at_start b o (length bars)) >>= λ s. ok s.report
