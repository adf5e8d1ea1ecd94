-- ===== src/Tests/Pipelines.antt =====
-- The theorems on the pipeline, applied.
use binance_momentu.Prelude.{◌≡◌, refl, true, false, none, some, [], ◌∷◌, length, ok}
use binance_momentu.Prelude.Dict.{lookup, string_key}
use binance_momentu.Float.Fixed.{Fixed, fixed_float, Fixed-IsOrdered}
use binance_momentu.Domain.Enums.{Exchange, entry_pending}
use binance_momentu.Domain.Events.{ticker}
use binance_momentu.Risk.Engine.{new_engine, check_trade_allowed, reasons_against, maybe_reset_day}
use binance_momentu.Signals.Engine.{SignalResult, finalize}
use binance_momentu.Signals.Quant.{QuantScoreResult}
use binance_momentu.Ai.Auditor.{ClaudeDecisionResult, approved}
use binance_momentu.Pipeline.{SignalPipeline, EntryOrder, order_of, finish_entry, consume_event}
use binance_momentu.Pipeline.Lockstep.{InStep}
use binance_momentu.Pipeline.Reach.{
  new_pipeline, consumes, finishes, Reach, start, later, Reach-InStep, finish_entry_unchecked,
}
use binance_momentu.Tests.Samples.{decimal, strategy, ticker_event}
use binance_momentu.Tests.Entries.{on_binance, entry, entry-state}
use binance_momentu.Tests.Trading.{engine, engine-IsKeyed, frozen_risk}

abbrev pub idle : SignalPipeline Fixed
idle = new_pipeline strategy (new_engine strategy 7) none

abbrev approval : ClaudeDecisionResult Fixed
approval = record { decision = approved; reasoning = "clear tape"; latency_ms = decimal 800 0 }

abbrev entered : SignalPipeline Fixed
entered = (finish_entry entry.0 approval 1020 idle).0

fresh_id : lookup entry.0.signal_id idle.paper_engine.open_positions ≡ none
unfolding lookup
fresh_id = refl

-- An entry, a ticker and a stage 1 cycle.
abbrev evening : SignalPipeline Fixed
evening = (consume_event (ticker (ticker_event Exchange.binance)) 1030 7 entered).0

run_to_evening : Reach idle evening
run_to_evening =
    later
      (later start (
        finishes on_binance (new_engine strategy 7) entry.0 approval 1020 idle entry.1 entry-state
          fresh_id))
      (consumes (ticker (ticker_event Exchange.binance)) 1030 7 entered)

Reach-InStep_example : InStep evening
Reach-InStep_example = Reach-InStep Fixed-IsOrdered strategy 7 none evening refl run_to_evening

-- Two positions in both engines.
abbrev holding : SignalPipeline Fixed
holding = record idle {
  paper_engine = engine;
  risk_engine = record (new_engine strategy 7) {
    open_positions =
        ("s1", record { signal_id = "s1"; symbol = "SOLUSDT"; risk_percent = decimal 5 1 })
        ∷ ("s2", record { signal_id = "s2"; symbol = "SOLUSDT"; risk_percent = decimal 5 1 })
        ∷ [];
  };
  entries_opened_total = 2;
}

holding-InStep : InStep holding
holding-InStep = record { keyed = engine-IsKeyed; same_keys = refl; tally = refl; equity = refl }

abbrev scored : QuantScoreResult Fixed
scored = record {
  computable = true;
  missing_components = [];
  quant_score = some (decimal 85 0);
  components = [];
  rvol = none;
  trade_acceleration = none;
  net_taker_delta = none;
  momentum_ratio = none;
  breakout = none;
  dollar_volume_24h = none;
  atr_1m = none;
  reference_friction_coverage = none;
}

-- A result with the levels of an entry.
abbrev levels : SignalResult Fixed
levels =
    finalize on_binance
      (record {
        signal_id = "s9";
        symbol = "SOLUSDT";
        exchange = "binance";
        state = entry_pending;
        reasons = [];
        quant_result = some scored;
        breakout_result = none;
        entry_price = some (decimal 107 0);
        stop_loss_result = some (record {
          stop_loss = decimal 105 0;
          stop_distance_absolute = decimal 2 0;
          stop_distance_percent = decimal 2 2;
          valid = true;
        });
        take_profit_result = some (record {
          take_profit = decimal 111 0;
          expected_move_absolute = decimal 4 0;
          expected_move_percent = decimal 4 0;
          net_expected_profit = decimal 4 0;
          reward_risk_ratio = decimal 2 0;
        });
        raw_position_size_usd = some (decimal 2500 0);
        final_position_size_usd = some (decimal 2500 0);
        real_total_friction_percent = some (decimal 2 1);
        real_friction_coverage = some (decimal 20 0);
      })
      entry_pending []

abbrev levels_order : EntryOrder Fixed
levels_order = record {
  entry_price = decimal 107 0;
  stop_loss = decimal 105 0;
  take_profit = decimal 111 0;
  size_usd = decimal 2500 0;
}

abbrev frozen : SignalPipeline Fixed
frozen = record idle { risk_engine = frozen_risk }

frozen-refused : (check_trade_allowed false 7 frozen_risk).1.allowed ≡ false
unfolding check_trade_allowed reasons_against maybe_reset_day
frozen-refused = refl

order_known : order_of levels ≡ some levels_order
unfolding order_of
order_known = refl

id_known : lookup levels.signal_id frozen.paper_engine.open_positions ≡ none
unfolding lookup
id_known = refl

finish_entry_unchecked_example :
    ((finish_entry levels approval 1020 frozen).1 ≡ ok true)
    × (length (finish_entry levels approval 1020 frozen).0.paper_engine.open_positions ≡ 1)
finish_entry_unchecked_example =
    finish_entry_unchecked false 7 levels approval levels_order scored (decimal 85 0) 1020 frozen
      frozen-refused refl order_known refl refl id_known
