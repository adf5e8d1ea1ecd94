-- ===== src/Tests/Entries.antt =====
-- The theorems on the signal engine, applied to a symbol that breaks out.
use binance_momentu.Prelude.{
  true, false, ◌↔◌, ◌≡◌, refl, ap, Option, none, some, Result, ok, raise, ◌∙◌, sym,
}
use binance_momentu.Float.Fixed.{Fixed, fixed_float, Fixed-IsOrdered}
use binance_momentu.Domain.Enums.{Exchange, SignalState, entry_pending}
use binance_momentu.Domain.Events.{kline_net_taker_delta, book_spread_percent}
use binance_momentu.Features.Store.{net_taker_delta_available}
use binance_momentu.Features.Engine.{
  insert_sorted, sorted, middle, median, max_from, true_range, true_ranges, atr_1m, over_median,
  rvol, trade_acceleration, price_change_percent, net_taker_delta, absorption_gate, momentum_ratio,
  breakout_inputs, volume_1m_usd, range_1m, dollar_volume_24h, spread_percent,
}
use binance_momentu.Risk.Engine.{maybe_reset_day, reasons_against, check_trade_allowed}
use binance_momentu.Risk.Sizing.{compute_raw_position_size, apply_position_constraints}
use binance_momentu.Signals.Friction.{
  estimated_slippage_percent, total_friction_percent, friction_coverage, friction_gate_passes,
}
use binance_momentu.Signals.ExitLevels.{compute_stop_loss, compute_take_profit}
use binance_momentu.Signals.Quant.{
  QuantScoreResult, missing_of, clamp01, normalize, reference_chain, reference_friction_coverage,
  inputs_of, audits, combined, quant_result, compute_quant_score,
}
use binance_momentu.Signals.Quant.Range.{IsScored, compute_quant_score-IsScored}
use binance_momentu.Signals.Breakout.{
  failed_reasons, stale_result, trigger_result, evaluate_breakout_trigger,
  evaluate_breakout_trigger_iff, IsBreakout,
}
use binance_momentu.Signals.Engine.{
  Context, SignalResult, build_audit_trail, after_gate, after_friction, after_inputs, after_size,
  after_stop, after_breakout, after_quant, evaluate_signal,
}
use binance_momentu.Signals.Engine.Entry.{IsEntry, evaluate_signal-IsEntry}
use binance_momentu.Signals.Engine.Gates.{
  Concludes, evaluate_signal-Concludes, compute_quant_score-Returns,
}
use binance_momentu.Tests.Samples.{context, fresh_risk, strategy}

abbrev pub on_binance : Context Fixed
on_binance = context Exchange.binance

abbrev state_after : Result (SignalResult Fixed) → Option SignalState
state_after (ok r) = some r.state
state_after (raise e) = none

abbrev the_state : Option SignalState → SignalState
the_state none = SignalState.no_trade
the_state (some s) = s

enters : state_after (evaluate_signal on_binance fresh_risk).1 ≡ some entry_pending
unfolding insert_sorted sorted middle median max_from true_range true_ranges atr_1m over_median rvol
    trade_acceleration price_change_percent net_taker_delta absorption_gate momentum_ratio
    breakout_inputs volume_1m_usd range_1m dollar_volume_24h spread_percent kline_net_taker_delta
    book_spread_percent net_taker_delta_available maybe_reset_day reasons_against
    check_trade_allowed compute_raw_position_size apply_position_constraints
    estimated_slippage_percent total_friction_percent friction_coverage friction_gate_passes
    compute_stop_loss compute_take_profit missing_of clamp01 normalize reference_chain
    reference_friction_coverage inputs_of audits combined quant_result compute_quant_score
    failed_reasons stale_result trigger_result evaluate_breakout_trigger build_audit_trail
    after_gate after_friction after_inputs after_size after_stop after_breakout after_quant
    evaluate_signal
enters = refl

-- The evaluation's result, which exists.
abbrev pub entry : Concludes (evaluate_signal on_binance fresh_risk)
entry = evaluate_signal-Concludes Fixed-IsOrdered on_binance fresh_risk refl

pub entry-state : entry.0.state ≡ entry_pending
entry-state = ap the_state (sym (ap state_after entry.1) ∙ enters)

evaluate_signal-IsEntry_example :
    IsEntry on_binance (evaluate_signal on_binance fresh_risk).0 entry.0
evaluate_signal-IsEntry_example =
    evaluate_signal-IsEntry on_binance fresh_risk entry.0 entry.1 entry-state

evaluate_signal-Concludes_example : Concludes (evaluate_signal on_binance fresh_risk)
evaluate_signal-Concludes_example =
    evaluate_signal-Concludes Fixed-IsOrdered on_binance fresh_risk refl

abbrev score :
    (q : QuantScoreResult Fixed) × (compute_quant_score on_binance.features on_binance.current_price
        strategy
      ≡ ok q)
score =
    compute_quant_score-Returns Fixed-IsOrdered on_binance.features on_binance.current_price
      strategy refl

compute_quant_score-IsScored_example :
    let state = on_binance.features in
    let price = on_binance.current_price in
    (coverage : Option Fixed) × (reference_friction_coverage state price strategy ≡ ok coverage)
    × IsScored state price strategy coverage score.0
compute_quant_score-IsScored_example =
    compute_quant_score-IsScored Fixed-IsOrdered on_binance.features on_binance.current_price
      strategy score.0 score.1

evaluate_breakout_trigger_iff_example :
    ((evaluate_breakout_trigger on_binance.features on_binance.current_price score.0 strategy
        false).triggered
      ≡ true)
    ↔ IsBreakout on_binance.features on_binance.current_price score.0 strategy false
evaluate_breakout_trigger_iff_example =
    evaluate_breakout_trigger_iff on_binance.features on_binance.current_price score.0 strategy
      false
