-- ===== src/Signals/Engine.antt =====
-- app/signals/signal_engine.py: `evaluate_signal`, cut at its early returns into stages that call
-- one another. A stage that ends the evaluation returns the result that the source finalises there.
-- The identifier, the decision time and the day are in the context. The result comes with the risk
-- engine, which the check of step 18 may reset for the day.
pub mod Entry
pub mod Gates
pub mod Bybit
use binance_momentu.Prelude.{
  ℕ, ◌≡◌, refl, Bool, true, false, not, if◌then◌else◌, Option, none, some, List, [], ◌∷◌, ◌++◌, map,
  String, Result, ok, raise, ◌>>=◌,
}
use Prim.Native.String.{◌++◌ as concat}
use binance_momentu.Float.{Float, ◌≤?◌, ◌<?◌, nought}
use binance_momentu.Config.{StrategyConfig}
use binance_momentu.Domain.Enums.{
  Exchange, SignalState, no_trade, rejected, entry_pending, exchange_value, state_value,
}
use binance_momentu.Features.Store.{SymbolFeatureState, FeatureStore}
use binance_momentu.Features.Engine.{range_1m, volume_1m_usd, spread_percent}
use binance_momentu.Features.Btc.{btc_volatility_pause_active}
use binance_momentu.Risk.Sizing.{compute_raw_position_size, apply_position_constraints}
use binance_momentu.Risk.Engine.{RiskEngine, check_trade_allowed}
use binance_momentu.Signals.Friction.{
  estimated_slippage_percent, total_friction_percent, friction_coverage, friction_gate_passes,
}
use binance_momentu.Signals.ExitLevels.{
  StopLossResult, TakeProfitResult, compute_stop_loss, compute_take_profit,
}
use binance_momentu.Signals.Quant.{QuantScoreResult, ComponentAudit, compute_quant_score, map_some}
use binance_momentu.Signals.Breakout.{BreakoutTriggerResult, evaluate_breakout_trigger, short_of}

-- `SignalResult` before its audit trail.
pub record SignalDraft (F : Type 0) : Type 0 where
  pub signal_id : String
  pub symbol : String
  pub exchange : String
  pub state : SignalState
  pub reasons : List String
  pub quant_result : Option (QuantScoreResult F)
  pub breakout_result : Option (BreakoutTriggerResult F)
  pub entry_price : Option F
  pub stop_loss_result : Option (StopLossResult F)
  pub take_profit_result : Option (TakeProfitResult F)
  pub raw_position_size_usd : Option F
  pub final_position_size_usd : Option F
  pub real_total_friction_percent : Option F
  pub real_friction_coverage : Option F

-- The dictionary of the audit trail, its nested dictionaries flattened; `claude_state` is `None`.
pub record AuditTrail (F : Type 0) : Type 0 where
  pub signal_id : String
  pub symbol : String
  pub exchange : String
  pub decision_timestamp : ℕ
  pub feature_snapshot : List (ComponentAudit F)
  pub quant_score : Option F
  pub entry_price : Option F
  pub breakout_level : Option F
  pub absorption : Option Bool
  pub stop_loss : Option F
  pub take_profit : Option F
  pub raw_position_size_usd : Option F
  pub final_position_size_usd : Option F
  pub real_total_friction_percent : Option F
  pub real_friction_coverage : Option F
  pub final_signal_state : String
  pub reasons : List String

pub record SignalResult (F : Type 0) : Type 0 where
  pub draft : SignalDraft F
  pub open draft use *
  pub audit_trail : AuditTrail F

-- The arguments of `evaluate_signal`, with what it reads of the outside.
pub record Context (F : Type 0) : Type 0 where
  pub features : SymbolFeatureState F
  pub current_price : F
  pub strategy : StrategyConfig F
  pub account_equity_usd : F
  pub btc_pause_active : Bool
  pub signal_id : String
  pub decision_timestamp_ms : ℕ
  pub today : ℕ

abbrev pub flatten_option : {A B : Type 0} → (A → Option B) → Option A → Option B
flatten_option g none = none
flatten_option g (some a) = g a

module _ {F : Type 0} where
  unfoldable pub build_audit_trail : Context F → SignalDraft F → AuditTrail F
  build_audit_trail c d = record {
    signal_id = d.signal_id;
    symbol = c.features.symbol;
    exchange = exchange_value c.features.exchange;
    decision_timestamp = c.decision_timestamp_ms;
    feature_snapshot = elim d.quant_result [ none ↦ [] | some q ↦ q.components ];
    quant_score = flatten_option (λ q. q.quant_score) d.quant_result;
    entry_price = d.entry_price;
    breakout_level = flatten_option (λ b. b.breakout_level) d.breakout_result;
    absorption = flatten_option (λ b. b.absorption) d.breakout_result;
    stop_loss = map_some (λ r. r.stop_loss) d.stop_loss_result;
    take_profit = map_some (λ r. r.take_profit) d.take_profit_result;
    raw_position_size_usd = d.raw_position_size_usd;
    final_position_size_usd = d.final_position_size_usd;
    real_total_friction_percent = d.real_total_friction_percent;
    real_friction_coverage = d.real_friction_coverage;
    final_signal_state = state_value d.state;
    reasons = d.reasons;
  }

  abbrev pub finalize : Context F → SignalDraft F → SignalState → List String → SignalResult F
  finalize c d state reasons =
      let d' = record d { state = state; reasons = reasons } in
      record { draft = d'; audit_trail = build_audit_trail c d' }

  abbrev pub first_draft : Context F → QuantScoreResult F → SignalDraft F
  first_draft c q = record {
    signal_id = c.signal_id;
    symbol = c.features.symbol;
    exchange = exchange_value c.features.exchange;
    state = no_trade;
    reasons = [];
    quant_result = some q;
    breakout_result = none;
    entry_price = none;
    stop_loss_result = none;
    take_profit_result = none;
    raw_position_size_usd = none;
    final_position_size_usd = none;
    real_total_friction_percent = none;
    real_friction_coverage = none;
  }

-- What an evaluation returns: the risk engine as it leaves it, and the result.
abbrev pub Evaluation : Type 0 → Type 0
Evaluation F = RiskEngine F × Result (SignalResult F)

module _ {F : Type 0} ⦃f : Float F⦄ where
  abbrev pub ends :
      Context F → SignalDraft F → SignalState → List String → RiskEngine F → Evaluation F
  ends c d state reasons risk = (risk, ok (finalize c d state reasons))

  -- Steps 18 and 19: the size constraints and the risk engine.
  unfoldable pub after_gate : Context F → SignalDraft F → F → RiskEngine F → Evaluation F
  after_gate c d raw risk =
      let s = c.strategy in
      let sized = apply_position_constraints raw s.min_position_size_usd s.max_position_size_usd in
      let d' = record d { final_position_size_usd = some sized.final_position_size_usd } in
      let (risk', check) = check_trade_allowed c.btc_pause_active c.today risk in
      if check.allowed
      then ends c d' entry_pending [] risk'
      else ends c d' rejected check.reasons_blocked risk'

  -- Step 17: the friction coverage gate.
  unfoldable pub after_friction :
      Context F → SignalDraft F → TakeProfitResult F → F → F → RiskEngine F → Evaluation F
  after_friction c d tp raw friction risk =
      let d' = record d {
        real_total_friction_percent = some friction;
        real_friction_coverage = some (friction_coverage tp.net_expected_profit friction);
      } in
      if friction_gate_passes tp.net_expected_profit friction c.strategy.friction_coverage_ratio
      then after_gate c d' raw risk
      else ends c d' rejected ("friction_coverage_gate_failed" ∷ []) risk

  -- Step 16: the friction at the raw size.
  unfoldable pub after_inputs :
      Context F
      → SignalDraft F
      → F
      → TakeProfitResult F
      → F
      → F
      → F
      → F
      → RiskEngine F
      → Evaluation F
  after_inputs c d atr tp raw range volume spread risk =
      let s = c.strategy in
      elim (estimated_slippage_percent raw range atr volume s.base_slippage_percent
        s.slippage_gamma) [
          | raise e ↦ (risk, raise e)
          | ok slippage ↦
              after_friction c d tp raw (total_friction_percent s.taker_fee_percent spread slippage)
                risk
        ]

  unfoldable pub after_size :
      Context F → SignalDraft F → F → TakeProfitResult F → F → RiskEngine F → Evaluation F
  after_size c d atr tp raw risk =
      let missing = ends c d no_trade ("real_friction_inputs_unavailable" ∷ []) risk in
      elim (range_1m c.features) [
        | none ↦ missing
        | some range ↦ elim (volume_1m_usd c.features) [
          | none ↦ missing
          | some volume ↦ elim (spread_percent c.features) [
            | none ↦ missing
            | some spread ↦ after_inputs c d atr tp raw range volume spread risk
          ]
        ]
      ]

  -- Steps 13 to 15: the take profit and the raw size.
  unfoldable pub after_stop :
      Context F → SignalDraft F → F → StopLossResult F → RiskEngine F → Evaluation F
  after_stop c d atr sl risk =
      let s = c.strategy in
      let tp = compute_take_profit c.current_price sl.stop_loss s.take_profit_rr in
      let (amount, raw) =
        compute_raw_position_size c.account_equity_usd s.risk_per_trade_percent
          sl.stop_distance_percent in
      let d' = record d { take_profit_result = some tp } in
      if raw ≤? nought
      then ends c d' no_trade ("raw_position_size_invalid" ∷ []) risk
      else after_size c (record d' { raw_position_size_usd = some raw }) atr tp raw risk

  -- Steps 11 and 12: the entry price and the stop loss.
  unfoldable pub after_breakout :
      Context F → SignalDraft F → QuantScoreResult F → RiskEngine F → Evaluation F
  after_breakout c d q risk =
      let d' = record d { entry_price = some c.current_price } in
      elim q.atr_1m [
        | none ↦ ends c d' no_trade ("atr_unavailable_for_stop_loss" ∷ []) risk
        | some atr ↦
            let sl = compute_stop_loss c.current_price atr c.strategy.sl_atr_multiplier in
            let d'' = record d' { stop_loss_result = some sl } in
            if sl.valid
            then after_stop c d'' atr sl risk
            else ends c d'' no_trade ("stop_loss_invalid_gte_entry" ∷ []) risk
      ]

  -- Steps 8 to 10: the quant score and the breakout trigger.
  unfoldable pub after_quant : Context F → QuantScoreResult F → RiskEngine F → Evaluation F
  after_quant c q risk =
      let d = first_draft c q in
      if q.computable
      then (if short_of q.quant_score c.strategy.claude_score_threshold
          then ends c d no_trade ("quant_score_below_threshold" ∷ []) risk
          else (let b =
                evaluate_breakout_trigger c.features c.current_price q c.strategy
                  c.btc_pause_active in
              let d' = record d { breakout_result = some b } in
              if b.triggered
              then after_breakout c d' q risk
              else ends c d' no_trade b.reasons_failed risk))
      else ends c d no_trade (map (concat "missing_component:") q.missing_components) risk

  unfoldable pub evaluate_signal : Context F → RiskEngine F → Evaluation F
  evaluate_signal c risk = elim (compute_quant_score c.features c.current_price c.strategy) [
    | raise e ↦ (risk, raise e)
    | ok q ↦ after_quant c q risk
  ]

  pub compute_btc_pause : FeatureStore F → StrategyConfig F → Bool
  compute_btc_pause store s =
      btc_volatility_pause_active store s.btc_volatility_pause_threshold_percent
