-- ===== src/Pipeline/Books.antt =====
-- What leaves the positions and the settings of the pipeline alone.
use binance_momentu.Prelude.{
  ℕ, ◌+◌, ◌≡◌, refl, sym, ap, ◌∙◌, subst, false, Option, String, Result, arith, length,
  option-cases, result-cases, if-cases,
}
use binance_momentu.Prelude.Dict.{string_key}
use binance_momentu.Float.{Float, nought, ◌≤?◌}
use binance_momentu.Domain.Enums.{Exchange}
use binance_momentu.Features.Store.{get}
use binance_momentu.Execution.Paper.{PaperTradingEngine}
use binance_momentu.Execution.Paper.Exits.{IsKeyed}
use binance_momentu.Risk.Engine.{RiskEngine, check_trade_allowed, maybe_reset_day}
use binance_momentu.Features.Engine.{range_1m, volume_1m_usd, spread_percent}
use binance_momentu.Risk.Sizing.{compute_raw_position_size}
use binance_momentu.Signals.Friction.{estimated_slippage_percent, friction_gate_passes}
use binance_momentu.Signals.ExitLevels.{StopLossResult, TakeProfitResult, compute_stop_loss}
use binance_momentu.Signals.Quant.{QuantScoreResult, compute_quant_score}
use binance_momentu.Signals.Breakout.{evaluate_breakout_trigger, short_of}
use binance_momentu.Signals.Engine.{
  Context, SignalResult, SignalDraft, after_gate, after_friction, after_inputs, after_size,
  after_stop, after_breakout, after_quant, evaluate_signal,
}
use binance_momentu.Pipeline.{
  SignalPipeline, current_price_for, evaluate_in, evaluate_candidate, begin_entry,
}
use binance_momentu.Pipeline.Keys.{keys}
use binance_momentu.Pipeline.Lockstep.{InStep}

-- The same positions, settings and count of entries.
pub record SameBooks {F : Type 0} (s s' : SignalPipeline F) : Type 0 where
  pub paper : s'.paper_engine ≡ s.paper_engine
  pub risk : s'.risk_engine.open_positions ≡ s.risk_engine.open_positions
  pub settings : s'.strategy ≡ s.strategy
  pub opened : s'.entries_opened_total ≡ s.entries_opened_total

module _ {F : Type 0} ⦃f : Float F⦄ where
  pub SameBooks-InStep : {s s' : SignalPipeline F} → SameBooks s s' → InStep s → InStep s'
  SameBooks-InStep {s} {s'} b h = record {
    keyed = subst (λ (e : PaperTradingEngine F). IsKeyed e.open_positions) (sym b.paper) h.keyed;
    same_keys = ap keys b.risk ∙ h.same_keys ∙ sym (ap (λ e. keys e.open_positions) b.paper);
    tally =
        b.opened
        ∙ h.tally
        ∙ sym (ap (λ e. length e.open_positions + length e.closed_positions) b.paper);
    equity = subst (λ c. f.eq c.paper_starting_equity_usd nought ≡ false) (sym b.settings) h.equity;
  }

  pub begin_entry-SameBooks :
      (r : SignalResult F) (now : F) (s : SignalPipeline F) → SameBooks s (begin_entry r now s).0
  unfolding begin_entry
  begin_entry-SameBooks r now s = ground arith

  -- No stage of an evaluation touches the open positions of the risk engine.
  Keeps : RiskEngine F → RiskEngine F × Result (SignalResult F) → Type 0
  Keeps risk e = e.0.open_positions ≡ risk.open_positions

  after_gate-Keeps :
      (c : Context F) (d : SignalDraft F) (raw : F) (risk : RiskEngine F)
      → Keeps risk (after_gate c d raw risk)
  unfolding Keeps after_gate check_trade_allowed maybe_reset_day
  after_gate-Keeps c d raw risk = ground arith

  after_friction-Keeps :
      (c : Context F) (d : SignalDraft F) (tp : TakeProfitResult F) (raw friction : F)
      (risk : RiskEngine F)
      → Keeps risk (after_friction c d tp raw friction risk)
  unfolding Keeps after_friction
  after_friction-Keeps c d tp raw friction risk =
      if-cases (λ (e : RiskEngine F × Result (SignalResult F)). Keeps risk e)
        (friction_gate_passes tp.net_expected_profit friction c.strategy.friction_coverage_ratio)
        (λ _. after_gate-Keeps c _ raw risk) (λ _. refl)

  after_inputs-Keeps :
      (c : Context F) (d : SignalDraft F) (atr : F) (tp : TakeProfitResult F)
      (raw range volume spread : F) (risk : RiskEngine F)
      → Keeps risk (after_inputs c d atr tp raw range volume spread risk)
  unfolding Keeps after_inputs
  after_inputs-Keeps c d atr tp raw range volume spread risk =
      result-cases (Keeps risk)
        (estimated_slippage_percent raw range atr volume c.strategy.base_slippage_percent
          c.strategy.slippage_gamma)
        (λ _ _. refl) (λ slippage _. after_friction-Keeps c d tp raw _ risk)

  after_size-Keeps :
      (c : Context F) (d : SignalDraft F) (atr : F) (tp : TakeProfitResult F) (raw : F)
      (risk : RiskEngine F)
      → Keeps risk (after_size c d atr tp raw risk)
  unfolding Keeps after_size
  after_size-Keeps c d atr tp raw risk =
      option-cases (Keeps risk) (range_1m c.features) (λ _. refl)
        (λ range _.
          option-cases (Keeps risk) (volume_1m_usd c.features) (λ _. refl)
            (λ volume _.
              option-cases (Keeps risk) (spread_percent c.features) (λ _. refl)
                (λ spread _. after_inputs-Keeps c d atr tp raw range volume spread risk)))

  after_stop-Keeps :
      (c : Context F) (d : SignalDraft F) (atr : F) (sl : StopLossResult F) (risk : RiskEngine F)
      → Keeps risk (after_stop c d atr sl risk)
  unfolding Keeps after_stop
  after_stop-Keeps c d atr sl risk =
      let raw =
        (compute_raw_position_size c.account_equity_usd c.strategy.risk_per_trade_percent
          sl.stop_distance_percent).1 in
      if-cases (λ (e : RiskEngine F × Result (SignalResult F)). Keeps risk e) (raw ≤? nought)
        (λ _. refl) (λ _. after_size-Keeps c _ atr _ raw risk)

  after_breakout-Keeps :
      (c : Context F) (d : SignalDraft F) (q : QuantScoreResult F) (risk : RiskEngine F)
      → Keeps risk (after_breakout c d q risk)
  unfolding Keeps after_breakout
  after_breakout-Keeps c d q risk =
      option-cases (Keeps risk) q.atr_1m (λ _. refl)
        (λ atr _.
          let sl = compute_stop_loss c.current_price atr c.strategy.sl_atr_multiplier in
          if-cases (λ (e : RiskEngine F × Result (SignalResult F)). Keeps risk e) sl.valid
            (λ _. after_stop-Keeps c _ atr sl risk) (λ _. refl))

  after_quant-Keeps :
      (c : Context F) (q : QuantScoreResult F) (risk : RiskEngine F)
      → Keeps risk (after_quant c q risk)
  unfolding Keeps after_quant
  after_quant-Keeps c q risk =
      let b =
        evaluate_breakout_trigger c.features c.current_price q c.strategy c.btc_pause_active in
      if-cases (λ (e : RiskEngine F × Result (SignalResult F)). Keeps risk e) q.computable
        (λ _.
          if-cases (λ (e : RiskEngine F × Result (SignalResult F)). Keeps risk e)
            (short_of q.quant_score c.strategy.claude_score_threshold) (λ _. refl)
            (λ _.
              if-cases (λ (e : RiskEngine F × Result (SignalResult F)). Keeps risk e) b.triggered
                (λ _. after_breakout-Keeps c _ q risk) (λ _. refl)))
        (λ _. refl)

  evaluate_signal-Keeps :
      (c : Context F) (risk : RiskEngine F)
      → (evaluate_signal c risk).0.open_positions ≡ risk.open_positions
  unfolding Keeps evaluate_signal
  evaluate_signal-Keeps c risk =
      result-cases (Keeps risk) (compute_quant_score c.features c.current_price c.strategy)
        (λ _ _. refl) (λ q _. after_quant-Keeps c q risk)

  evaluate_in-SameBooks : (c : Context F) (s : SignalPipeline F) → SameBooks s (evaluate_in c s).0
  unfolding evaluate_in
  evaluate_in-SameBooks c s = ground (arith, evaluate_signal-Keeps c s.risk_engine)

  pub evaluate_candidate-SameBooks :
      (x : Exchange) (symbol signal_id : String) (now today : ℕ) (s : SignalPipeline F)
      → SameBooks s (evaluate_candidate x symbol signal_id now today s).0
  unfolding evaluate_candidate
  evaluate_candidate-SameBooks x symbol signal_id now today s =
      let same : SameBooks s s = record {
        paper = refl;
        risk = refl;
        settings = refl;
        opened = refl;
      } in
      option-cases (λ (r : SignalPipeline F × Result (Option (SignalResult F))). SameBooks s r.0)
        (get x symbol s.feature_store) (λ _. same)
        (λ state _.
          option-cases
            (λ (r : SignalPipeline F × Result (Option (SignalResult F))). SameBooks s r.0)
            (current_price_for state) (λ _. same) (λ price _. evaluate_in-SameBooks _ s))
