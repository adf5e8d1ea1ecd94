-- ===== src/Signals/Engine/Gates.antt =====
-- What the gates of an entry mean for its numbers, and that an evaluation does not raise.
use binance_momentu.Prelude.{
  ◌≡◌, refl, ap, false, none, some, Result, ok, raise, ◌>>=◌, arith, if-cases, option-cases,
  result-cases,
}
use binance_momentu.Float.{Float, ◌≤?◌, ◌<?◌, ◌≼◌, ◌≺◌, lit, nought, epsilon, max}
use binance_momentu.Float.Laws.{IsOrdered}
use binance_momentu.Config.{StrategyConfig}
use binance_momentu.Domain.Enums.{entry_pending}
use binance_momentu.Features.Store.{SymbolFeatureState}
use binance_momentu.Features.Engine.{atr_1m, range_1m, volume_1m_usd, spread_percent}
use binance_momentu.Risk.Sizing.{compute_raw_position_size, apply_position_constraints_lem}
use binance_momentu.Risk.Engine.{RiskEngine, check_trade_allowed}
use binance_momentu.Signals.Friction.{
  estimated_slippage_percent, estimated_slippage_percent_lem, friction_gate_passes,
}
use binance_momentu.Signals.ExitLevels.{TakeProfitResult, compute_stop_loss}
use binance_momentu.Signals.Quant.{
  QuantScoreResult, compute_quant_score, reference_friction_coverage, reference_chain,
}
use binance_momentu.Signals.Breakout.{evaluate_breakout_trigger, short_of}
use binance_momentu.Signals.Engine.{
  SignalDraft, SignalResult, Context, Evaluation, after_gate, after_friction, after_inputs,
  after_size, after_stop, after_breakout, after_quant, evaluate_signal,
}
use binance_momentu.Signals.Engine.Entry.{stop_of, raw_of, final_of, evaluate_signal-IsEntry}

abbrev pub Returns : {A : Type 0} → Result A → Type 0
Returns {A} m = (a : A) × (m ≡ ok a)

-- The evaluation ends in a result, not in an exception.
abbrev pub Concludes : {F : Type 0} → Evaluation F → Type 0
Concludes e = Returns e.1

module _ {F : Type 0} ⦃f : Float F⦄ (laws : IsOrdered F) where
  -- A raw size above zero has a price that is no zero.
  pub price-positive :
      (c : Context F) (atr : F) → (raw_of c atr ≤? nought) ≡ false → epsilon ≺ c.current_price
  unfolding compute_stop_loss compute_raw_position_size
  price-positive c atr h =
      ground (arith, laws.le_of_lt nought epsilon laws.nought-lt-epsilon, laws.lit_mono 0 0 0)

  -- If the configured limits of the size are in order, an entry has a price above epsilon, a stop
  -- below its price, and, where its raw size is a number, a final size within the limits.
  pub entry_levels :
      (c : Context F) (risk : RiskEngine F) (r : SignalResult F)
      → (evaluate_signal c risk).1 ≡ ok r
      → r.state ≡ entry_pending
      → c.strategy.min_position_size_usd ≼ c.strategy.max_position_size_usd
      → (atr : F) × (r.entry_price ≡ some c.current_price)
        × (epsilon ≺ c.current_price)
        × (r.stop_loss_result ≡ some (stop_of c atr))
        × ((stop_of c atr).stop_loss ≺ c.current_price)
        × (r.final_position_size_usd ≡ some (final_of c (raw_of c atr)))
        × (raw_of c atr ≼ raw_of c atr
            → (c.strategy.min_position_size_usd ≼ final_of c (raw_of c atr))
              × (final_of c (raw_of c atr) ≼ c.strategy.max_position_size_usd))
  entry_levels c risk r e h limits =
      let (v, g, same) = evaluate_signal-IsEntry c risk r e h in
      let raw = raw_of c v.atr in
      (
        v.atr,
        ap (λ x. x.entry_price) same,
        price-positive c v.atr g.size_positive,
        ap (λ x. x.stop_loss_result) same,
        g.stop_below,
        ap (λ x. x.final_position_size_usd) same,
        λ n. let b = apply_position_constraints_lem laws raw _ _ n limits in (b.0, b.1),
      )

  -- The volume floor keeps the divisor of the slippage above zero.
  floor-positive : (volume : F) → (max volume (lit 1 0) ≤? nought) ≡ false
  floor-positive volume = ground (
    arith,
    laws.nought-lt-one,
    laws.not_lt_of_le (lit 1 0) nought,
    laws.lt_of_le_of_lt volume nought (lit 1 0),
  )

  slippage-total :
      (order range atr volume base gamma : F)
      → (order <? nought) ≡ false
      → Returns (estimated_slippage_percent order range atr volume base gamma)
  slippage-total order range atr volume base gamma h =
      let not_neg = laws.div_not_neg order (max volume (lit 1 0)) h (floor-positive volume) in
      let (s, e, _) =
        (estimated_slippage_percent_lem laws order range atr volume base gamma).1 not_neg in
      (s, e)

  after_gate-Concludes :
      (c : Context F) (d : SignalDraft F) (raw : F) (risk : RiskEngine F)
      → Concludes (after_gate c d raw risk)
  unfolding after_gate
  after_gate-Concludes c d raw risk =
      if-cases Concludes (check_trade_allowed c.btc_pause_active c.today risk).1.allowed
        (λ _. (_, refl)) (λ _. (_, refl))

  not_negative : (x : F) → (x ≤? nought) ≡ false → (x <? nought) ≡ false
  not_negative x h = ground (arith, laws.le_of_lt x nought)

  after_inputs-Concludes :
      (c : Context F) (d : SignalDraft F) (atr : F) (tp : TakeProfitResult F)
      (raw range volume spread : F) (risk : RiskEngine F)
      → (raw ≤? nought) ≡ false
      → Concludes (after_inputs c d atr tp raw range volume spread risk)
  unfolding after_inputs after_friction
  after_inputs-Concludes c d atr tp raw range volume spread risk h =
      let s = c.strategy in
      let (slip, known) =
        slippage-total raw range atr volume s.base_slippage_percent s.slippage_gamma
          (not_negative raw h) in
      result-cases Concludes
        (estimated_slippage_percent raw range atr volume s.base_slippage_percent s.slippage_gamma)
        (λ x bad. cc)
        (λ slippage _.
          if-cases Concludes
            (friction_gate_passes tp.net_expected_profit _ s.friction_coverage_ratio)
            (λ _. after_gate-Concludes c _ raw risk) (λ _. (_, refl)))

  after_size-Concludes :
      (c : Context F) (d : SignalDraft F) (atr : F) (tp : TakeProfitResult F) (raw : F)
      (risk : RiskEngine F)
      → (raw ≤? nought) ≡ false
      → Concludes (after_size c d atr tp raw risk)
  unfolding after_size
  after_size-Concludes c d atr tp raw risk h =
      option-cases Concludes (range_1m c.features) (λ _. (_, refl))
        (λ range _.
          option-cases Concludes (volume_1m_usd c.features) (λ _. (_, refl))
            (λ volume _.
              option-cases Concludes (spread_percent c.features) (λ _. (_, refl))
                (λ spread _. after_inputs-Concludes c d atr tp raw range volume spread risk h)))

  after_quant-Concludes :
      (c : Context F) (q : QuantScoreResult F) (risk : RiskEngine F)
      → Concludes (after_quant c q risk)
  unfolding after_quant after_breakout after_stop
  after_quant-Concludes c q risk =
      if-cases Concludes q.computable
        (λ _.
          if-cases Concludes (short_of q.quant_score c.strategy.claude_score_threshold)
            (λ _. (_, refl))
            (λ _.
              if-cases Concludes
                (evaluate_breakout_trigger c.features c.current_price q c.strategy
                  c.btc_pause_active).triggered
                (λ _.
                  option-cases Concludes q.atr_1m (λ _. (_, refl))
                    (λ atr _.
                      if-cases Concludes (stop_of c atr).valid
                        (λ _.
                          if-cases Concludes (raw_of c atr ≤? nought) (λ _. (_, refl))
                            (λ positive. after_size-Concludes c _ atr _ _ risk positive))
                        (λ _. (_, refl))))
                (λ _. (_, refl))))
        (λ _. (_, refl))

  bind-Returns :
      {A B : Type 0} (m : Result A) (g : A → Result B)
      → Returns m
      → ((a : A) → Returns (g a))
      → Returns (m >>= g)
  bind-Returns (ok a) g h k = k a
  bind-Returns (raise e) g h k = cc (h.1)

  reference-Returns :
      (state : SymbolFeatureState F) (price : F) (s : StrategyConfig F)
      → (s.reference_order_size_usd <? nought) ≡ false
      → Returns (reference_friction_coverage state price s)
  unfolding reference_friction_coverage reference_chain
  reference-Returns state price s h =
      option-cases Returns (atr_1m state) (λ _. (none, refl))
        (λ atr _.
          option-cases Returns (range_1m state) (λ _. (none, refl))
            (λ range _.
              option-cases Returns (volume_1m_usd state) (λ _. (none, refl))
                (λ volume _.
                  option-cases Returns (spread_percent state) (λ _. (none, refl))
                    (λ spread _.
                      if-cases Returns (epsilon <? price)
                        (λ _.
                          bind-Returns (reference_chain s price atr range volume spread) _
                            (bind-Returns _ _
                              (slippage-total s.reference_order_size_usd range atr volume
                                s.base_slippage_percent s.slippage_gamma h)
                              (λ slippage. (_, refl)))
                            (λ x. (some x, refl)))
                        (λ _. (none, refl))))))

  pub compute_quant_score-Returns :
      (state : SymbolFeatureState F) (price : F) (s : StrategyConfig F)
      → (s.reference_order_size_usd <? nought) ≡ false
      → Returns (compute_quant_score state price s)
  unfolding compute_quant_score
  compute_quant_score-Returns state price s h =
      bind-Returns (reference_friction_coverage state price s) _ (reference-Returns state price s h)
        (λ coverage. (_, refl))

  -- If the configured reference order size is not negative, the evaluation of any symbol at any
  -- price returns a result: the square root of the slippage model never raises.
  pub evaluate_signal-Concludes :
      (c : Context F) (risk : RiskEngine F)
      → (c.strategy.reference_order_size_usd <? nought) ≡ false
      → Concludes (evaluate_signal c risk)
  unfolding evaluate_signal
  evaluate_signal-Concludes c risk h =
      let (q, scored) = compute_quant_score-Returns c.features c.current_price c.strategy h in
      result-cases Concludes (compute_quant_score c.features c.current_price c.strategy)
        (λ x bad. cc) (λ q' _. after_quant-Concludes c q' risk)
