-- ===== src/Signals/Engine/Bybit.antt =====
-- Symbols of Bybit, whose klines carry no taker split.
use binance_momentu.Prelude.{◌≡◌, refl, false, ok, if-cases, result-cases}
use binance_momentu.Float.{Float, ◌<?◌, nought}
use binance_momentu.Float.Laws.{IsOrdered}
use binance_momentu.Domain.Enums.{bybit, no_trade}
use binance_momentu.Risk.Engine.{RiskEngine}
use binance_momentu.Signals.Quant.{QuantScoreResult, compute_quant_score}
use binance_momentu.Signals.Quant.Range.{compute_quant_score-bybit}
use binance_momentu.Signals.Engine.{SignalResult, Context, Evaluation, after_quant, evaluate_signal}
use binance_momentu.Signals.Engine.Gates.{compute_quant_score-Returns}

-- The evaluation ends in NO_TRADE, and the risk engine is as it was.
abbrev pub Refuses : {F : Type 0} → RiskEngine F → Evaluation F → Type 0
Refuses {F} risk e = (r : SignalResult F) × (e ≡ (risk, ok r)) × (r.state ≡ no_trade)

module _ {F : Type 0} ⦃f : Float F⦄ (laws : IsOrdered F) where
  not_computable :
      (c : Context F) (q : QuantScoreResult F) (risk : RiskEngine F)
      → q.computable ≡ false
      → Refuses risk (after_quant c q risk)
  unfolding after_quant
  not_computable c q risk h = if-cases (Refuses risk) q.computable (λ t. cc) (λ _. (_, refl, refl))

  -- No symbol of Bybit is ever entered: whatever its data, its evaluation ends in NO_TRADE and
  -- leaves the risk engine as it was, if the configured reference order size is not negative.
  pub bybit_no_trade :
      (c : Context F) (risk : RiskEngine F)
      → (c.strategy.reference_order_size_usd <? nought) ≡ false
      → c.features.exchange ≡ bybit
      → Refuses risk (evaluate_signal c risk)
  unfolding evaluate_signal
  bybit_no_trade c risk h x =
      let (q, scored) = compute_quant_score-Returns laws c.features c.current_price c.strategy h in
      result-cases (Refuses risk) (compute_quant_score c.features c.current_price c.strategy)
        (λ y bad. cc)
        (λ q' known.
          not_computable c q' risk
            (compute_quant_score-bybit c.features c.current_price c.strategy q' x known))
