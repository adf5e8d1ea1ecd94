-- ===== src/Signals/Friction.antt =====
-- app/signals/friction.py: the slippage and friction model and the coverage gate, in percent points.
use binance_momentu.Prelude.{◌≡◌, Bool, true, false, Result, Error, ok, raise, ◌>>=◌, arith}
use binance_momentu.Float.{
  Float, ◌⊕◌, ◌⊗◌, ◌⊘◌, ◌≤?◌, ◌<?◌, ◌≼◌, lit, nought, epsilon, max, square_root,
}
use binance_momentu.Float.Laws.{IsOrdered, le-max}

module _ {F : Type 0} ⦃f : Float F⦄ where
  -- `minimum_liquidity_floor` is at its default everywhere.
  unfoldable pub estimated_slippage_percent : (order range atr volume base gamma : F) → Result F
  estimated_slippage_percent order range atr volume base gamma = do
    root ← square_root (order ⊘ max volume (lit 1 0))
    ok (max nought (base ⊕ gamma ⊗ (range ⊘ max atr epsilon) ⊗ root))

  unfoldable pub total_friction_percent : (taker_fee spread slippage : F) → F
  total_friction_percent taker_fee spread slippage = lit 2 0 ⊗ taker_fee ⊕ spread ⊕ slippage

  unfoldable pub friction_coverage : (net_expected_profit total_friction : F) → F
  friction_coverage net_expected_profit total_friction =
      net_expected_profit ⊘ max total_friction epsilon

  unfoldable pub friction_gate_passes : (net_expected_profit total_friction ratio : F) → Bool
  friction_gate_passes net_expected_profit total_friction ratio =
      ratio ⊗ total_friction ≤? net_expected_profit

  -- The slippage fails exactly where the order over the volume is negative, and is never below
  -- zero.
  pub estimated_slippage_percent_lem :
      (laws : IsOrdered F) (order range atr volume base gamma : F)
      → let r = estimated_slippage_percent order range atr volume base gamma in
        ((order ⊘ max volume (lit 1 0) <? nought) ≡ true → r ≡ raise Error.value_error)
        × ((order ⊘ max volume (lit 1 0) <? nought) ≡ false → (s : F) × (r ≡ ok s) × (nought ≼ s))
  unfolding estimated_slippage_percent
  estimated_slippage_percent_lem laws order range atr volume base gamma =
      let root = f.sqrt (order ⊘ max volume (lit 1 0)) in
      let s = base ⊕ gamma ⊗ (range ⊘ max atr epsilon) ⊗ root in
      (
        λ neg. rw neg,
        λ pos. (max nought s, rw pos, le-max laws nought s (laws.lit_mono 0 0 0 (omega arith))),
      )
