-- ===== src/Risk/Sizing.antt =====
-- app/risk/position_sizing.py: the raw size from the risk, and the clamp to the tradable range.
use binance_momentu.Prelude.{◌≡◌, ◌⊎◌, Bool, true, if◌then◌else◌, arith}
use binance_momentu.Float.{Float, ◌⊗◌, ◌⊘◌, ◌≤?◌, ◌<?◌, ◌≼◌, lit, nought, epsilon}
use binance_momentu.Float.Laws.{IsOrdered}

pub record PositionSizeResult (F : Type 0) : Type 0 where
  pub risk_amount_usd : F
  pub raw_position_size_usd : F
  pub final_position_size_usd : F
  pub clamped_by_min : Bool
  pub clamped_by_max : Bool

module _ {F : Type 0} ⦃f : Float F⦄ where
  -- The risk amount and the raw size.
  unfoldable pub compute_raw_position_size : (equity risk_percent stop_distance_percent : F) → F × F
  compute_raw_position_size equity risk_percent stop_distance_percent =
      let risk_amount = equity ⊗ (risk_percent ⊘ lit 100 0) in
      if stop_distance_percent ≤? epsilon
      then (risk_amount, nought)
      else (risk_amount, risk_amount ⊘ stop_distance_percent)

  unfoldable pub apply_position_constraints : (raw min_usd max_usd : F) → PositionSizeResult F
  apply_position_constraints raw min_usd max_usd =
      let below = raw <? min_usd in
      let raised = if below then min_usd else raw in
      let above = max_usd <? raised in
      record {
        risk_amount_usd = nought;
        raw_position_size_usd = raw;
        final_position_size_usd = if above then max_usd else raised;
        clamped_by_min = below;
        clamped_by_max = above;
      }

  -- The final size of a number lies between the limits, if these are in order. It is the raw size
  -- unless a flag is set, and the raw size itself is reported as it was.
  pub apply_position_constraints_lem :
      (laws : IsOrdered F) (raw min_usd max_usd : F)
      → raw ≼ raw
      → min_usd ≼ max_usd
      → let r = apply_position_constraints raw min_usd max_usd in
        (min_usd ≼ r.final_position_size_usd)
        × (r.final_position_size_usd ≼ max_usd)
        × (r.raw_position_size_usd ≡ raw)
        × ((r.clamped_by_min ≡ true)
            ⊎ ((r.clamped_by_max ≡ true) ⊎ (r.final_position_size_usd ≡ raw)))
  unfolding apply_position_constraints
  apply_position_constraints_lem laws raw lo hi n h = ground (
    arith,
    laws.number_left lo hi h,
    laws.number_right lo hi h,
    laws.le_of_not_lt lo raw,
    laws.le_of_not_lt raw hi,
    laws.not_lt_of_le lo hi h,
  )
