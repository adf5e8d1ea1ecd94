-- ===== src/Signals/Quant.antt =====
-- app/signals/quant_score.py: the quant score. The list of missing components is computed from the
-- audits of the components, in their order, as the closure `audit` collects it.
pub mod Range
use binance_momentu.Prelude.{
  ℕ, ◌≡◌, refl, Bool, true, false, if◌then◌else◌, Option, none, some, List, [], ◌∷◌, ◌++◌, is_empty,
  String, Result, ok, raise,
}
use binance_momentu.Prelude.{◌>>=◌}
use binance_momentu.Float.{
  Float, ◌⊕◌, ◌⊖◌, ◌⊗◌, ◌⊘◌, ◌≤?◌, ◌<?◌, abs, lit, nought, epsilon, max, min,
}
use binance_momentu.Config.{StrategyConfig}
use binance_momentu.Features.Store.{SymbolFeatureState}
use binance_momentu.Features.Engine.{
  BreakoutInputs, rvol, trade_acceleration, net_taker_delta, momentum_ratio, breakout_inputs,
  dollar_volume_24h, atr_1m, range_1m, volume_1m_usd, spread_percent,
}
use binance_momentu.Signals.Friction.{
  estimated_slippage_percent, total_friction_percent, friction_coverage,
}

pub record ComponentAudit (F : Type 0) : Type 0 where
  pub name : String
  pub component_value : Option F
  pub normalized_score : Option F
  pub normalization_floor : F
  pub normalization_ceiling : F

pub record QuantScoreResult (F : Type 0) : Type 0 where
  pub computable : Bool
  pub missing_components : List String
  pub quant_score : Option F
  pub components : List (ComponentAudit F)
  pub rvol : Option F
  pub trade_acceleration : Option F
  pub net_taker_delta : Option F
  pub momentum_ratio : Option F
  pub breakout : Option (BreakoutInputs F)
  pub dollar_volume_24h : Option F
  pub atr_1m : Option F
  pub reference_friction_coverage : Option F

-- The values of the components before they are normalised.
pub record Inputs (F : Type 0) : Type 0 where
  pub rvol_value : Option F
  pub accel_value : Option F
  pub delta_value : Option F
  pub momentum_value : Option F
  pub breakout : Option (BreakoutInputs F)
  pub dollar_volume : Option F
  pub coverage : Option F

abbrev pub map_some : {A B : Type 0} → (A → B) → Option A → Option B
map_some g none = none
map_some g (some a) = some (g a)

-- The names of the components that have no value.
unfoldable pub missing_of : {F : Type 0} → List (ComponentAudit F) → List String
missing_of [] = []
missing_of (c ∷ cs) = elim c.component_value [
  | none ↦ c.name ∷ missing_of cs
  | some v ↦ missing_of cs
]

module _ {F : Type 0} ⦃f : Float F⦄ where
  unfoldable pub clamp01 : F → F
  clamp01 x = max nought (min (lit 1 0) x)

  unfoldable pub normalize : (value floor ceiling : F) → F
  normalize value floor ceiling =
      let span = ceiling ⊖ floor in
      if abs span ≤? epsilon then nought else lit 100 0 ⊗ clamp01 ((value ⊖ floor) ⊘ span)

  abbrev pub audit : String → Option F → F → F → ComponentAudit F
  audit name value floor ceiling = record {
    name = name;
    component_value = value;
    normalized_score = map_some (λ v. normalize v floor ceiling) value;
    normalization_floor = floor;
    normalization_ceiling = ceiling;
  }

  -- The reference friction chain, from the inputs that are all there.
  unfoldable pub reference_chain : StrategyConfig F → (price atr range volume spread : F) → Result F
  reference_chain s price atr range volume spread = do
    slippage ←
        estimated_slippage_percent s.reference_order_size_usd range atr volume
          s.base_slippage_percent s.slippage_gamma
    let friction = total_friction_percent s.taker_fee_percent spread slippage
    let expected_move = s.take_profit_rr ⊗ (s.sl_atr_multiplier ⊗ atr)
    ok (friction_coverage (expected_move ⊘ price ⊗ lit 100 0) friction)

  unfoldable pub reference_friction_coverage :
      SymbolFeatureState F → F → StrategyConfig F → Result (Option F)
  reference_friction_coverage state price s = elim (atr_1m state) [
    | none ↦ ok none
    | some atr ↦ elim (range_1m state) [
      | none ↦ ok none
      | some range ↦ elim (volume_1m_usd state) [
        | none ↦ ok none
        | some volume ↦ elim (spread_percent state) [
          | none ↦ ok none
          | some spread ↦
              if epsilon <? price
              then (do c ← reference_chain s price atr range volume spread; ok (some c))
              else ok none
        ]
      ]
    ]
  ]

  unfoldable pub inputs_of : SymbolFeatureState F → F → StrategyConfig F → Option F → Inputs F
  inputs_of state price s coverage = record {
    rvol_value = rvol state;
    accel_value = trade_acceleration state;
    delta_value = net_taker_delta state;
    momentum_value = momentum_ratio s.momentum_window_minutes state;
    breakout = breakout_inputs state price s;
    dollar_volume = dollar_volume_24h state;
    coverage = coverage;
  }

  unfoldable pub audits : StrategyConfig F → Inputs F → List (ComponentAudit F)
  audits s i =
      audit "rvol" i.rvol_value s.rvol_score_floor s.rvol_score_ceiling
      ∷ audit "acceleration" i.accel_value s.acceleration_score_floor s.acceleration_score_ceiling
      ∷ audit "delta" i.delta_value s.delta_score_floor s.delta_score_ceiling
      ∷ audit "momentum" i.momentum_value s.momentum_score_floor s.momentum_score_ceiling
      ∷ audit "breakout" (map_some (λ b. b.breakout_distance_atr) i.breakout)
          s.breakout_atr_multiplier s.breakout_score_ceiling
      ∷ audit "liquidity" i.dollar_volume s.min_24h_volume_usd s.liquidity_score_ceiling_usd
      ∷ audit "friction" i.coverage s.friction_score_floor s.friction_score_ceiling
      ∷ []

  -- A score that is there.
  abbrev pub the_score : ComponentAudit F → F
  the_score c = elim c.normalized_score [ none ↦ nought | some x ↦ x ]

  -- The weighted sum, clamped to 0-100.
  unfoldable pub combined : StrategyConfig F → Inputs F → F
  combined s i =
      let w = s.quant_score_weights in
      let score =
        w.rvol ⊗ the_score (audit "rvol" i.rvol_value s.rvol_score_floor s.rvol_score_ceiling)
        ⊕ w.acceleration
          ⊗ the_score (
              audit "acceleration" i.accel_value s.acceleration_score_floor
                s.acceleration_score_ceiling)
        ⊕ w.delta
          ⊗ the_score (audit "delta" i.delta_value s.delta_score_floor s.delta_score_ceiling)
        ⊕ w.momentum
          ⊗ the_score
              (audit "momentum" i.momentum_value s.momentum_score_floor s.momentum_score_ceiling)
        ⊕ w.breakout
          ⊗ the_score (
              audit "breakout" (map_some (λ b. b.breakout_distance_atr) i.breakout)
                s.breakout_atr_multiplier s.breakout_score_ceiling)
        ⊕ w.liquidity
          ⊗ the_score
              (audit "liquidity" i.dollar_volume s.min_24h_volume_usd s.liquidity_score_ceiling_usd)
        ⊕ w.friction
          ⊗ the_score
              (audit "friction" i.coverage s.friction_score_floor s.friction_score_ceiling) in
      max nought (min (lit 100 0) score)

  unfoldable pub quant_result :
      SymbolFeatureState F → StrategyConfig F → Inputs F → QuantScoreResult F
  quant_result state s i =
      let components = audits s i in
      let missing = missing_of components in
      if is_empty missing
      then record {
        computable = true;
        missing_components = [];
        quant_score = some (combined s i);
        components = components;
        rvol = i.rvol_value;
        trade_acceleration = i.accel_value;
        net_taker_delta = i.delta_value;
        momentum_ratio = i.momentum_value;
        breakout = i.breakout;
        dollar_volume_24h = i.dollar_volume;
        atr_1m = atr_1m state;
        reference_friction_coverage = i.coverage;
      }
      else record {
        computable = false;
        missing_components = missing;
        quant_score = none;
        components = components;
        rvol = none;
        trade_acceleration = none;
        net_taker_delta = none;
        momentum_ratio = none;
        breakout = none;
        dollar_volume_24h = none;
        atr_1m = none;
        reference_friction_coverage = none;
      }

  unfoldable pub compute_quant_score :
      SymbolFeatureState F → F → StrategyConfig F → Result (QuantScoreResult F)
  compute_quant_score state price s = do
    coverage ← reference_friction_coverage state price s
    ok (quant_result state s (inputs_of state price s coverage))

  pub classify_quant_score : F → StrategyConfig F → String
  classify_quant_score score s =
      let t = s.quant_score_thresholds in
      if t.high_conviction ≤? score
      then "high_conviction"
      else (if t.pump_detected ≤? score
          then "pump_detected"
          else (if t.candidate ≤? score
              then "candidate"
              else if t.watch ≤? score
              then "watch"
              else "no_trade"))
