-- ===== src/Signals/Quant/Range.antt =====
-- When the quant score exists, and in which range it lies.
use binance_momentu.Prelude.Sets.{contains}
use binance_momentu.Prelude.{
  ◌≡◌, ◌≢◌, ◌↔◌, ◌⊎◌, String, map, eq_iff, refl, true, false, Option, none, some, List, [], ◌∷◌,
  is_empty, All, Result, ok, raise, ◌>>=◌, arith, if-cases, subst, ok-injective,
}
use binance_momentu.Float.{Float, ◌≼◌, ◌≤?◌, ◌<?◌, ◌⊗◌, ◌⊖◌, ◌⊘◌, abs, lit, nought, epsilon}
use binance_momentu.Float.Laws.{IsOrdered, clamp_bounds}
use binance_momentu.Config.{StrategyConfig}
use binance_momentu.Domain.Enums.{bybit}
use binance_momentu.Features.Store.{SymbolFeatureState, net_taker_delta_available}
use binance_momentu.Features.Engine.{
  net_taker_delta, rvol, trade_acceleration, momentum_ratio, breakout_inputs, dollar_volume_24h,
}
use binance_momentu.Signals.Quant.{
  ComponentAudit, QuantScoreResult, Inputs, map_some, missing_of, clamp01, normalize, audits,
  combined, quant_result, inputs_of, compute_quant_score, reference_friction_coverage,
}

-- Every component has a value.
abbrev pub AllKnown : {F : Type 0} → List (ComponentAudit F) → Type 0
AllKnown = All λ c. c.component_value ≢ none

module _ {F : Type 0} where
  missing_of-empty_iff :
      (cs : List (ComponentAudit F)) → (is_empty (missing_of cs) ≡ true) ↔ AllKnown cs
  unfolding missing_of
  missing_of-empty_iff [] = (λ h. tt, λ h. refl)
  missing_of-empty_iff (c ∷ cs) = ground (arith, missing_of-empty_iff cs)

  -- A component of that name has no value.
  abbrev pub Lacks : String → List (ComponentAudit F) → Type 0
  Lacks n [] = ⊥
  Lacks n (c ∷ cs) = ((c.name ≡ n) × (c.component_value ≡ none)) ⊎ Lacks n cs

  contains-missing_of :
      (n : String) (cs : List (ComponentAudit F)) → (contains n (missing_of cs) ≡ true) ↔ Lacks n cs
  unfolding missing_of contains
  contains-missing_of n [] = (λ h. absurd (ground arith), λ h. absurd h)
  contains-missing_of n (c ∷ cs) =
      ground (arith, eq_iff c.name n, eq_iff n c.name, contains-missing_of n cs)

module _ {F : Type 0} ⦃f : Float F⦄ where
  -- What a quant score result promises, for the state and the reference coverage.
  pub record IsScored (state : SymbolFeatureState F) (price : F) (s : StrategyConfig F)
      (coverage : Option F) (q : QuantScoreResult F) : Type 0 where
    pub names :
        map (λ c. c.name) q.components
        ≡ "rvol" ∷ "acceleration" ∷ "delta" ∷ "momentum" ∷ "breakout" ∷ "liquidity" ∷ "friction"
          ∷ []
    pub component_values :
        map (λ c. c.component_value) q.components
        ≡ rvol state
          ∷ trade_acceleration state
          ∷ net_taker_delta state
          ∷ momentum_ratio s.momentum_window_minutes state
          ∷ map_some (λ b. b.breakout_distance_atr) (breakout_inputs state price s)
          ∷ dollar_volume_24h state
          ∷ coverage
          ∷ []
    pub known : (q.computable ≡ true) ↔ AllKnown q.components
    pub scored :
        q.computable ≡ true → (x : F) × (q.quant_score ≡ some x) × (nought ≼ x) × (x ≼ lit 100 0)
    pub unscored :
        q.computable ≡ false
        → (q.quant_score ≡ none)
          × ((n : String) → (contains n q.missing_components ≡ true) ↔ Lacks n q.components)

  combined_bounds :
      (laws : IsOrdered F) (s : StrategyConfig F) (i : Inputs F)
      → (nought ≼ combined s i) × (combined s i ≼ lit 100 0)
  unfolding combined
  combined_bounds laws s i =
      clamp_bounds laws nought (lit 100 0) _ (laws.lit_mono 0 100 0 (omega arith))

  quant_result-IsScored :
      (laws : IsOrdered F) (state : SymbolFeatureState F) (price : F) (s : StrategyConfig F)
      (coverage : Option F)
      → IsScored state price s coverage (quant_result state s (inputs_of state price s coverage))
  unfolding quant_result audits inputs_of
  quant_result-IsScored laws state price s coverage =
      let i = inputs_of state price s coverage in
      let iff = missing_of-empty_iff (audits s i) in
      if-cases (IsScored state price s coverage) (is_empty (missing_of (audits s i)))
        (λ t. record {
          names = refl;
          component_values = refl;
          known = (λ _. iff.0 t, λ _. refl);
          scored =
              λ _. (combined s i, refl, (combined_bounds laws s i).0, (combined_bounds laws s i).1);
          unscored = λ h. cc;
        })
        (λ n. record {
          names = refl;
          component_values = refl;
          known = (λ h. cc, λ h. absurd (cc (iff.1 h)));
          scored = λ h. cc;
          unscored = λ _. (refl, λ name. contains-missing_of name (audits s i));
        })

  bind-IsScored :
      (laws : IsOrdered F) (state : SymbolFeatureState F) (price : F) (s : StrategyConfig F)
      (q : QuantScoreResult F) (m : Result (Option F))
      → (m >>= λ coverage. ok (quant_result state s (inputs_of state price s coverage))) ≡ ok q
      → (coverage : Option F) × (m ≡ ok coverage) × IsScored state price s coverage q
  bind-IsScored laws state price s q (ok coverage) e = (
    coverage,
    refl,
    subst (IsScored state price s coverage) (ok-injective e)
        (quant_result-IsScored laws state price s coverage),
  )
  bind-IsScored laws state price s q (raise x) e = cc

  -- Where the computation returns, the result has the seven components with the features of the
  -- state as their values, the last with the reference friction coverage. The quant score exists
  -- exactly when every component has a value, and then lies between 0 and 100; otherwise there is
  -- none, and exactly the names of the components without a value are reported.
  pub compute_quant_score-IsScored :
      (laws : IsOrdered F) (state : SymbolFeatureState F) (price : F) (s : StrategyConfig F)
      (q : QuantScoreResult F)
      → compute_quant_score state price s ≡ ok q
      → (coverage : Option F) × (reference_friction_coverage state price s ≡ ok coverage)
        × IsScored state price s coverage q
  unfolding compute_quant_score
  compute_quant_score-IsScored laws state price s q e =
      bind-IsScored laws state price s q (reference_friction_coverage state price s) e

  -- A value that no comparison puts below 1, such as NaN, is clamped to 1: it scores in full.
  pub normalize_not_lt :
      (laws : IsOrdered F) (value floor ceiling : F)
      → (abs (ceiling ⊖ floor) ≤? epsilon) ≡ false
      → ((value ⊖ floor) ⊘ (ceiling ⊖ floor) <? lit 1 0) ≡ false
      → normalize value floor ceiling ≡ lit 100 0 ⊗ lit 1 0
  unfolding normalize clamp01
  normalize_not_lt laws value floor ceiling span big = ground (arith, laws.nought-lt-one)

  delta_missing :
      (state : SymbolFeatureState F) (s : StrategyConfig F) (i : Inputs F)
      → i.delta_value ≡ none
      → (quant_result state s i).computable ≡ false
  unfolding quant_result audits
  delta_missing state s i e =
      if-cases (λ (q : QuantScoreResult F). q.computable ≡ false)
        (is_empty (missing_of (audits s i)))
        (λ t. absurd (((missing_of-empty_iff (audits s i)).0 t).1.1.0 e)) (λ _. refl)

  net_taker_delta-bybit :
      (state : SymbolFeatureState F) → state.exchange ≡ bybit → net_taker_delta state ≡ none
  unfolding net_taker_delta net_taker_delta_available
  net_taker_delta-bybit state e = ground arith

  bybit_result :
      (state : SymbolFeatureState F) (price : F) (s : StrategyConfig F) (q : QuantScoreResult F)
      (m : Result (Option F))
      → state.exchange ≡ bybit
      → (m >>= λ coverage. ok (quant_result state s (inputs_of state price s coverage))) ≡ ok q
      → q.computable ≡ false
  unfolding inputs_of
  bybit_result state price s q (ok coverage) x e =
      subst (λ (r : QuantScoreResult F). r.computable ≡ false) (ok-injective e)
        (delta_missing state s _ (net_taker_delta-bybit state x))
  bybit_result state price s q (raise y) x e = cc

  pub compute_quant_score-bybit :
      (state : SymbolFeatureState F) (price : F) (s : StrategyConfig F) (q : QuantScoreResult F)
      → state.exchange ≡ bybit
      → compute_quant_score state price s ≡ ok q
      → q.computable ≡ false
  unfolding compute_quant_score
  compute_quant_score-bybit state price s q x e =
      bybit_result state price s q (reference_friction_coverage state price s) x e
