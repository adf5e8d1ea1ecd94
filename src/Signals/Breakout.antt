-- ===== src/Signals/Breakout.antt =====
-- app/signals/breakout.py: the breakout entry trigger, with the list of the conditions that failed.
use binance_momentu.Prelude.{
  ◌≡◌, ◌↔◌, refl, Bool, true, false, if◌then◌else◌, Option, none, some, List, [], ◌∷◌, ◌++◌,
  is_empty, String, arith, inl, inr, Option-cases,
}
use binance_momentu.Float.{Float, ◌<?◌, lit}
use binance_momentu.Config.{StrategyConfig}
use binance_momentu.Features.Store.{SymbolFeatureState}
use binance_momentu.Features.Engine.{BreakoutInputs, spread_percent, absorption_gate}
use binance_momentu.Signals.Quant.{QuantScoreResult, map_some}
use binance_momentu.Risk.Engine.{reason}

pub record BreakoutTriggerResult (F : Type 0) : Type 0 where
  pub triggered : Bool
  pub breakout_level : Option F
  pub prior_high : Option F
  pub breakout_buffer : Option F
  pub absorption : Option Bool
  pub reasons_failed : List String

abbrev pub absorption_reasons : Option Bool → List String
absorption_reasons none = "absorption_state_unavailable" ∷ []
absorption_reasons (some absorbed) = reason absorbed "absorption_detected"

module _ {F : Type 0} ⦃f : Float F⦄ where
  -- `value is None or value < threshold`.
  abbrev pub short_of : Option F → F → Bool
  short_of none threshold = true
  short_of (some v) threshold = v <? threshold

  -- `value is None or value > limit`.
  abbrev pub beyond : Option F → F → Bool
  beyond none limit = true
  beyond (some v) limit = limit <? v

  abbrev pub breakout_reasons : Option (BreakoutInputs F) → F → List String
  breakout_reasons none price = "breakout_inputs_unavailable" ∷ []
  breakout_reasons (some b) price = reason (price <? b.breakout_level) "price_below_breakout_level"

  unfoldable pub failed_reasons :
      SymbolFeatureState F → F → QuantScoreResult F → F → StrategyConfig F → Bool → List String
  failed_reasons state price q score s btc_pause =
      breakout_reasons q.breakout price
      ++ (reason (short_of q.rvol s.rvol_threshold) "rvol_below_threshold"
          ++ (reason (short_of q.trade_acceleration s.acceleration_threshold)
                "acceleration_below_threshold"
              ++ (reason (short_of q.net_taker_delta (lit 30 2)) "taker_delta_below_threshold"
                  ++ (reason (short_of q.dollar_volume_24h s.min_24h_volume_usd)
                        "volume_below_threshold"
                      ++ (reason (beyond (spread_percent state) s.max_spread_percent)
                            "spread_above_max_or_unavailable"
                          ++ (reason btc_pause "btc_volatility_pause_active"
                              ++ (absorption_reasons (absorption_gate state)
                                  ++ reason (score <? s.claude_score_threshold)
                                      "quant_score_below_threshold")))))))

  unfoldable pub stale_result : BreakoutTriggerResult F
  stale_result = record {
    triggered = false;
    breakout_level = none;
    prior_high = none;
    breakout_buffer = none;
    absorption = none;
    reasons_failed = "required_market_data_not_fresh_or_incomplete" ∷ [];
  }

  unfoldable pub trigger_result :
      SymbolFeatureState F
      → F
      → QuantScoreResult F
      → F
      → StrategyConfig F
      → Bool
      → BreakoutTriggerResult F
  trigger_result state price q score s btc_pause =
      let reasons = failed_reasons state price q score s btc_pause in
      record {
        triggered = is_empty reasons;
        breakout_level = map_some (λ b. b.breakout_level) q.breakout;
        prior_high = map_some (λ b. b.prior_high) q.breakout;
        breakout_buffer = map_some (λ b. b.breakout_buffer) q.breakout;
        absorption = absorption_gate state;
        reasons_failed = reasons;
      }

  unfoldable pub evaluate_breakout_trigger :
      SymbolFeatureState F
      → F
      → QuantScoreResult F
      → StrategyConfig F
      → Bool
      → BreakoutTriggerResult F
  unfolding stale_result trigger_result
  evaluate_breakout_trigger state price q s btc_pause =
      if q.computable
      then elim q.quant_score [
        | none ↦ stale_result
        | some score ↦ trigger_result state price q score s btc_pause
      ]
      else stale_result

-- The value is there and is not below the threshold.
abbrev pub Reaches : {F : Type 0} ⦃f : Float F⦄ → Option F → F → Type 0
Reaches {F} v threshold = (x : F) × (v ≡ some x) × ((x <? threshold) ≡ false)

abbrev pub Within : {F : Type 0} ⦃f : Float F⦄ → Option F → F → Type 0
Within {F} v limit = (x : F) × (v ≡ some x) × ((limit <? x) ≡ false)

-- The conditions of an entry, all at once.
pub record IsBreakout {F : Type 0} ⦃f : Float F⦄ (state : SymbolFeatureState F) (price : F)
    (q : QuantScoreResult F) (s : StrategyConfig F) (btc_pause : Bool) : Type 0 where
  pub computable : q.computable ≡ true
  pub level : (b : BreakoutInputs F) × (q.breakout ≡ some b) × ((price <? b.breakout_level) ≡ false)
  pub volume : Reaches q.rvol s.rvol_threshold
  pub acceleration : Reaches q.trade_acceleration s.acceleration_threshold
  pub delta : Reaches q.net_taker_delta (lit 30 2)
  pub liquidity : Reaches q.dollar_volume_24h s.min_24h_volume_usd
  pub spread : Within (spread_percent state) s.max_spread_percent
  pub no_pause : btc_pause ≡ false
  pub no_absorption : absorption_gate state ≡ some false
  pub score : Reaches q.quant_score s.claude_score_threshold

append-empty_iff :
    (xs ys : List String)
    → (is_empty (xs ++ ys) ≡ true) ↔ ((is_empty xs ≡ true) × (is_empty ys ≡ true))
append-empty_iff [] ys = ground arith
append-empty_iff (x ∷ xs) ys = ground arith

absorption_reasons_iff :
    (a : Option Bool) → (is_empty (absorption_reasons a) ≡ true) ↔ (a ≡ some false)
absorption_reasons_iff a = ground arith

module _ {F : Type 0} ⦃f : Float F⦄ where
  short_of_iff :
      (v : Option F) (t : F) (r : String)
      → (is_empty (reason (short_of v t) r) ≡ true) ↔ Reaches v t
  short_of_iff none t r = (λ h. cc, λ h. cc (h.1))
  short_of_iff (some v) t r = (λ h. (v, refl, ground arith), λ h. ground arith)

  beyond_iff :
      (v : Option F) (t : F) (r : String) → (is_empty (reason (beyond v t) r) ≡ true) ↔ Within v t
  beyond_iff none t r = (λ h. cc, λ h. cc (h.1))
  beyond_iff (some v) t r = (λ h. (v, refl, ground arith), λ h. ground arith)

  breakout_reasons_iff :
      (b : Option (BreakoutInputs F)) (price : F)
      → (is_empty (breakout_reasons b price) ≡ true)
        ↔ ((i : BreakoutInputs F) × (b ≡ some i) × ((price <? i.breakout_level) ≡ false))
  breakout_reasons_iff none price = (λ h. cc, λ h. cc (h.1))
  breakout_reasons_iff (some i) price = (λ h. (i, refl, ground arith), λ h. ground arith)

  clear_reasons :
      (state : SymbolFeatureState F) (price : F) (q : QuantScoreResult F) (score : F)
      (s : StrategyConfig F) (btc_pause : Bool)
      → q.computable ≡ true
      → q.quant_score ≡ some score
      → is_empty (failed_reasons state price q score s btc_pause) ≡ true
      → IsBreakout state price q s btc_pause
  unfolding failed_reasons
  clear_reasons state price q score s btc_pause c e h =
      let (h0, t0) = (append-empty_iff (breakout_reasons q.breakout price) _).0 h in
      let (h1, t1) = (append-empty_iff (reason (short_of q.rvol s.rvol_threshold) _) _).0 t0 in
      let (h2, t2) =
        (append-empty_iff (reason (short_of q.trade_acceleration s.acceleration_threshold) _) _).0
          t1 in
      let (h3, t3) = (append-empty_iff (reason (short_of q.net_taker_delta (lit 30 2)) _) _).0 t2 in
      let (h4, t4) =
        (append-empty_iff (reason (short_of q.dollar_volume_24h s.min_24h_volume_usd) _) _).0 t3 in
      let (h5, t5) =
        (append-empty_iff (reason (beyond (spread_percent state) s.max_spread_percent) _) _).0 t4 in
      let (h6, t6) = (append-empty_iff (reason btc_pause _) _).0 t5 in
      let (h7, t7) = (append-empty_iff (absorption_reasons (absorption_gate state)) _).0 t6 in
      record {
        computable = c;
        level = (breakout_reasons_iff q.breakout price).0 h0;
        volume = (short_of_iff q.rvol s.rvol_threshold _).0 h1;
        acceleration = (short_of_iff q.trade_acceleration s.acceleration_threshold _).0 h2;
        delta = (short_of_iff q.net_taker_delta (lit 30 2) _).0 h3;
        liquidity = (short_of_iff q.dollar_volume_24h s.min_24h_volume_usd _).0 h4;
        spread = (beyond_iff (spread_percent state) s.max_spread_percent _).0 h5;
        no_pause = ground arith;
        no_absorption = (absorption_reasons_iff (absorption_gate state)).0 h7;
        score = (score, e, ground arith);
      }

  no_reasons :
      (state : SymbolFeatureState F) (price : F) (q : QuantScoreResult F) (s : StrategyConfig F)
      (btc_pause : Bool) (b : IsBreakout state price q s btc_pause)
      → is_empty (failed_reasons state price q b.score.0 s btc_pause) ≡ true
  unfolding failed_reasons
  no_reasons state price q s btc_pause b =
      (append-empty_iff (breakout_reasons q.breakout price) _).1 (
        (breakout_reasons_iff q.breakout price).1 b.level,
        (append-empty_iff (reason (short_of q.rvol s.rvol_threshold) _) _).1 (
          (short_of_iff q.rvol s.rvol_threshold _).1 b.volume,
          (append-empty_iff (reason (short_of q.trade_acceleration s.acceleration_threshold) _) _).1
              (
                (short_of_iff q.trade_acceleration s.acceleration_threshold _).1 b.acceleration,
                (append-empty_iff (reason (short_of q.net_taker_delta (lit 30 2)) _) _).1 (
                  (short_of_iff q.net_taker_delta (lit 30 2) _).1 b.delta,
                  (append-empty_iff (reason (short_of q.dollar_volume_24h s.min_24h_volume_usd) _)
                        _).1
                      (
                        (short_of_iff q.dollar_volume_24h s.min_24h_volume_usd _).1 b.liquidity,
                        (append-empty_iff
                              (reason (beyond (spread_percent state) s.max_spread_percent) _) _).1
                            (
                              (beyond_iff (spread_percent state) s.max_spread_percent _).1 b.spread,
                              (append-empty_iff (reason btc_pause _) _).1 (
                                ground (arith, b.no_pause),
                                (append-empty_iff (absorption_reasons (absorption_gate state)) _).1
                                    (
                                      (absorption_reasons_iff (absorption_gate state)).1
                                          b.no_absorption,
                                      ground (arith, b.score.2),
                                    ),
                              ),
                            ),
                      ),
                ),
              ),
        ),
      )

  fires :
      (state : SymbolFeatureState F) (price : F) (q : QuantScoreResult F) (s : StrategyConfig F)
      (btc_pause : Bool)
      → (evaluate_breakout_trigger state price q s btc_pause).triggered ≡ true
      → IsBreakout state price q s btc_pause
  unfolding evaluate_breakout_trigger
  fires state price q s btc_pause h = elim (Option-cases q.quant_score) [
    | inl e ↦ absurd (ground arith)
    | inr (score, e) ↦ clear_reasons state price q score s btc_pause (ground arith) e (ground arith)
  ]

  fired :
      (state : SymbolFeatureState F) (price : F) (q : QuantScoreResult F) (s : StrategyConfig F)
      (btc_pause : Bool)
      → IsBreakout state price q s btc_pause
      → (evaluate_breakout_trigger state price q s btc_pause).triggered ≡ true
  unfolding evaluate_breakout_trigger
  fired state price q s btc_pause b =
      ground (arith, no_reasons state price q s btc_pause b, b.computable, b.score.1)

  -- The trigger fires exactly when every condition of the breakout holds, each on a value that is
  -- there: a missing value, the spread's and the absorption's included, is a failed condition.
  pub evaluate_breakout_trigger_iff :
      (state : SymbolFeatureState F) (price : F) (q : QuantScoreResult F) (s : StrategyConfig F)
      (btc_pause : Bool)
      → ((evaluate_breakout_trigger state price q s btc_pause).triggered ≡ true)
        ↔ IsBreakout state price q s btc_pause
  evaluate_breakout_trigger_iff state price q s btc_pause =
      (fires state price q s btc_pause, fired state price q s btc_pause)
