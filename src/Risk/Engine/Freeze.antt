-- ===== src/Risk/Engine/Freeze.antt =====
-- The daily loss limit of the risk engine.
use binance_momentu.Prelude.Dict.{length-remove-le, string_key}
use binance_momentu.Prelude.{
  ℕ, length, ◌≤◌, ◌≡◌, Bool, true, false, if◌then◌else◌, ◌==◌, List, [], ◌∷◌, String, arith,
}
use binance_momentu.Float.{Float, ◌⊕◌, ◌≼◌, neg, abs, nought}
use binance_momentu.Risk.Engine.{
  RiskEngine, maybe_reset_day, check_trade_allowed, register_closed_position,
}
use binance_momentu.Risk.Engine.Limits.{Action, enter, leave, act, act_all}

-- Frozen on the day.
abbrev pub IsFrozen : {F : Type 0} → ℕ → RiskEngine F → Type 0
IsFrozen day r = (r.daily_reset_date ≡ day) × (r.frozen_for_today ≡ true)

abbrev pub day_of : {F : Type 0} → Action F → ℕ
day_of (enter btc_pause today id symbol) = today
day_of (leave id pnl today) = today

abbrev pub AllOn : {F : Type 0} → ℕ → List (Action F) → Type 0
AllOn day [] = Unit
AllOn day (a ∷ acts) = (day_of a ≡ day) × AllOn day acts

module _ {F : Type 0} ⦃f : Float F⦄ where
  -- A closing that takes the day's result to the loss limit or past it freezes the engine for that
  -- day, and on a new day the result counts from zero.
  pub register_closed_position-IsFrozen :
      (id : String) (pnl : F) (today : ℕ) (r : RiskEngine F)
      → let before = if today == r.daily_reset_date then r.daily_pnl_percent else nought in
        before ⊕ pnl ≼ neg (abs r.strategy.daily_loss_limit_percent)
        → IsFrozen today (register_closed_position id pnl today r)
  unfolding register_closed_position maybe_reset_day
  register_closed_position-IsFrozen id pnl today r h = ground arith

  check_trade_allowed-frozen :
      (btc_pause : Bool) (today : ℕ) (r : RiskEngine F)
      → IsFrozen today r
      → let (r', check) = check_trade_allowed btc_pause today r in
        (r' ≡ r) × (check.allowed ≡ false)
  unfolding check_trade_allowed maybe_reset_day
  check_trade_allowed-frozen btc_pause today r h = ground arith

  act-IsFrozen :
      (day : ℕ) (a : Action F) (r : RiskEngine F)
      → day_of a ≡ day
      → IsFrozen day r
      → IsFrozen day (act a r) × (length (act a r).open_positions ≤ length r.open_positions)
  unfolding act register_closed_position maybe_reset_day
  act-IsFrozen day (enter btc_pause today id symbol) r e h =
      ground (arith, check_trade_allowed-frozen btc_pause today r)
  act-IsFrozen day (leave id pnl today) r e h = ground (arith, length-remove-le id r.open_positions)

  -- Once frozen, the engine stays frozen through any closings and entries of that day, these each
  -- registered right after its check if this allows it: it allows none
  -- of the entries, and opens no position: their number does not grow.
  pub act_all-IsFrozen :
      (day : ℕ) (acts : List (Action F)) (r : RiskEngine F)
      → AllOn day acts
      → IsFrozen day r
      → let r' = act_all acts r in
        IsFrozen day r'
        × (length r'.open_positions ≤ length r.open_positions)
        × ((btc_pause : Bool) → (check_trade_allowed btc_pause day r').1.allowed ≡ false)
  unfolding act_all
  act_all-IsFrozen day [] r on h =
      (h, omega arith, λ btc_pause. (check_trade_allowed-frozen btc_pause day r h).1)
  act_all-IsFrozen day (a ∷ acts) r on h =
      let (frozen, fewer) = act-IsFrozen day a r on.0 h in
      let (still, fewer', refused) = act_all-IsFrozen day acts (act a r) on.1 frozen in
      (still, omega arith, refused)
