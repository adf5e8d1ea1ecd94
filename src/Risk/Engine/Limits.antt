-- ===== src/Risk/Engine/Limits.antt =====
-- The entry limits of the risk engine: open positions and portfolio heat.
use binance_momentu.Prelude.{
  ℕ, ◌≤◌, ◌<◌, ◌≡◌, ◌↔◌, refl, sym, subst, Bool, true, false, if◌then◌else◌, List, [], ◌∷◌, String,
  arith,
}
use binance_momentu.Prelude.Dict.{string_key, length-insert-le, length-remove-le}
use binance_momentu.Float.{Float, ◌⊕◌, ◌<?◌}
use binance_momentu.Risk.Engine.{
  OpenPositionRisk, RiskEngine, maybe_reset_day, portfolio_heat_percent, open_position_count,
  check_trade_allowed, register_open_position, register_closed_position,
}

-- The four conditions of an entry, on the engine as it stands today.
pub record IsOpenFor {F : Type 0} ⦃f : Float F⦄ (btc_pause : Bool) (r : RiskEngine F) : Type 0 where
  pub not_frozen : r.frozen_for_today ≡ false
  pub not_paused : btc_pause ≡ false
  pub room : open_position_count r < r.strategy.max_open_positions
  pub cool :
      (r.strategy.max_portfolio_heat
        <? portfolio_heat_percent r ⊕ r.strategy.risk_per_trade_percent)
      ≡ false

module _ {F : Type 0} ⦃f : Float F⦄ where
  -- A trade is allowed exactly when the engine, after the daily reset, is not frozen, BTC is not
  -- paused, a position is free, and one more risk unit does not pass the heat limit.
  pub check_trade_allowed_iff :
      (btc_pause : Bool) (today : ℕ) (r : RiskEngine F)
      → let (r', check) = check_trade_allowed btc_pause today r in
        (check.allowed ≡ true) ↔ IsOpenFor btc_pause r'
  unfolding check_trade_allowed
  check_trade_allowed_iff btc_pause today r = ground arith

  -- How an engine with a new position stands to the limits and to the engine `r` before: there is
  -- room for the position, its heat unit was within the limit, and nothing else is changed.
  pub record IsWithin (r r' : RiskEngine F) : Type 0 where
    pub count_le : open_position_count r' ≤ r.strategy.max_open_positions
    pub heat_le :
        (r.strategy.max_portfolio_heat
          <? portfolio_heat_percent r ⊕ r.strategy.risk_per_trade_percent)
        ≡ false
    pub not_frozen : r'.frozen_for_today ≡ false
    pub same_strategy : r'.strategy ≡ r.strategy

  -- A position that is registered right after an allowed check, also under an identifier that is
  -- taken, leaves no more positions open than the limit and no frozen day, and the heat before it
  -- plus one risk unit is not above the heat limit.
  pub register_open_position-IsWithin :
      (btc_pause : Bool) (today : ℕ) (id symbol : String) (r : RiskEngine F)
      → let (r', check) = check_trade_allowed btc_pause today r in
        check.allowed ≡ true → IsWithin r' (register_open_position id symbol r')
  unfolding register_open_position
  register_open_position-IsWithin btc_pause today id symbol r ok =
      let r' = (check_trade_allowed btc_pause today r).0 in
      let open_for = (check_trade_allowed_iff btc_pause today r).0 ok in
      record {
        count_le = omega (
          arith,
          length-insert-le id
              (record {
                signal_id = id;
                symbol = symbol;
                risk_percent = r'.strategy.risk_per_trade_percent;
              })
              r'.open_positions,
          open_for.room,
        );
        heat_le = open_for.cool;
        not_frozen = open_for.not_frozen;
        same_strategy = refl;
      }

-- What is done to the engine: an entry, which is registered if its check passes, with nothing done
-- in between, and the closing of a position.
pub data Action (F : Type 0) : Type 0 where
  enter : Bool → ℕ → String → String → Action F
  leave : String → F → ℕ → Action F

module _ {F : Type 0} ⦃f : Float F⦄ where
  unfoldable pub act : Action F → RiskEngine F → RiskEngine F
  act (enter btc_pause today id symbol) r =
      let (r', check) = check_trade_allowed btc_pause today r in
      if check.allowed then register_open_position id symbol r' else r'
  act (leave id pnl today) r = register_closed_position id pnl today r

  unfoldable pub act_all : List (Action F) → RiskEngine F → RiskEngine F
  act_all [] r = r
  act_all (a ∷ rest) r = act_all rest (act a r)

  act-count :
      (a : Action F) (r : RiskEngine F)
      → open_position_count r ≤ r.strategy.max_open_positions
      → (open_position_count (act a r) ≤ r.strategy.max_open_positions)
        × ((act a r).strategy ≡ r.strategy)
  unfolding act register_open_position register_closed_position maybe_reset_day
  act-count (enter btc_pause today id symbol) r h =
      let p : OpenPositionRisk F = record {
        signal_id = id;
        symbol = symbol;
        risk_percent = r.strategy.risk_per_trade_percent;
      } in
      let r' = (check_trade_allowed btc_pause today r).0 in
      let same : (r'.strategy ≡ r.strategy) × (r'.open_positions ≡ r.open_positions) =
        unfold check_trade_allowed in ground arith in
      ground (
        arith,
        same,
        check_trade_allowed_iff btc_pause today r,
        length-insert-le id p r.open_positions,
      )
  act-count (leave id pnl today) r h = ground (arith, length-remove-le id r.open_positions)

  -- Whatever entries are tried and positions closed, the open positions never exceed the limit, if
  -- they did not at the start and each entry is registered right after its check.
  pub act_all-count :
      (acts : List (Action F)) (r : RiskEngine F)
      → open_position_count r ≤ r.strategy.max_open_positions
      → open_position_count (act_all acts r) ≤ r.strategy.max_open_positions
  unfolding act_all
  act_all-count [] r h = h
  act_all-count (a ∷ rest) r h =
      let (kept, same) = act-count a r h in
      let start =
        subst (λ s. open_position_count (act a r) ≤ s.max_open_positions) (sym same) kept in
      subst (λ s. open_position_count (act_all rest (act a r)) ≤ s.max_open_positions) same
        (act_all-count rest (act a r) start)
