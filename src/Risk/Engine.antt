-- ===== src/Risk/Engine.antt =====
-- app/risk/risk_engine.py: `RiskEngine`. A day is a number, and the current day an argument of each
-- method that reads the clock.
pub mod Limits
pub mod Freeze
use binance_momentu.Prelude.{
  ℕ, ◌+◌, ◌≤◌, ◌≡◌, refl, Bool, true, false, not, if◌then◌else◌, leb, ◌==◌, List, [], ◌∷◌, ◌++◌,
  length, map, is_empty, String,
}
use binance_momentu.Prelude.Dict.{Dict, insert, remove, values, string_key}
use binance_momentu.Float.{Float, ◌⊕◌, ◌≤?◌, ◌<?◌, neg, abs, nought, sum}
use binance_momentu.Config.{StrategyConfig}

pub record OpenPositionRisk (F : Type 0) : Type 0 where
  pub signal_id : String
  pub symbol : String
  pub risk_percent : F

pub record RiskCheckResult : Type 0 where
  pub allowed : Bool
  pub reasons_blocked : List String

pub record RiskEngine (F : Type 0) : Type 0 where
  pub strategy : StrategyConfig F
  pub open_positions : Dict String (OpenPositionRisk F)
  pub daily_pnl_percent : F
  pub daily_reset_date : ℕ
  pub frozen_for_today : Bool

-- `if test: reasons.append(r)`, as the list of what is appended.
abbrev pub reason : Bool → String → List String
reason true r = r ∷ []
reason false r = []

module _ {F : Type 0} ⦃f : Float F⦄ where
  abbrev pub new_engine : StrategyConfig F → ℕ → RiskEngine F
  new_engine strategy today = record {
    strategy = strategy;
    open_positions = [];
    daily_pnl_percent = nought;
    daily_reset_date = today;
    frozen_for_today = false;
  }

  unfoldable pub maybe_reset_day : ℕ → RiskEngine F → RiskEngine F
  maybe_reset_day today r = if today == r.daily_reset_date then r else record r {
    daily_reset_date = today;
    daily_pnl_percent = nought;
    frozen_for_today = false;
  }

  abbrev pub portfolio_heat_percent : RiskEngine F → F
  portfolio_heat_percent r = sum (map (λ p. p.risk_percent) (values r.open_positions))

  abbrev pub open_position_count : RiskEngine F → ℕ
  open_position_count r = length r.open_positions

  unfoldable pub reasons_against : Bool → RiskEngine F → List String
  reasons_against btc_pause_active r =
      reason r.frozen_for_today "daily_loss_limit_freeze_active"
      ++ (reason btc_pause_active "btc_volatility_pause_active"
          ++ (reason (leb r.strategy.max_open_positions (open_position_count r))
                "max_open_positions_reached"
              ++ reason
                  (r.strategy.max_portfolio_heat
                    <? portfolio_heat_percent r ⊕ r.strategy.risk_per_trade_percent)
                  "max_portfolio_heat_would_be_exceeded"))

  unfoldable pub check_trade_allowed : Bool → ℕ → RiskEngine F → RiskEngine F × RiskCheckResult
  unfolding reasons_against
  check_trade_allowed btc_pause_active today r =
      let r' = maybe_reset_day today r in
      let reasons = reasons_against btc_pause_active r' in
      (r', record { allowed = is_empty reasons; reasons_blocked = reasons })

  unfoldable pub register_open_position : String → String → RiskEngine F → RiskEngine F
  register_open_position signal_id symbol r = record r {
    open_positions =
        insert signal_id
          (record {
            signal_id = signal_id;
            symbol = symbol;
            risk_percent = r.strategy.risk_per_trade_percent;
          })
          r.open_positions;
  }

  unfoldable pub register_closed_position : String → F → ℕ → RiskEngine F → RiskEngine F
  register_closed_position signal_id pnl today r =
      let r' = maybe_reset_day today r in
      let total = r'.daily_pnl_percent ⊕ pnl in
      record r' {
        open_positions = remove signal_id r'.open_positions;
        daily_pnl_percent = total;
        frozen_for_today =
            if total ≤? neg (abs r'.strategy.daily_loss_limit_percent)
            then true
            else r'.frozen_for_today;
      }
