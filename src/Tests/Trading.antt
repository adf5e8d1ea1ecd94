-- ===== src/Tests/Trading.antt =====
-- The theorems on the risk engine, the paper engine, the sizing and the auditor, applied.
use binance_momentu.Prelude.{
  ℕ, zero, suc, ◌≤◌, ◌≡◌, ◌↔◌, refl, true, false, if◌then◌else◌, none, some, List, [], ◌∷◌, String,
  Result, Error, ok, raise, arith, leb,
}
use binance_momentu.Prelude.Dict.{lookup, string_key}
use binance_momentu.Float.{◌⊗◌}
use binance_momentu.Float.Fixed.{Fixed, fixed_float}
use binance_momentu.Domain.Backoff.{BackoffPolicy}
use binance_momentu.Risk.Engine.{
  RiskEngine, check_trade_allowed, reasons_against, maybe_reset_day, register_open_position,
}
use binance_momentu.Risk.Engine.Limits.{
  Action, enter, leave, act_all, IsWithin, register_open_position-IsWithin,
}
use binance_momentu.Risk.Engine.Freeze.{IsFrozen, act_all-IsFrozen}
use binance_momentu.Domain.Enums.{SignalState}
use binance_momentu.Execution.Paper.{
  PaperPosition, PaperTradingEngine, new_position, exit_of, on_price_update,
}
use binance_momentu.Execution.Paper.Exits.{IsKeyed, IsDue, staying, leaving, on_price_update_lem}
use binance_momentu.Ai.Auditor.{ClaudeContextAuditor, Reply, answered}
use binance_momentu.Tests.Samples.{decimal, fresh_risk}

fresh-allowed : (check_trade_allowed false 7 fresh_risk).1.allowed ≡ true
unfolding check_trade_allowed reasons_against maybe_reset_day
fresh-allowed = refl

no_position : lookup "s1" (check_trade_allowed false 7 fresh_risk).0.open_positions ≡ none
unfolding check_trade_allowed maybe_reset_day lookup
no_position = refl

register_open_position-IsWithin_example :
    IsWithin
      (check_trade_allowed false 7 fresh_risk).0
      (register_open_position "s1" "SOLUSDT" (check_trade_allowed false 7 fresh_risk).0)
register_open_position-IsWithin_example =
    register_open_position-IsWithin false 7 "s1" "SOLUSDT" fresh_risk fresh-allowed

-- Three entries and a loss of two percent.
abbrev a_day : List (Action Fixed)
a_day =
    enter false 7 "s1" "SOLUSDT"
    ∷ enter false 7 "s2" "ETHUSDT"
    ∷ enter false 7 "s3" "BTCUSDT"
    ∷ enter false 7 "s4" "XRPUSDT"
    ∷ leave "s1" (decimal 2 0) 7
    ∷ []

abbrev pub frozen_risk : RiskEngine Fixed
frozen_risk = record fresh_risk { frozen_for_today = true }

act_all-IsFrozen_example : IsFrozen 7 (act_all a_day frozen_risk)
act_all-IsFrozen_example =
    (act_all-IsFrozen 7 a_day frozen_risk (refl, (refl, (refl, (refl, (refl, tt))))) (refl, refl)).0

abbrev position : String → ℕ → PaperPosition Fixed
position id stop =
    new_position id "SOLUSDT" "binance" (decimal 100 0) (decimal stop 0) (decimal 110 0)
      (decimal 1000 0) 5

-- Two positions, of which a fall to 96 stops one.
abbrev pub engine : PaperTradingEngine Fixed
engine = record {
  open_positions = ("s1", position "s1" 95) ∷ ("s2", position "s2" 97) ∷ [];
  closed_positions = [];
}

pub engine-IsKeyed : IsKeyed engine.open_positions
unfolding lookup
engine-IsKeyed = (refl, refl, refl, (refl, refl, refl, tt))

on_price_update_lem_example :
    (on_price_update "SOLUSDT" "binance" (decimal 96 0) 9 engine ≡ (
      record {
        open_positions = staying "SOLUSDT" "binance" (decimal 96 0) 9 engine.open_positions;
        closed_positions = leaving "SOLUSDT" "binance" (decimal 96 0) 9 engine.open_positions;
      },
      ok (leaving "SOLUSDT" "binance" (decimal 96 0) 9 engine.open_positions),
    ))
    × ((p : PaperPosition Fixed) (state : SignalState)
        → (exit_of "SOLUSDT" "binance" (decimal 96 0) p ≡ some state)
          ↔ IsDue "SOLUSDT" "binance" (decimal 96 0) 9 p state)
on_price_update_lem_example =
    on_price_update_lem "SOLUSDT" "binance" (decimal 96 0) 9 engine engine-IsKeyed

abbrev auditor : ClaudeContextAuditor Fixed
auditor = record { api_key = some "key"; cooldown_seconds = decimal 300 0; last_call_at = [] }

abbrev approval : Reply
approval = answered "APPROVED" "clear tape"

abbrev policy : BackoffPolicy Fixed
policy = record {
  base_seconds = decimal 1 0;
  max_seconds = decimal 60 0;
  jitter_seconds = decimal 5 1;
  multiplier = decimal 2 0;
}

-- Powers with room for exponents below 1024.
abbrev power_of : Fixed → ℕ → Fixed
power_of x zero = decimal 1 0
power_of x (suc n) = x ⊗ power_of x n

abbrev pow : Fixed → ℕ → Result Fixed
pow x n = if leb 1024 n then raise Error.overflow_error else ok (power_of x n)

pow_overflow : (n : ℕ) → 1024 ≤ n → pow policy.multiplier n ≡ raise Error.overflow_error
pow_overflow n h = ground arith
