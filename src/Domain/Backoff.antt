-- ===== src/Domain/Backoff.antt =====
-- app/core/backoff.py: the reconnect delay. The random jitter is an argument of the call, the value
-- that `random.uniform(0, jitter_seconds)` returned, which is drawn if `jitter_seconds` is positive.
-- So is `**` of a float and an int, which raises OverflowError where a float has no room.
use binance_momentu.Prelude.{
  ℕ, suc, ◌-◌, ◌≤◌, ◌≡◌, if◌then◌else◌, ltb, arith, Result, Error, ok, raise, ◌>>=◌,
}
use binance_momentu.Float.{Float, ◌⊕◌, ◌⊗◌, ◌<?◌, ◌≼◌, nought, min}
use binance_momentu.Float.Laws.{IsOrdered}

pub record BackoffPolicy (F : Type 0) : Type 0 where
  pub base_seconds : F
  pub max_seconds : F
  pub jitter_seconds : F
  pub multiplier : F

module _ {F : Type 0} ⦃f : Float F⦄ (pow : F → ℕ → Result F) where
  -- The exponential delay, before the jitter.
  capped_delay : BackoffPolicy F → ℕ → Result F
  capped_delay p attempt = do
    let attempt' = if ltb attempt 1 then 1 else attempt
    power ← pow p.multiplier (attempt' - 1)
    ok (min (p.base_seconds ⊗ power) p.max_seconds)

  pub delay_for_attempt : BackoffPolicy F → ℕ → F → Result F
  unfolding capped_delay
  delay_for_attempt p attempt drawn = do
    capped ← capped_delay p attempt
    ok (capped ⊕ (if nought <? p.jitter_seconds then drawn else nought))

  -- If the power exists, and `max_seconds` and the product of the power with `base_seconds` are
  -- numbers, the delay is a part of at most `max_seconds` plus the jitter.
  pub delay_for_attempt-le :
      (laws : IsOrdered F) (p : BackoffPolicy F) (attempt : ℕ) (drawn power : F)
      → pow p.multiplier (attempt - 1) ≡ ok power
      → p.base_seconds ⊗ power ≼ p.base_seconds ⊗ power
      → p.max_seconds ≼ p.max_seconds
      → (capped : F) × (delay_for_attempt p attempt drawn
          ≡ ok (capped ⊕ (if nought <? p.jitter_seconds then drawn else nought)))
        × (capped ≼ p.max_seconds)
  unfolding delay_for_attempt
  delay_for_attempt-le laws p attempt drawn power e n m =
      let exponent : (if ltb attempt 1 then 1 else attempt) - 1 ≡ attempt - 1 = ground arith in
      (
        min (p.base_seconds ⊗ power) p.max_seconds,
        ground (arith, exponent),
        ground (arith, laws.le_of_not_lt (p.base_seconds ⊗ power) p.max_seconds),
      )

  -- The cap does not help where the power itself has no room: from then on there is no delay at all
  -- but the exception.
  pub delay_for_attempt_overflow :
      (p : BackoffPolicy F) (limit : ℕ)
      → ((n : ℕ) → limit ≤ n → pow p.multiplier n ≡ raise Error.overflow_error)
      → (attempt : ℕ) (drawn : F) → suc limit ≤ attempt
      → delay_for_attempt p attempt drawn ≡ raise Error.overflow_error
  unfolding delay_for_attempt
  delay_for_attempt_overflow p limit h attempt drawn le = ground (arith, h (attempt - 1))
