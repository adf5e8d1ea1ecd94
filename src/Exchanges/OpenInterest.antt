-- ===== src/Exchanges/OpenInterest.antt =====
-- app/exchanges/binance/oi.py and app/exchanges/bybit/oi.py: the two clients for the open interest.
-- What the request returned or raised is the argument `reply`. `os_error` is also for the classes
-- `URLError` and `TimeoutError`, which are subclasses of it.
pub mod Replies
use binance_momentu.Prelude.{
  ℕ, Bool, true, false, if◌then◌else◌, Option, none, some, String, Result, Error, ok, raise, ◌>>=◌,
  or_none,
}
use binance_momentu.Float.{Float}
use binance_momentu.Domain.Enums.{Exchange, binance, bybit, EventType}
use binance_momentu.Domain.Events.{OiEvent}
use binance_momentu.Domain.Priority.{classify_priority}
use binance_momentu.Exchanges.Payload.{
  Json, object, Fields, Reader, subscript, required, with_get, item, int_or, base_at, truthy,
}

-- `except (urllib.error.URLError, TimeoutError, OSError, ValueError)`.
abbrev pub fetch_caught : Error → Bool
fetch_caught Error.os_error = true
fetch_caught Error.value_error = true
fetch_caught _ = false

-- `except (KeyError, TypeError, ValueError)`, and for Bybit `IndexError` too.
abbrev pub reading_caught : Exchange → Error → Bool
reading_caught x Error.key_error = true
reading_caught x Error.type_error = true
reading_caught x Error.value_error = true
reading_caught bybit Error.index_error = true
reading_caught x _ = false

module _ {F : Type 0} ⦃f : Float F⦄ (r : Reader F) (now later : ℕ) (symbol : String) where
  abbrev pub oi_event : Exchange → F → ℕ → OiEvent F
  oi_event x open_interest provider_ts = record {
    base =
        base_at x EventType.open_interest (classify_priority EventType.open_interest true false)
          symbol provider_ts later;
    open_interest = open_interest;
    open_interest_value_usd = none;
    provider_timestamp = some provider_ts;
  }

  -- The number and its time, in the object that holds both.
  unfoldable pub read_latest : Exchange → (time_key : String) → Json F → Result (Option (OiEvent F))
  read_latest x time_key latest = do
    value ← subscript "openInterest" latest
    open_interest ← r.to_float value
    fs ← with_get latest
    provider_ts ← int_or r now time_key fs
    ok (some (oi_event x open_interest provider_ts))

  unfoldable pub read_binance : Json F → Result (Option (OiEvent F))
  unfolding read_latest
  read_binance answer = read_latest binance "time" answer

  unfoldable pub read_bybit : Json F → Result (Option (OiEvent F))
  unfolding read_latest
  read_bybit answer = do
    result ← subscript "result" answer
    result_list ← subscript "list" result
    if truthy result_list
        then (do latest ← item 0 result_list; read_latest bybit "timestamp" latest)
        else ok none

  abbrev pub read : Exchange → Json F → Result (Option (OiEvent F))
  read binance = read_binance
  read bybit = read_bybit

  -- `fetch_open_interest` of each of the two.
  unfoldable pub fetch_open_interest : Exchange → Result (Json F) → Result (Option (OiEvent F))
  fetch_open_interest x (raise e) = or_none fetch_caught (raise e)
  fetch_open_interest x (ok answer) = or_none (reading_caught x) (read x answer)
