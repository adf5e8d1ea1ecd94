-- ===== src/Exchanges/OpenInterest/Replies.antt =====
-- What becomes of a reply.
use binance_momentu.Prelude.{
  ℕ, ◌≡◌, refl, ◌⊎◌, true, false, Option, some, String, Result, Error, ok, raise, none,
}
use binance_momentu.Float.{Float}
use binance_momentu.Domain.Enums.{Exchange, binance, bybit}
use binance_momentu.Domain.Events.{OiEvent}
use binance_momentu.Exchanges.Payload.{
  Json, integer, text, array, object, Items, cons, Fields, end, field, Reader, find, item, int_or,
}
use binance_momentu.Exchanges.Binance.Normalize.Roundtrip.{IsWriter}
use binance_momentu.Exchanges.OpenInterest.{
  fetch_caught, reading_caught, oi_event, read_binance, read_bybit, fetch_open_interest,
}

-- The exceptions that reading a value may raise.
abbrev pub IsReading : Error → Type 0
IsReading e = ((e ≡ Error.value_error) ⊎ (e ≡ Error.type_error)) ⊎ (e ≡ Error.overflow_error)

pub record IsPython {F : Type 0} (r : Reader F) : Type 0 where
  pub float_raises : (v : Json F) (e : Error) → r.to_float v ≡ raise e → IsReading e
  pub int_raises : (v : Json F) (e : Error) → r.to_int v ≡ raise e → IsReading e

-- A value, or one of the exceptions that the client for the exchange handles, or an overflow.
abbrev pub Reads : {A : Type 0} → Exchange → Result A → Type 0
Reads x (ok a) = true ≡ true
Reads x (raise e) = (reading_caught x e ≡ true) ⊎ (e ≡ Error.overflow_error)

module _ {F : Type 0} ⦃f : Float F⦄ (r : Reader F) (python : IsPython r) (now later : ℕ)
    (symbol : String) where
  -- The object of a reply that holds the latest open interest: the reply of Binance itself, and the
  -- first of the list in the reply of Bybit.
  abbrev pub IsLatest : Exchange → Json F → Fields F → Type 0
  IsLatest binance v fs = v ≡ object fs
  IsLatest bybit v fs =
      (outer : Fields F) × (inner : Fields F) × (older : Items F) × (v ≡ object outer)
      × (find "result" outer ≡ some (object inner))
      × (find "list" inner ≡ some (array (cons (object fs) older)))

  abbrev pub time_key : Exchange → String
  time_key binance = "time"
  time_key bybit = "timestamp"

  -- The event reports the number of that object and its time, for the symbol.
  abbrev pub Reports : Exchange → Fields F → OiEvent F → Type 0
  Reports x fs event =
      (number : Json F) × (ts : ℕ) × (find "openInterest" fs ≡ some number)
      × (r.to_float number ≡ ok event.open_interest)
      × (int_or r now (time_key x) fs ≡ ok ts)
      × (event.exchange ≡ x)
      × (event.symbol ≡ symbol)
      × (event.exchange_timestamp ≡ ts)
      × (event.provider_timestamp ≡ some ts)

  -- What a client may come to: an exception, an event, or none.
  abbrev pub IsFetched : Exchange → Result (Json F) → Result (Option (OiEvent F)) → Type 0
  IsFetched x reply (raise e) =
      (e ≡ Error.overflow_error) ⊎ ((reply ≡ raise e) × (fetch_caught e ≡ false))
  IsFetched x reply (ok none) = true ≡ true
  IsFetched x reply (ok (some event)) =
      (v : Json F) × (fs : Fields F) × (reply ≡ ok v) × IsLatest x v fs × Reports x fs event

module _ {F : Type 0} (write : F → Json F) where
  -- The reply of an exchange with the open interest at a time, and for Bybit older ones after it.
  abbrev pub reply_of : Exchange → String → F → ℕ → Items F → Json F
  reply_of binance symbol open_interest ts older = object (
      field "symbol" (text symbol)
        (field "openInterest" (write open_interest) (field "time" (integer ts) end)))
  reply_of bybit symbol open_interest ts older = object (
      field "retCode" (integer 0) (
        field "result"
          (object (
            field "symbol" (text symbol) (
              field "category" (text "linear") (
                field "list"
                  (array (
                    cons
                      (object (
                        field "openInterest" (write open_interest)
                          (field "timestamp" (integer ts) end)))
                      older))
                  end))))
          end))

module _ {F : Type 0} ⦃f : Float F⦄ (r : Reader F) (write : F → Json F)
    (laws : IsWriter r write) where
  -- If reading gives back what writing wrote, the reply of either exchange becomes the event with
  -- its number and its time; of Bybit's series the first is taken.
  pub fetch_open_interest-reply_of :
      (now later : ℕ) (symbol : String) (x : Exchange) (open_interest : F) (ts : ℕ)
      (older : Items F)
      → fetch_open_interest r now later symbol x
          (ok (reply_of write x symbol open_interest ts older))
        ≡ ok (some (oi_event r now later symbol x open_interest ts))
  unfolding fetch_open_interest read_binance read_bybit find int_or item
  fetch_open_interest-reply_of now later symbol binance open_interest ts older =
      rw (laws.float_back open_interest, laws.int_back ts) refl
  fetch_open_interest-reply_of now later symbol bybit open_interest ts older =
      rw (laws.float_back open_interest, laws.int_back ts) refl
