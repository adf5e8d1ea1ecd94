-- ===== src/Exchanges/Listening/Market.antt =====
-- Bybit's market data on its way from the exchange to the sink.
use binance_momentu.Prelude.{
  ◌≡◌, ◌≢◌, refl, ◌⊎◌, inl, inr, Bool, true, false, not, ◌&&◌, Option, none, some, List, [], ◌∷◌,
  All, String, str_eq, ok,
}
use binance_momentu.Float.{Float}
use binance_momentu.Domain.Events.{Event}
use binance_momentu.Exchanges.Payload.{Json, null, object, Fields, Reader, find}
use binance_momentu.Exchanges.Binance.Normalize.Roundtrip.{IsWriter}
use binance_momentu.Exchanges.Bybit.{TopicTemplate, bybit_protocol}
use binance_momentu.Exchanges.Bybit.Normalize.Published.{
  Published, minute, quote, best, symbol_of, has_dot, message_of, event_of,
}
use binance_momentu.Exchanges.Bybit.Normalize.Roundtrip.{normalize_message-message_of}
use binance_momentu.Exchanges.Shard.{Shard, receive}
use binance_momentu.Exchanges.Listening.{Arrival, is_control, bybit_event, push_all, hear, hear_all}

-- An arrival with what Bybit published in it; `none` is for a message without market data.
abbrev pub Delivery : Type 0 → Type 0
Delivery F = Arrival F × Option (Published F)

module _ {F : Type 0} (write : F → Json F) where
  -- The message is the one for what was published; without market data it is one of the control
  -- channel or does not decode.
  abbrev pub IsSent : Delivery F → Type 0
  IsSent (a, none) =
      (a.message ≡ none)
      ⊎ ((fs : Fields F) × (a.message ≡ some (object fs)) × (is_control fs ≡ true))
  IsSent (a, some p) =
      (a.message ≡ some (object (message_of write p))) × (has_dot (symbol_of p) ≡ false)

  no_control : (p : Published F) → is_control (message_of write p) ≡ false
  unfolding find
  no_control (minute _ _ _ _ _ _ _ _ _ _ _) = refl
  no_control (quote _ _ _ _ _ _) = refl
  no_control (best _ _ _ _ _ _) = refl

abbrev pub arrivals : {F : Type 0} → List (Delivery F) → List (Arrival F)
arrivals [] = []
arrivals ((a, _) ∷ more) = a ∷ arrivals more

module _ {F : Type 0} ⦃f : Float F⦄ (fn : String → Bool) where
  -- The events that stand for what was published.
  abbrev pub market_events : List (Delivery F) → List (Event F)
  market_events [] = []
  market_events ((a, none) ∷ more) = market_events more
  market_events ((a, some p) ∷ more) =
      event_of a.made (not (str_eq (symbol_of p) "") && fn (symbol_of p)) p ∷ market_events more

module _ {F S : Type 0} ⦃f : Float F⦄ (r : Reader F) (write : F → Json F) (laws : IsWriter r write)
    (no_null : (x : F) → write x ≢ null) (fn : String → Bool) (push : Event F → S → S) where
  sent_event :
      (a : Arrival F) (p : Published F)
      → IsSent write (a, some p)
      → bybit_event r fn a
        ≡ ok (some (event_of a.made (not (str_eq (symbol_of p) "") && fn (symbol_of p)) p))
  unfolding bybit_event
  sent_event a p (e, dotless) =
      rw (e, no_control write p)
        (normalize_message-message_of r write laws no_null fn a.wall a.made p dotless)

  no_event : (a : Arrival F) → IsSent write (a, none) → bybit_event r fn a ≡ ok none
  unfolding bybit_event
  no_event a (inl e) = rw e refl
  no_event a (inr (fs, e, c)) = rw (e, c) refl

  -- If reading gives back what writing wrote, and no number is written as null: of a connection over
  -- which come complete messages of market data (klines, tickers and order books of symbols without
  -- a dot, in the shape of `message_of`), answers of the control channel and texts that do not
  -- decode, and nothing else, the sink gets exactly the events that stand for the market data, each
  -- once and in order, and the loop goes on through all of it.
  pub hear_all-market_events :
      (templates : List TopicTemplate) (all : List (Delivery F)) (s : Shard F) (sink : S)
      → All (IsSent write) all
      → let end =
          hear_all (bybit_protocol templates) (bybit_event r fn) push (arrivals all) (s, sink) in
        (end.0.1 ≡ push_all push (market_events fn all) sink) × (end.1 ≡ none)
  unfolding hear_all push_all receive
  hear_all-market_events templates [] s sink h = (refl, refl)
  hear_all-market_events templates ((a, none) ∷ more) s sink h =
      rw (hear, no_event a h.0) (hear_all-market_events templates more _ sink h.1)
  hear_all-market_events templates ((a, some p) ∷ more) s sink h =
      rw (hear, sent_event a p h.0) (hear_all-market_events templates more _ _ h.1)
