-- ===== src/Exchanges/Listening.antt =====
-- `_handle_raw_message` of app/exchanges/binance/shard.py and app/exchanges/bybit/shard.py, and the
-- loop of `_connect_and_listen` over the messages of a connection. A message is what it decodes to,
-- or `none` if it does not decode. Of the exceptions for a message of Binance that is no object only
-- that there is one matters.
pub mod Feed
pub mod Market
use binance_momentu.Prelude.{
  ℕ, suc, ◌+◌, ◌≡◌, refl, Bool, true, false, not, ◌&&◌, ◌||◌, if◌then◌else◌, Option, none, some,
  List, [], ◌∷◌, ◌++◌, length, String, str_eq, Result, Error, ok, raise, ◌>>=◌, arith,
}
use binance_momentu.Float.{Float}
use binance_momentu.Domain.Events.{Event}
use binance_momentu.Exchanges.Payload.{Json, text, object, Fields, Reader, find}
use binance_momentu.Exchanges.Shard.{Protocol, Shard, receive}
use binance_momentu.Exchanges.Binance.Normalize.{has_key}
use binance_momentu.Exchanges.Binance.Normalize
use binance_momentu.Exchanges.Bybit.Normalize as Topics

-- The message of a connection, the readings of the two clocks when it is handled, and the time
-- after it.
pub record Arrival (F : Type 0) : Type 0 where
  pub message : Option (Json F)
  pub wall : ℕ
  pub made : ℕ
  pub heard_at : F
  pub done_at : F

-- `op in ("pong", "ping", "subscribe", "unsubscribe")`.
abbrev pub is_control_op : String → Bool
is_control_op op =
    str_eq op "pong" || str_eq op "ping" || str_eq op "subscribe" || str_eq op "unsubscribe"

module _ {F : Type 0} where
  -- The answer to a subscription.
  abbrev pub is_ack : Fields F → Bool
  is_ack fs = has_key "result" fs && has_key "id" fs && not (has_key "e" fs)

  abbrev pub is_control : Fields F → Bool
  is_control fs = elim (find "op" fs) [
    | none ↦ false
    | some v ↦ elim v [ text op ↦ is_control_op op | _ ↦ false ]
  ]

module _ {F : Type 0} ⦃f : Float F⦄ (r : Reader F) (fn : String → Bool) where
  -- The event that a message of Binance brings, if any.
  unfoldable pub binance_event : Arrival F → Result (Option (Event F))
  binance_event a = elim a.message [
    | none ↦ ok none
    | some v ↦ elim v [
      | object fs ↦ if is_ack fs then ok none else Normalize.normalize_message r a.wall a.made fn fs
      | _ ↦ raise Error.attribute_error
    ]
  ]

  -- And one of Bybit.
  unfoldable pub bybit_event : Arrival F → Result (Option (Event F))
  bybit_event a = elim a.message [
    | none ↦ ok none
    | some v ↦ elim v [
      | object fs ↦
          if is_control fs then ok none else Topics.normalize_message r a.wall a.made fn fs
      | _ ↦ ok none
    ]
  ]

-- Why the loop was left before the connection ended: no message in time, or an exception.
pub data Stop : Type 0 where
  closed : Stop
  failed : Error → Stop

-- The shard with the sink that it pushes to.
abbrev pub Ear : Type 0 → Type 0 → Type 0
Ear F S = Shard F × S

-- What follows, unless the loop is left.
abbrev pub unless_left :
    {F S : Type 0}
    → Ear F S × Option Stop
    → (Ear F S → Ear F S × Option Stop)
    → Ear F S × Option Stop
unless_left (ear, none) rest = rest ear
unless_left (ear, some stop) rest = (ear, some stop)

module _ {F S : Type 0} (push : Event F → S → S) where
  -- `if event is not None: self._sink.push(event)`.
  abbrev pub push_some : Option (Event F) → S → S
  push_some none sink = sink
  push_some (some e) sink = push e sink

  unfoldable pub push_all : List (Event F) → S → S
  push_all [] sink = sink
  push_all (e ∷ es) sink = push_all es (push e sink)

module _ {F S : Type 0} ⦃f : Float F⦄ (p : Protocol F)
    (event_of_message : Arrival F → Result (Option (Event F))) (push : Event F → S → S) where
  -- One turn of the loop.
  unfoldable pub hear : Arrival F → Ear F S → Ear F S × Option Stop
  hear a (s, sink) =
      let (s', is_silent) = receive p a.heard_at a.done_at s in
      elim (event_of_message a) [
        | raise e ↦ ((s', sink), some (failed e))
        | ok o ↦ ((s', push_some push o sink), if is_silent then some closed else none)
      ]

  -- All messages, until the loop is left.
  unfoldable pub hear_all : List (Arrival F) → Ear F S → Ear F S × Option Stop
  unfolding hear
  hear_all [] ear = (ear, none)
  hear_all (a ∷ more) ear = unless_left (hear a ear) (hear_all more)
