-- ===== src/Exchanges/Shard.antt =====
-- app/exchanges/binance/shard.py and app/exchanges/bybit/shard.py: one WebSocket connection with the
-- symbols it owns. The two classes differ in what `Protocol` holds and in the ping task, and are
-- one model over it. Each stretch of a method between two `await`s is a step of its own where
-- another task can come in between. `sent` is what went out on the present connection.
pub mod Offline
pub mod Frames
pub mod Life
use binance_momentu.Prelude.{
  ℕ, ◌+◌, Bool, true, false, not, ◌&&◌, ◌||◌, if◌then◌else◌, ◌==◌, Option, none, some, List, [],
  ◌∷◌, ◌++◌, length, is_empty, String,
}
use binance_momentu.Prelude.Sets.{union, difference, meet}
use binance_momentu.Prelude.Chunks.{chunks}
use binance_momentu.Float.{Float, ◌⊖◌, ◌⊗◌, ◌<?◌, lit}
use binance_momentu.Domain.Enums.{
  ConnectionState, disconnected, connecting, subscribing, healthy, reconnecting, soft_reconnecting,
}
use binance_momentu.Exchanges.Base.{ConnectionMetrics, is_live}

-- The topics of a symbol; how many a message may hold; whether messages are numbered; and after
-- how many seconds a connection without a message counts as unhealthy, where that is checked.
pub record Protocol (F : Type 0) : Type 0 where
  pub topics : String → List String
  pub max_params : ℕ
  pub numbered : Bool
  pub health_timeout_seconds : Option F

pub data Method : Type 0 where
  subscribe unsubscribe : Method

pub record Frame : Type 0 where
  pub method : Method
  pub params : List String
  pub id : Option ℕ

pub record Shard (F : Type 0) : Type 0 where
  pub shard_id : String
  pub symbols : List String
  pub state : ConnectionState
  pub has_ws : Bool
  pub reconnect_attempt : ℕ
  pub reconnect_count : ℕ
  pub messages_received : ℕ
  pub last_message_at : Option F
  pub connected_at : Option F
  pub last_error : Option String
  pub sub_id_counter : ℕ
  pub is_stopping : Bool
  pub pending_add : List String
  pub pending_remove : List String
  pub sent : List Frame

abbrev pub new_shard : {F : Type 0} → String → Shard F
new_shard shard_id = record {
  shard_id = shard_id;
  symbols = [];
  state = disconnected;
  has_ws = false;
  reconnect_attempt = 0;
  reconnect_count = 0;
  messages_received = 0;
  last_message_at = none;
  connected_at = none;
  last_error = none;
  sub_id_counter = 1;
  is_stopping = false;
  pending_add = [];
  pending_remove = [];
  sent = [];
}

-- The topics of the symbols, one symbol after the other.
unfoldable pub topics_of : {F : Type 0} → Protocol F → List String → List String
topics_of p [] = []
topics_of p (s ∷ ss) = p.topics s ++ topics_of p ss

-- One message for each piece, numbered from `n` on.
unfoldable pub frames_from :
    {F : Type 0} → Protocol F → Method → ℕ → List (List String) → List Frame
frames_from p m n [] = []
frames_from p m n (c ∷ cs) =
    record { method = m; params = c; id = if p.numbered then some n else none }
    ∷ frames_from p m (n + 1) cs

module _ {F : Type 0} (p : Protocol F) where
  -- `_send_sub_message` and `_send_op`.
  unfoldable pub send_sub_message : Method → List String → Shard F → Shard F
  send_sub_message m symbols s =
      let pieces = chunks p.max_params (topics_of p symbols) in
      if s.has_ws
      then record s {
        sent = s.sent ++ frames_from p m s.sub_id_counter pieces;
        sub_id_counter = if p.numbered then s.sub_id_counter + length pieces else s.sub_id_counter;
      }
      else s

  -- `if symbols: await self._send(...)`.
  unfoldable pub send_some : Method → List String → Shard F → Shard F
  send_some m symbols s = if is_empty symbols then s else send_sub_message m symbols s

  unfoldable pub start : List String → Shard F → Shard F
  start initial_symbols s = record s { symbols = initial_symbols; is_stopping = false }

  unfoldable pub stop : Shard F → Shard F
  stop s = record s { is_stopping = true; state = disconnected }

  -- The symbols after an update.
  abbrev pub updated : (added removed : List String) → Shard F → List String
  updated added removed s =
      difference (union s.symbols (difference added s.symbols)) (meet removed s.symbols)

  unfoldable pub update_subscriptions : (added removed : List String) → Shard F → Shard F
  update_subscriptions added removed s =
      let add' = difference added s.symbols in
      let remove' = meet removed s.symbols in
      let s' = record s { symbols = updated added removed s } in
      if not s.has_ws || not (is_live s.state)
      then record s' {
        pending_add = union s.pending_add add';
        pending_remove = union s.pending_remove remove';
      }
      else send_some unsubscribe remove' (send_some subscribe add' s')

  -- `_connect_and_listen` up to the connection.
  unfoldable pub begin_connect : Shard F → Shard F
  begin_connect s = record s { state = connecting }

  -- From the connection to the end of the subscription.
  unfoldable pub opened : F → Shard F → Shard F
  opened now s =
      let symbols = difference (union s.symbols s.pending_add) s.pending_remove in
      send_some subscribe symbols (record s {
        has_ws = true;
        state = subscribing;
        connected_at = some now;
        symbols = symbols;
        pending_add = [];
        pending_remove = [];
        sent = [];
      })

  unfoldable pub settled : Shard F → Shard F
  settled s = record s { state = healthy; reconnect_attempt = 0 }

  -- Too late since the connection, with no message.
  unfoldable pub is_silent : ⦃f : Float F⦄ → F → Shard F → Bool
  is_silent now s = elim p.health_timeout_seconds [
    | none ↦ false
    | some timeout ↦ elim s.connected_at [
      | none ↦ false
      | some connected_at ↦ timeout <? now ⊖ connected_at && s.messages_received == 0
    ]
  ]

  -- A message, at the time `now`, and whether the connection is given up after it at `later`.
  unfoldable pub receive : ⦃f : Float F⦄ → (now later : F) → Shard F → Shard F × Bool
  unfolding is_silent
  receive now later s =
      let s' = record s {
        messages_received = s.messages_received + 1;
        last_message_at = some now;
      } in
      (s', is_silent later s')

  -- The connection ended without an exception.
  unfoldable pub ended : Shard F → Shard F
  ended s = record s { has_ws = false }

  -- `_run_forever` after `_connect_and_listen`, which raised the error or returned, up to the delay.
  -- Whether the task goes on after it, or ends because the delay raises, is `next_phase` of Life.
  unfoldable pub after_connection : Option String → Shard F → Shard F
  after_connection error s =
      let s' = record s { last_error = elim error [ none ↦ s.last_error | some e ↦ some e ] } in
      if s.is_stopping then s' else record s' {
        state = reconnecting;
        reconnect_attempt = s.reconnect_attempt + 1;
        reconnect_count = s.reconnect_count + 1;
      }

  unfoldable pub soft_reconnect : Shard F → Shard F
  soft_reconnect s = if s.is_stopping then s else record s { state = soft_reconnecting }

  unfoldable pub get_metrics : ⦃f : Float F⦄ → F → Shard F → ConnectionMetrics F
  get_metrics now s = record {
    connection_id = s.shard_id;
    state = s.state;
    subscribed_symbols = length s.symbols;
    messages_received = s.messages_received;
    reconnect_count = s.reconnect_count;
    last_message_age_ms = elim s.last_message_at [
      | none ↦ none
      | some last ↦ some ((now ⊖ last) ⊗ lit 1000 0)
    ];
    last_error = s.last_error;
  }
