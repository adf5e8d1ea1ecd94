-- ===== src/Exchanges/Base.antt =====
-- app/exchanges/base.py: the metrics of the connections.
use binance_momentu.Prelude.{ℕ, Bool, true, false, ◌||◌, Option, List, [], ◌∷◌, String}
use binance_momentu.Domain.Enums.{ConnectionState}

pub record ConnectionMetrics (F : Type 0) : Type 0 where
  pub connection_id : String
  pub state : ConnectionState
  pub subscribed_symbols : ℕ
  pub messages_received : ℕ
  pub reconnect_count : ℕ
  pub last_message_age_ms : Option F
  pub last_error : Option String

pub record AdapterMetrics (F : Type 0) : Type 0 where
  pub exchange : String
  pub connections : List (ConnectionMetrics F)
  pub total_messages_received : ℕ
  pub total_reconnects : ℕ

-- `state in (HEALTHY, CONNECTED)`.
abbrev pub is_live : ConnectionState → Bool
is_live ConnectionState.healthy = true
is_live ConnectionState.connected = true
is_live _ = false

abbrev pub any_live : {F : Type 0} → List (ConnectionMetrics F) → Bool
any_live [] = false
any_live (c ∷ cs) = is_live c.state || any_live cs

unfoldable pub is_healthy : {F : Type 0} → AdapterMetrics F → Bool
is_healthy m = any_live m.connections
