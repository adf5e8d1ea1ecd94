-- ===== src/Domain/Enums.antt =====
-- app/domain/enums.py. `value` is the string that a member of a `str` enumeration is.
use binance_momentu.Prelude.{String}

pub data Exchange : Type 0 where
  binance bybit : Exchange

pub data EventType : Type 0 where
  market_ticker kline book_ticker trade open_interest economic signal execution system : EventType

-- From the highest priority to the lowest.
pub data EventPriority : Type 0 where
  p0 p1 p2 p3 : EventPriority

pub data ConnectionState : Type 0 where
  disconnected connecting connected subscribing healthy reconnecting soft_reconnecting failed :
      ConnectionState

pub data IngestionState : Type 0 where
  normal lossy_mode data_overload ingestion_degraded : IngestionState

pub data SignalState : Type 0 where
  no_trade watch candidate pump_detected entry_pending entry_approved paper_position_open :
      SignalState
  take_profit stop_loss invalidated expired rejected : SignalState

pub data MacroRiskState : Type 0 where
  normal event_approaching event_active post_event_volatility macro_data_unavailable :
      MacroRiskState

abbrev pub exchange_value : Exchange → String
exchange_value Exchange.binance = "binance"
exchange_value Exchange.bybit = "bybit"

abbrev pub state_value : SignalState → String
state_value SignalState.no_trade = "no_trade"
state_value SignalState.watch = "watch"
state_value SignalState.candidate = "candidate"
state_value SignalState.pump_detected = "pump_detected"
state_value SignalState.entry_pending = "entry_pending"
state_value SignalState.entry_approved = "entry_approved"
state_value SignalState.paper_position_open = "paper_position_open"
state_value SignalState.take_profit = "take_profit"
state_value SignalState.stop_loss = "stop_loss"
state_value SignalState.invalidated = "invalidated"
state_value SignalState.expired = "expired"
state_value SignalState.rejected = "rejected"
