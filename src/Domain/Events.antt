-- ===== src/Domain/Events.antt =====
-- app/domain/events.py: the event classes as records over the fields of their base class, and
-- their properties. Timestamps are milliseconds since the epoch.
use binance_momentu.Prelude.{
  ℕ, ◌+◌, ◌≡◌, Bool, ◌||◌, if◌then◌else◌, Option, none, some, String, arith, ltb,
}
use binance_momentu.Prelude.Int.{ℤ, pos, sub_ℕ, ltb_ℤ}
use binance_momentu.Float.{Float, ◌⊕◌, ◌⊖◌, ◌⊗◌, ◌⊘◌, ◌≤?◌, lit, nought}
use binance_momentu.Domain.Enums.{Exchange, EventType, EventPriority, SignalState}

pub record DomainEvent : Type 0 where
  pub exchange : Exchange
  pub symbol : String
  pub event_type : EventType
  pub exchange_timestamp : ℕ
  pub local_ingest_timestamp : ℕ
  pub priority : EventPriority
  pub sequence : Option ℕ

pub ingest_latency_ms : DomainEvent → ℤ
ingest_latency_ms e = sub_ℕ e.local_ingest_timestamp e.exchange_timestamp

pub is_stale : DomainEvent → Bool
is_stale e = ltb_ℤ (pos 2000) (ingest_latency_ms e)

pub record MarketTickerEvent (F : Type 0) : Type 0 where
  pub base : DomainEvent
  pub open base use *
  pub last_price : F
  pub price_change_percent : Option F
  pub volume_24h_base : Option F
  pub volume_24h_quote : Option F

pub record KlineEvent (F : Type 0) : Type 0 where
  pub base : DomainEvent
  pub open base use *
  pub interval : String
  pub open_time : ℕ
  pub close_time : ℕ
  pub open_price : F
  pub high : F
  pub low : F
  pub close : F
  pub base_volume : F
  pub quote_volume : F
  pub taker_buy_base_volume : F
  pub taker_buy_quote_volume : F
  pub number_of_trades : Option ℕ
  pub is_closed : Bool

pub record BookTickerEvent (F : Type 0) : Type 0 where
  pub base : DomainEvent
  pub open base use *
  pub bid_price : F
  pub bid_qty : F
  pub ask_price : F
  pub ask_qty : F

pub record TradeEvent (F : Type 0) : Type 0 where
  pub base : DomainEvent
  pub open base use *
  pub trade_id : Option ℕ
  pub price : F
  pub quantity : F
  pub is_buyer_maker : Option Bool

pub record OiEvent (F : Type 0) : Type 0 where
  pub base : DomainEvent
  pub open base use *
  pub open_interest : F
  pub open_interest_value_usd : Option F
  pub provider_timestamp : Option ℕ

pub record EconomicEvent : Type 0 where
  pub base : DomainEvent
  pub open base use *
  pub event_id : String
  pub event_name : String
  pub currency : Option String
  pub scheduled_timestamp : ℕ
  pub actual_timestamp : Option ℕ
  pub importance : Option String
  pub forecast : Option String
  pub previous : Option String
  pub actual : Option String
  pub data_source : Option String
  pub status : String

-- The `payload` of this class and the next, which nothing reads, is left out.
pub record SignalEvent (F : Type 0) : Type 0 where
  pub base : DomainEvent
  pub open base use *
  pub signal_id : String
  pub state : SignalState
  pub quant_score : Option F

pub record ExecutionEvent (F : Type 0) : Type 0 where
  pub base : DomainEvent
  pub open base use *
  pub signal_id : String
  pub action : String
  pub price : Option F

pub record SystemEvent (F : Type 0) : Type 0 where
  pub base : DomainEvent
  pub open base use *
  pub level : String
  pub component : String
  pub message : String
  pub metric_name : Option String
  pub metric_value : Option F

-- What the buffer holds.
pub data Event (F : Type 0) : Type 0 where
  ticker : MarketTickerEvent F → Event F
  kline : KlineEvent F → Event F
  book : BookTickerEvent F → Event F
  trade : TradeEvent F → Event F
  oi : OiEvent F → Event F
  economic : EconomicEvent → Event F
  signal : SignalEvent F → Event F
  execution : ExecutionEvent F → Event F
  system : SystemEvent F → Event F

abbrev pub base_of : {F : Type 0} → Event F → DomainEvent
base_of (ticker e) = e.base
base_of (kline e) = e.base
base_of (book e) = e.base
base_of (trade e) = e.base
base_of (oi e) = e.base
base_of (economic e) = e.base
base_of (signal e) = e.base
base_of (execution e) = e.base
base_of (system e) = e.base

module _ {F : Type 0} ⦃f : Float F⦄ where
  unfoldable pub kline_net_taker_delta : KlineEvent F → F
  kline_net_taker_delta k =
      if f.eq k.base_volume nought
      then nought
      else (lit 2 0 ⊗ k.taker_buy_base_volume ⊖ k.base_volume) ⊘ k.base_volume

  unfoldable pub book_spread_percent : BookTickerEvent F → Option F
  book_spread_percent b =
      if b.bid_price ≤? nought || b.ask_price ≤? nought
      then none
      else (let mid = (b.bid_price ⊕ b.ask_price) ⊘ lit 2 0 in
          if f.eq mid nought then none else some ((b.ask_price ⊖ b.bid_price) ⊘ mid ⊗ lit 100 0))

-- An event is stale exactly when it was ingested more than two seconds after its exchange time: a
-- clock that runs behind the exchange's never makes it stale.
pub is_stale-eq-ltb :
    (e : DomainEvent) → is_stale e ≡ ltb (e.exchange_timestamp + 2000) e.local_ingest_timestamp
unfolding is_stale ingest_latency_ms
is_stale-eq-ltb e = ground arith
