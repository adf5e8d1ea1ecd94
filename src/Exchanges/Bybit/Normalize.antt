-- ===== src/Exchanges/Bybit/Normalize.antt =====
-- app/exchanges/bybit/normalize.py: from the decoded messages of Bybit's public streams to events.
-- A message is an object. `now` is the time that stands in for a missing one, `later` the time at
-- which the event is made.
pub mod Published
pub mod Roundtrip
use Prim.Native.Char.{code}
use Prim.Native.String
use binance_momentu.Prelude.{
  ℕ, Bool, true, false, not, ◌&&◌, if◌then◌else◌, ◌==◌, Option, none, some, String, str_eq, Result,
  Error, ok, raise, ◌>>=◌,
}
use package.text.Mathlib.Text.{starts_with}
use binance_momentu.Float.{Float, ◌⊗◌, lit, nought}
use binance_momentu.Domain.Enums.{bybit, EventType}
use binance_momentu.Domain.Events.{
  Event, ticker, kline, book, MarketTickerEvent, KlineEvent, BookTickerEvent,
}
use binance_momentu.Domain.Priority.{classify_priority}
use binance_momentu.Exchanges.Payload.{
  Json, text, Fields, Reader, find, required, as_text, with_get, item, float_at, int_at, float_or,
  float_if_present, present, int_or, base_at, truthy, filled,
}

-- What is left of `rest` after its last dot, or `part` if it has none.
unfoldable pub last_part : (part rest : String) → String
last_part part String.[] = part
last_part part (String.◌∷◌ c rest) = last_part (if code c == b'.' then rest else part) rest

unfoldable pub topic_symbol : String → String
unfolding last_part
topic_symbol topic = last_part topic topic

module _ {F : Type 0} where
  -- `message.get("topic", "")`, of which the parsers call `startswith`.
  abbrev pub topic_of : Fields F → Result String
  topic_of message = elim (find "topic" message) [
    | none ↦ ok ""
    | some v ↦ elim v [ text t ↦ ok t | _ ↦ raise Error.attribute_error ]
  ]

  -- `data.get("s", _topic_symbol(topic))`.
  abbrev pub book_symbol : String → Fields F → Result String
  book_symbol topic d = elim (find "s" d) [ none ↦ ok (topic_symbol topic) | some v ↦ as_text v ]

module _ {F : Type 0} ⦃f : Float F⦄ (r : Reader F) (now later : ℕ) where
  -- The minute in the first item of the data.
  unfoldable pub kline_of : (topic : String) (message d : Fields F) → Bool → Result (KlineEvent F)
  kline_of topic message d is_candidate = do
    let is_closed : Bool = elim (find "confirm" d) [ none ↦ false | some v ↦ truthy v ]
    timestamp ← int_or r now "ts" message
    open_time ← int_at r "start" d
    close_time ← int_at r "end" d
    open_price ← float_at r "open" d
    high ← float_at r "high" d
    low ← float_at r "low" d
    close ← float_at r "close" d
    base_volume ← float_at r "volume" d
    quote_volume ← float_or r nought "turnover" d
    ok (record {
      base =
          base_at bybit EventType.kline (classify_priority EventType.kline is_candidate is_closed)
            (topic_symbol topic) timestamp later;
      interval = "1m";
      open_time = open_time;
      close_time = close_time;
      open_price = open_price;
      high = high;
      low = low;
      close = close;
      base_volume = base_volume;
      quote_volume = quote_volume;
      taker_buy_base_volume = nought;
      taker_buy_quote_volume = nought;
      number_of_trades = none;
      is_closed = is_closed;
    })

  unfoldable pub parse_kline : Fields F → Bool → Result (Option (KlineEvent F))
  unfolding kline_of
  parse_kline message is_candidate = do
    topic ← topic_of message
    if starts_with topic "kline."
        then elim (filled "data" message) [
          | none ↦ ok none
          | some data_list ↦ do
            first ← item 0 data_list
            d ← with_get first
            e ← kline_of topic message d is_candidate
            ok (some e)
        ]
        else ok none

  -- The ticker with that last price.
  unfoldable pub ticker_of :
      (topic : String) → ℕ → Json F → Fields F → Bool → Result (MarketTickerEvent F)
  ticker_of topic timestamp last d is_candidate = do
    last_price ← r.to_float last
    change ← float_if_present r "price24hPcnt" d
    volume_24h_base ← float_if_present r "volume24h" d
    volume_24h_quote ← float_if_present r "turnover24h" d
    ok (record {
      base =
          base_at bybit EventType.market_ticker
            (classify_priority EventType.market_ticker is_candidate false) (topic_symbol topic)
            timestamp later;
      last_price = last_price;
      price_change_percent = elim change [ none ↦ none | some x ↦ some (x ⊗ lit 100 0) ];
      volume_24h_base = volume_24h_base;
      volume_24h_quote = volume_24h_quote;
    })

  unfoldable pub parse_ticker : Fields F → Bool → Result (Option (MarketTickerEvent F))
  unfolding ticker_of
  parse_ticker message is_candidate = do
    topic ← topic_of message
    if starts_with topic "tickers."
        then elim (filled "data" message) [
          | none ↦ ok none
          | some inner ↦ do
            timestamp ← int_or r now "ts" message
            d ← with_get inner
            elim (present "lastPrice" d) [
              | none ↦ ok none
              | some last ↦ do e ← ticker_of topic timestamp last d is_candidate; ok (some e)
            ]
        ]
        else ok none

  -- The best prices of both sides.
  unfoldable pub book_of :
      (topic : String) (message d : Fields F) (bids asks : Json F)
      → Bool
      → Result (BookTickerEvent F)
  book_of topic message d bids asks is_candidate = do
    timestamp ← int_or r now "ts" message
    best_bid ← item 0 bids
    best_ask ← item 0 asks
    symbol ← book_symbol topic d
    bid_price ← item 0 best_bid >>= r.to_float
    bid_qty ← item 1 best_bid >>= r.to_float
    ask_price ← item 0 best_ask >>= r.to_float
    ask_qty ← item 1 best_ask >>= r.to_float
    ok (record {
      base =
          base_at bybit EventType.book_ticker
            (classify_priority EventType.book_ticker is_candidate false) symbol timestamp later;
      bid_price = bid_price;
      bid_qty = bid_qty;
      ask_price = ask_price;
      ask_qty = ask_qty;
    })

  unfoldable pub parse_orderbook_l1 : Fields F → Bool → Result (Option (BookTickerEvent F))
  unfolding book_of
  parse_orderbook_l1 message is_candidate = do
    topic ← topic_of message
    if starts_with topic "orderbook.1."
        then elim (filled "data" message) [
          | none ↦ ok none
          | some inner ↦ do
            d ← with_get inner
            elim (filled "b" d) [
              | none ↦ ok none
              | some bids ↦ elim (filled "a" d) [
                | none ↦ ok none
                | some asks ↦ do e ← book_of topic message d bids asks is_candidate; ok (some e)
              ]
            ]
        ]
        else ok none

  abbrev pub as_event : {A : Type 0} → (A → Event F) → Result (Option A) → Result (Option (Event F))
  as_event g m = m >>= λ o. ok (elim o [ none ↦ none | some a ↦ some (g a) ])

  -- By the topic of the message.
  unfoldable pub normalize_topic :
      (String → Bool) → (topic : String) → Fields F → Result (Option (Event F))
  normalize_topic is_candidate_fn topic raw =
      let symbol = topic_symbol topic in
      let is_candidate = not (str_eq symbol "") && is_candidate_fn symbol in
      if starts_with topic "kline."
      then as_event kline (parse_kline raw is_candidate)
      else if starts_with topic "tickers."
      then as_event ticker (parse_ticker raw is_candidate)
      else if starts_with topic "orderbook.1."
      then as_event book (parse_orderbook_l1 raw is_candidate)
      else ok none

  unfoldable pub normalize_message : (String → Bool) → Fields F → Result (Option (Event F))
  unfolding normalize_topic
  normalize_message is_candidate_fn raw = elim (filled "topic" raw) [
    | none ↦ ok none
    | some v ↦ do
      topic ← elim v [ text t ↦ ok t | _ ↦ raise Error.attribute_error ]
      normalize_topic is_candidate_fn topic raw
  ]
