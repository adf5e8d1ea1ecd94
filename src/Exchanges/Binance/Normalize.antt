-- ===== src/Exchanges/Binance/Normalize.antt =====
-- app/exchanges/binance/normalize.py: from the decoded messages of Binance's streams to events. A
-- message and its payload are objects. `now` is the time that stands in for a missing one, `later`
-- the time at which the event is made. A symbol that is no text is no candidate.
pub mod Roundtrip
use binance_momentu.Prelude.{
  ℕ, Bool, true, false, not, ◌&&◌, ◌||◌, if◌then◌else◌, Option, none, some, String, str_eq, Result,
  Error, ok, raise, ◌>>=◌,
}
use binance_momentu.Float.{Float}
use binance_momentu.Domain.Enums.{binance, EventType}
use binance_momentu.Domain.Events.{
  Event, ticker, kline, book, MarketTickerEvent, KlineEvent, BookTickerEvent,
}
use binance_momentu.Domain.Priority.{classify_priority}
use binance_momentu.Exchanges.Payload.{
  Json, text, Fields, Reader, find, required, is_text, as_text, as_object, float_at, int_at,
  float_if_there, int_if_there, int_or, base_at, truthy,
}

module _ {F : Type 0} where
  abbrev pub has_key : String → Fields F → Bool
  has_key key fs = elim (find key fs) [ none ↦ false | some v ↦ true ]

  -- `data.get(key) == s`.
  abbrev pub key_is : String → String → Fields F → Bool
  key_is key s fs = elim (find key fs) [ none ↦ false | some v ↦ is_text s v ]

  -- The payload, and that it is wrapped in `data` if the message names its stream.
  unfoldable pub unwrap_combined_stream : Fields F → Result (Fields F)
  unwrap_combined_stream message =
      if has_key "data" message && has_key "stream" message
      then required "data" message >>= as_object
      else ok message

  abbrev pub is_ticker : Fields F → Bool
  is_ticker payload = key_is "e" "24hrMiniTicker" payload || key_is "e" "24hrTicker" payload

  -- Whether the symbol of the payload is a candidate.
  abbrev pub candidate_of : (String → Bool) → Fields F → Bool
  candidate_of is_candidate_fn payload = elim (find "s" payload) [
    | none ↦ false
    | some v ↦ elim v [ text s ↦ not (str_eq s "") && is_candidate_fn s | _ ↦ false ]
  ]

module _ {F : Type 0} ⦃f : Float F⦄ (r : Reader F) (now later : ℕ) where
  unfoldable pub parse_mini_ticker : Fields F → Bool → Result (Option (MarketTickerEvent F))
  parse_mini_ticker payload is_candidate =
      if is_ticker payload
      then (do
        named ← required "s" payload
        timestamp ← int_or r now "E" payload
        last_price ← float_at r "c" payload
        price_change_percent ← float_if_there r "P" payload
        volume_24h_base ← float_if_there r "v" payload
        volume_24h_quote ← float_if_there r "q" payload
        symbol ← as_text named
        ok (
            some (record {
              base =
                  base_at binance EventType.market_ticker
                    (classify_priority EventType.market_ticker is_candidate false) symbol timestamp
                    later;
              last_price = last_price;
              price_change_percent = price_change_percent;
              volume_24h_base = volume_24h_base;
              volume_24h_quote = volume_24h_quote;
            })))
      else ok none

  unfoldable pub parse_kline : Fields F → Bool → Result (Option (KlineEvent F))
  parse_kline payload is_candidate =
      if key_is "e" "kline" payload
      then (do
        inner ← required "k" payload
        k ← as_object inner
        let is_closed : Bool = elim (find "x" k) [ none ↦ false | some v ↦ truthy v ]
        timestamp ← int_or r now "E" payload
        named ← required "s" payload
        open_time ← int_at r "t" k
        close_time ← int_at r "T" k
        open_price ← float_at r "o" k
        high ← float_at r "h" k
        low ← float_at r "l" k
        close ← float_at r "c" k
        base_volume ← float_at r "v" k
        quote_volume ← float_at r "q" k
        taker_buy_base_volume ← float_at r "V" k
        taker_buy_quote_volume ← float_at r "Q" k
        number_of_trades ← int_if_there r "n" k
        symbol ← as_text named
        interval ← elim (find "i" k) [ none ↦ ok "1m" | some v ↦ as_text v ]
        ok (
            some (record {
              base =
                  base_at binance EventType.kline
                    (classify_priority EventType.kline is_candidate is_closed) symbol timestamp
                    later;
              interval = interval;
              open_time = open_time;
              close_time = close_time;
              open_price = open_price;
              high = high;
              low = low;
              close = close;
              base_volume = base_volume;
              quote_volume = quote_volume;
              taker_buy_base_volume = taker_buy_base_volume;
              taker_buy_quote_volume = taker_buy_quote_volume;
              number_of_trades = number_of_trades;
              is_closed = is_closed;
            })))
      else ok none

  -- `data.get("E") or data.get("T") or now_ms()`.
  unfoldable pub book_time : Fields F → Result ℕ
  book_time payload = elim (find "E" payload) [
    | none ↦ trade_time
    | some v ↦ if truthy v then r.to_int v else trade_time
  ]
    where
      trade_time : Result ℕ
      trade_time = elim (find "T" payload) [
        | none ↦ ok now
        | some v ↦ if truthy v then r.to_int v else ok now
      ]

  unfoldable pub parse_book_ticker : Fields F → Bool → Result (Option (BookTickerEvent F))
  parse_book_ticker payload is_candidate =
      if has_key "b" payload && (has_key "a" payload && has_key "s" payload)
      then (do
        timestamp ← book_time payload
        named ← required "s" payload
        bid_price ← float_at r "b" payload
        bid_qty ← float_at r "B" payload
        ask_price ← float_at r "a" payload
        ask_qty ← float_at r "A" payload
        symbol ← as_text named
        ok (
            some (record {
              base =
                  base_at binance EventType.book_ticker
                    (classify_priority EventType.book_ticker is_candidate false) symbol timestamp
                    later;
              bid_price = bid_price;
              bid_qty = bid_qty;
              ask_price = ask_price;
              ask_qty = ask_qty;
            })))
      else ok none

  abbrev pub as_event : {A : Type 0} → (A → Event F) → Result (Option A) → Result (Option (Event F))
  as_event g m = m >>= λ o. ok (elim o [ none ↦ none | some a ↦ some (g a) ])

  -- The payload of a message, by its kind.
  unfoldable pub normalize_payload : (String → Bool) → Fields F → Result (Option (Event F))
  normalize_payload is_candidate_fn payload =
      let is_candidate = candidate_of is_candidate_fn payload in
      if not (has_key "e" payload)
      then ok none
      else (if is_ticker payload
          then as_event ticker (parse_mini_ticker payload is_candidate)
          else (if key_is "e" "kline" payload
              then as_event kline (parse_kline payload is_candidate)
              else (if key_is "e" "bookTicker" payload
                  then as_event book (parse_book_ticker payload is_candidate)
                  else ok none)))

  unfoldable pub normalize_message : (String → Bool) → Fields F → Result (Option (Event F))
  normalize_message is_candidate_fn raw =
      unwrap_combined_stream raw >>= normalize_payload is_candidate_fn
