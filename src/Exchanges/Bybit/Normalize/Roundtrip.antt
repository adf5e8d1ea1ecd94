-- ===== src/Exchanges/Bybit/Normalize/Roundtrip.antt =====
-- What becomes of the messages that Bybit sends.
use Prim.Native.String.{◌++◌ as concat}
use binance_momentu.Prelude.Texts.{
  concat_filled, starts_with-append_longer, starts_with-append_known,
}
use binance_momentu.Prelude.{
  ℕ, ◌≡◌, ◌≢◌, refl, Bool, false, not, ◌&&◌, Option, none, some, String, str_eq, ok, Result, ◌>>=◌,
  ◌∙◌,
}
use binance_momentu.Float.{Float}
use binance_momentu.Exchanges.Payload.{
  Json, null, text, Fields, Reader, find, item, float_at, float_or, float_if_present, present,
  not_null, with_get, int_at, int_or, filled,
}
use binance_momentu.Exchanges.Binance.Normalize.Roundtrip.{IsWriter}
use binance_momentu.Exchanges.Bybit.Normalize.{
  parse_kline, parse_ticker, parse_orderbook_l1, normalize_topic, normalize_message,
}
use binance_momentu.Exchanges.Bybit.Normalize.Published.{
  Published, minute, quote, best, symbol_of, has_dot, nullable, quote_fields, message_of, event_of,
  topic_symbol-concat,
}

module _ {F : Type 0} ⦃f : Float F⦄ (r : Reader F) (write : F → Json F) (laws : IsWriter r write)
    (no_null : (x : F) → write x ≢ null) where
  written : (v : Json F) → v ≢ null → not_null v ≡ some v
  written null h = absurd (h refl)
  written v h = refl

  if_written :
      (v : Json F) (x : F)
      → v ≢ null
      → r.to_float v ≡ ok x
      → elim (not_null v) as (λ _. Result (Option F)) [
        | none ↦ ok none
        | some w ↦ r.to_float w >>= λ y. ok (some y)
      ]
        ≡ ok (some x)
  if_written null x h e = absurd (h refl)
  if_written v x h e = rw e refl

  if_present :
      (key : String) (o : Option F) (fs : Fields F)
      → find key fs ≡ some (nullable write o)
      → float_if_present r key fs ≡ ok o
  unfolding float_if_present present
  if_present key none fs e = rw (float_if_present, present, e) refl
  if_present key (some x) fs e =
      rw (float_if_present, present, e) (if_written (write x) x (no_null x) (laws.float_back x))

  by_topic :
      (fn : String → Bool) (now later : ℕ) (topic : String) (raw : Fields F)
      → find "topic" raw ≡ some (text topic)
      → str_eq topic "" ≡ false
      → normalize_message r now later fn raw ≡ normalize_topic r now later fn topic raw
  unfolding normalize_message filled
  by_topic fn now later topic raw e there = rw (normalize_message, filled, e) (rw there refl)

  minute-back :
      (fn : String → Bool) (now later : ℕ) (s : String) (ts start finish : ℕ)
      (open_price high low close volume turnover : F) (confirm : Bool)
      → has_dot s ≡ false
      → let p = minute s ts start finish open_price high low close volume turnover confirm in
        normalize_topic r now later fn (concat "kline.1." s) (message_of write p)
        ≡ ok (some (event_of later (not (str_eq s "") && fn s) p))
  unfolding normalize_topic parse_kline float_at int_at int_or float_or find filled item
  minute-back fn now later s ts start finish open_price high low close volume turnover confirm h =
      let symbol = topic_symbol-concat "kline.1" s h in
      let starts = starts_with-append_longer "kline." "1." s "kline." refl in
      rw (normalize_topic, starts, symbol) (simp (laws.float_back, laws.int_back) refl)

  quote-back :
      (fn : String → Bool) (now later : ℕ) (s : String) (ts : ℕ) (last_price : F)
      (change volume turnover : Option F)
      → has_dot s ≡ false
      → let p = quote s ts last_price change volume turnover in
        normalize_topic r now later fn (concat "tickers." s) (message_of write p)
        ≡ ok (some (event_of later (not (str_eq s "") && fn s) p))
  unfolding normalize_topic parse_ticker int_or find filled present
  quote-back fn now later s ts last_price change volume turnover h =
      let symbol = topic_symbol-concat "tickers" s h in
      let other = starts_with-append_longer "ticker" "s." s "kline." refl in
      let starts = starts_with-append_known "tickers." s "tickers." refl in
      let there = written (write last_price) (no_null last_price) in
      let d = quote_fields write s last_price change volume turnover in
      rw (normalize_topic, other, starts, laws.int_back ts)
        (rw (◌>>=◌, with_get, present, there)
          (rw
            (
              symbol,
              laws.float_back last_price,
              if_present "price24hPcnt" change d refl,
              if_present "volume24h" volume d refl,
              if_present "turnover24h" turnover d refl,
            )
            refl))

  best-back :
      (fn : String → Bool) (now later : ℕ) (s : String) (ts : ℕ) (bid bid_qty ask ask_qty : F)
      → has_dot s ≡ false
      → let p = best s ts bid bid_qty ask ask_qty in
        normalize_topic r now later fn (concat "orderbook.1." s) (message_of write p)
        ≡ ok (some (event_of later (not (str_eq s "") && fn s) p))
  unfolding normalize_topic parse_orderbook_l1 int_or find filled item
  best-back fn now later s ts bid bid_qty ask ask_qty h =
      let symbol = topic_symbol-concat "orderbook.1" s h in
      let not_kline = starts_with-append_longer "orderb" "ook.1." s "kline." refl in
      let not_ticker = starts_with-append_longer "orderboo" "k.1." s "tickers." refl in
      let starts = starts_with-append_known "orderbook.1." s "orderbook.1." refl in
      rw (normalize_topic, not_kline, not_ticker, starts, symbol)
        (simp (laws.float_back, laws.int_back) refl)

  -- If reading gives back what writing wrote, and nothing is written as `null`, then from the
  -- message that Bybit sends for a minute, a quote or the best prices of a symbol without a dot,
  -- `normalize_message` makes just the event that stands for it: all its numbers in their places,
  -- the change in percent, what is `null` left out, no taker volumes, and the priority of its kind.
  pub normalize_message-message_of :
      (fn : String → Bool) (now later : ℕ) (p : Published F)
      → has_dot (symbol_of p) ≡ false
      → normalize_message r now later fn (message_of write p)
        ≡ ok (some (event_of later (not (str_eq (symbol_of p) "") && fn (symbol_of p)) p))
  unfolding find
  normalize_message-message_of fn now later
        (minute s ts start finish open_price high low close volume turnover confirm) h =
      by_topic fn now later (concat "kline.1." s) _ refl (concat_filled "kline.1." s refl)
      ∙ minute-back fn now later s ts start finish open_price high low close volume turnover confirm
          h
  normalize_message-message_of fn now later (quote s ts last_price change volume turnover) h =
      by_topic fn now later (concat "tickers." s) _ refl (concat_filled "tickers." s refl)
      ∙ quote-back fn now later s ts last_price change volume turnover h
  normalize_message-message_of fn now later (best s ts bid bid_qty ask ask_qty) h =
      by_topic fn now later (concat "orderbook.1." s) _ refl (concat_filled "orderbook.1." s refl)
      ∙ best-back fn now later s ts bid bid_qty ask ask_qty h
