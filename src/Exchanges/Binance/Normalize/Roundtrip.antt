-- ===== src/Exchanges/Binance/Normalize/Roundtrip.antt =====
-- The messages that Binance sends for an event, and what becomes of them.
use binance_momentu.Prelude.{
  ℕ, zero, suc, ◌<◌, ◌≡◌, refl, ap, sym, ◌∙◌, Bool, true, false, not, ◌&&◌, if◌then◌else◌, Option,
  none, some, String, str_eq, ok, ◌>>=◌, arith,
}
use binance_momentu.Float.{Float}
use binance_momentu.Domain.Enums.{binance, EventType}
use binance_momentu.Domain.Events.{
  Event, ticker, kline, book, DomainEvent, MarketTickerEvent, KlineEvent, BookTickerEvent,
}
use binance_momentu.Domain.Priority.{classify_priority}
use binance_momentu.Exchanges.Payload.{
  Json, flag, integer, text, object, Fields, end, field, Reader, find, required, as_object,
  float_at, int_at, float_if_there, int_if_there, int_or, base_at, truthy,
}
use binance_momentu.Exchanges.Binance.Normalize.{
  has_key, unwrap_combined_stream, parse_mini_ticker, parse_kline, book_time, parse_book_ticker,
  normalize_payload, normalize_message,
}

-- How a float is written, and that reading it and an integer gives them back.
pub record IsWriter {F : Type 0} (r : Reader F) (write : F → Json F) : Type 0 where
  pub float_back : (x : F) → r.to_float (write x) ≡ ok x
  pub int_back : (n : ℕ) → r.to_int (integer n) ≡ ok n

module _ {F : Type 0} (write : F → Json F) where
  -- A field that may be left out.
  abbrev pub optional : {A : Type 0} → (A → Json F) → String → Option A → Fields F → Fields F
  optional w key o fs = elim o [ none ↦ fs | some x ↦ field key (w x) fs ]

  -- A ticker is of the kind `24hrMiniTicker` or `24hrTicker`.
  abbrev pub ticker_kind : Bool → String
  ticker_kind true = "24hrMiniTicker"
  ticker_kind false = "24hrTicker"

  abbrev pub ticker_payload : Bool → MarketTickerEvent F → Fields F
  ticker_payload mini e = field "e" (text (ticker_kind mini)) (
      field "E" (integer e.exchange_timestamp) (
        field "s" (text e.symbol) (
          field "c" (write e.last_price) (
            optional write "P" e.price_change_percent
              (optional write "v" e.volume_24h_base (optional write "q" e.volume_24h_quote end))))))

  abbrev pub kline_fields : KlineEvent F → Fields F
  kline_fields e = field "t" (integer e.open_time) (
      field "T" (integer e.close_time) (
        field "i" (text e.interval) (
          field "o" (write e.open_price) (
            field "h" (write e.high) (
              field "l" (write e.low) (
                field "c" (write e.close) (
                  field "v" (write e.base_volume) (
                    field "q" (write e.quote_volume) (
                      field "V" (write e.taker_buy_base_volume) (
                        field "Q" (write e.taker_buy_quote_volume) (
                          field "x" (flag e.is_closed)
                            (optional integer "n" e.number_of_trades end))))))))))))

  abbrev pub kline_payload : KlineEvent F → Fields F
  kline_payload e = field "e" (text "kline") (
      field "E" (integer e.exchange_timestamp)
        (field "s" (text e.symbol) (field "k" (object (kline_fields e)) end)))

  abbrev pub book_payload : BookTickerEvent F → Fields F
  book_payload e = field "e" (text "bookTicker") (
      field "E" (integer e.exchange_timestamp) (
        field "s" (text e.symbol) (
          field "b" (write e.bid_price) (
            field "B" (write e.bid_qty)
              (field "a" (write e.ask_price) (field "A" (write e.ask_qty) end))))))

  -- In the envelope of the combined streams.
  abbrev pub in_stream : String → Fields F → Fields F
  in_stream name payload = field "stream" (text name) (field "data" (object payload) end)

  -- As it comes over a plain connection, or over one of combined streams.
  abbrev pub sent_over : Option String → Fields F → Fields F
  sent_over none payload = payload
  sent_over (some name) payload = in_stream name payload

  abbrev pub payload_of : Bool → Event F → Fields F
  payload_of mini (ticker e) = ticker_payload mini e
  payload_of mini (kline e) = kline_payload e
  payload_of mini (book e) = book_payload e
  payload_of mini _ = end

-- The base of an event of Binance that is made at the time `later`, with its class among the
-- candidates.
abbrev pub base_of_message : (String → Bool) → ℕ → EventType → Bool → DomainEvent → DomainEvent
base_of_message fn later t is_closed e =
    base_at binance t (classify_priority t (not (str_eq e.symbol "") && fn e.symbol) is_closed)
      e.symbol e.exchange_timestamp later

-- The event is a ticker, a kline or a book ticker with the base that its message determines.
abbrev pub IsMessage : {F : Type 0} → (String → Bool) → ℕ → Event F → Type 0
IsMessage fn later (ticker e) =
    e.base ≡ base_of_message fn later EventType.market_ticker false e.base
IsMessage fn later (kline e) = e.base ≡ base_of_message fn later EventType.kline e.is_closed e.base
IsMessage fn later (book e) =
    (e.base ≡ base_of_message fn later EventType.book_ticker false e.base)
    × (0 < e.exchange_timestamp)
IsMessage fn later _ = false ≡ true

module _ {F : Type 0} ⦃f : Float F⦄ (r : Reader F) (write : F → Json F)
    (laws : IsWriter r write) where
  find-optional_ne :
      {A : Type 0} (w : A → Json F) (key k : String) (o : Option A) (fs : Fields F)
      → str_eq k key ≡ false
      → find key (optional write w k o fs) ≡ find key fs
  unfolding find
  find-optional_ne w key k none fs e = refl
  find-optional_ne w key k (some x) fs e = ground arith

  float_if_there-optional :
      (key : String) (o : Option F) (fs : Fields F)
      → str_eq key key ≡ true
      → find key fs ≡ none
      → float_if_there r key (optional write write key o fs) ≡ ok o
  unfolding float_if_there find
  float_if_there-optional key none fs s e = rw (float_if_there, e) refl
  float_if_there-optional key (some x) fs s e = rw (float_if_there, s, laws.float_back x) refl

  change_there :
      (mini : Bool) (e : MarketTickerEvent F)
      → float_if_there r "P" (ticker_payload write mini e) ≡ ok e.price_change_percent
  unfolding float_if_there find
  change_there mini e =
      let q = optional write write "q" e.volume_24h_quote end in
      float_if_there-optional "P" e.price_change_percent
        (optional write write "v" e.volume_24h_base q) refl
        (find-optional_ne write "P" "v" e.volume_24h_base q refl
          ∙ find-optional_ne write "P" "q" e.volume_24h_quote end refl)

  base_volume_there :
      (mini : Bool) (e : MarketTickerEvent F)
      → float_if_there r "v" (ticker_payload write mini e) ≡ ok e.volume_24h_base
  unfolding float_if_there find
  base_volume_there mini e =
      let q = optional write write "q" e.volume_24h_quote end in
      ap
        (λ (o : Option (Json F)). elim o [
          | none ↦ ok none
          | some v ↦ r.to_float v >>= λ x. ok (some x)
        ])
        (find-optional_ne write "v" "P" e.price_change_percent
          (optional write write "v" e.volume_24h_base q) refl)
      ∙ float_if_there-optional "v" e.volume_24h_base q refl
          (find-optional_ne write "v" "q" e.volume_24h_quote end refl)

  volume_there :
      (mini : Bool) (e : MarketTickerEvent F)
      → float_if_there r "q" (ticker_payload write mini e) ≡ ok e.volume_24h_quote
  unfolding float_if_there find
  volume_there mini e =
      let q = optional write write "q" e.volume_24h_quote end in
      ap
        (λ (o : Option (Json F)). elim o [
          | none ↦ ok none
          | some v ↦ r.to_float v >>= λ x. ok (some x)
        ])
        (find-optional_ne write "q" "P" e.price_change_percent
            (optional write write "v" e.volume_24h_base q) refl
          ∙ find-optional_ne write "q" "v" e.volume_24h_base q refl)
      ∙ float_if_there-optional "q" e.volume_24h_quote end refl refl

  ticker-back :
      (mini : Bool) (fn : String → Bool) (now later : ℕ) (e : MarketTickerEvent F)
      → normalize_payload r now later fn (ticker_payload write mini e)
        ≡ ok (
            some (
              ticker (record e {
                base =
                    base_at binance EventType.market_ticker
                      (classify_priority EventType.market_ticker
                        (not (str_eq e.symbol "") && fn e.symbol)
                        false)
                      e.symbol
                      e.exchange_timestamp
                      later;
              })))
  unfolding normalize_payload parse_mini_ticker find float_at int_or
  ticker-back true fn now later e =
      simp
        (
          laws.float_back,
          laws.int_back,
          change_there true e,
          base_volume_there true e,
          volume_there true e,
        )
        refl
  ticker-back false fn now later e =
      simp
        (
          laws.float_back,
          laws.int_back,
          change_there false e,
          base_volume_there false e,
          volume_there false e,
        )
        refl

  int_if_there-optional :
      (o : Option ℕ) → int_if_there r "n" (optional write integer "n" o end) ≡ ok o
  unfolding int_if_there find
  int_if_there-optional none = refl
  int_if_there-optional (some n) = rw (laws.int_back n) refl

  trades_there :
      (e : KlineEvent F) → int_if_there r "n" (kline_fields write e) ≡ ok e.number_of_trades
  unfolding int_if_there find
  trades_there e = int_if_there-optional e.number_of_trades

  kline-back :
      (fn : String → Bool) (now later : ℕ) (e : KlineEvent F)
      → normalize_payload r now later fn (kline_payload write e)
        ≡ ok (
            some (
              kline (record e {
                base =
                    base_at binance EventType.kline
                      (classify_priority EventType.kline
                        (not (str_eq e.symbol "") && fn e.symbol)
                        e.is_closed)
                      e.symbol
                      e.exchange_timestamp
                      later;
              })))
  unfolding normalize_payload parse_kline find float_at int_at int_or
  kline-back fn now later e = simp (laws.float_back, laws.int_back, trades_there e) refl

  positive : (n : ℕ) → 0 < n → truthy {F = F} (integer n) ≡ true
  positive zero p = absurd (omega arith)
  positive (suc n) p = refl

  book-back :
      (fn : String → Bool) (now later : ℕ) (e : BookTickerEvent F)
      → (0 < e.exchange_timestamp)
      → normalize_payload r now later fn (book_payload write e)
        ≡ ok (
            some (
              book (record e {
                base =
                    base_at binance EventType.book_ticker
                      (classify_priority EventType.book_ticker
                        (not (str_eq e.symbol "") && fn e.symbol)
                        false)
                      e.symbol
                      e.exchange_timestamp
                      later;
              })))
  unfolding normalize_payload parse_book_ticker book_time find float_at
  book-back fn now later e p =
      simp (laws.float_back, laws.int_back, positive e.exchange_timestamp p) refl

  payload-back :
      (mini : Bool) (fn : String → Bool) (now later : ℕ) (e : Event F)
      → IsMessage fn later e
      → normalize_payload r now later fn (payload_of write mini e) ≡ ok (some e)
  payload-back mini fn now later (ticker e) h =
      ticker-back mini fn now later e ∙ ap (λ b. ok (some (ticker (record e { base = b })))) (sym h)
  payload-back mini fn now later (kline e) h =
      kline-back fn now later e ∙ ap (λ b. ok (some (kline (record e { base = b })))) (sym h)
  payload-back mini fn now later (book e) h =
      book-back fn now later e h.1 ∙ ap (λ b. ok (some (book (record e { base = b })))) (sym h.0)
  payload-back mini fn now later _ h = absurd (ground arith)

  no_data :
      (mini : Bool) (e : MarketTickerEvent F) → find "data" (ticker_payload write mini e) ≡ none
  unfolding find
  no_data mini e =
      let q = optional write write "q" e.volume_24h_quote end in
      find-optional_ne write "data" "P" e.price_change_percent
        (optional write write "v" e.volume_24h_base q) refl
      ∙ find-optional_ne write "data" "v" e.volume_24h_base q refl
      ∙ find-optional_ne write "data" "q" e.volume_24h_quote end refl

  unwrapped :
      (mini : Bool) (stream : Option String) (e : Event F)
      → unwrap_combined_stream (sent_over write stream (payload_of write mini e))
        ≡ ok (payload_of write mini e)
  unfolding unwrap_combined_stream find
  unwrapped mini (some name) e = refl
  unwrapped mini none (ticker e) =
      let fs = ticker_payload write mini e in
      ap
        (λ (o : Option (Json F)).
          if elim o as (λ _. Bool) [ none ↦ false | some v ↦ true ] && has_key "stream" fs
          then required "data" fs >>= as_object
          else ok fs)
        (no_data mini e)
  unwrapped mini none (kline e) = refl
  unwrapped mini none (book e) = refl
  unwrapped mini none _ = refl

  -- If reading gives back what writing wrote, then from the message that Binance sends for a
  -- ticker, in its short or its long form, a kline or a book ticker, over a plain connection or in
  -- the envelope of the combined streams, `normalize_message` makes just that event, with all its
  -- numbers, its optional ones, its symbol and the priority of its kind: nothing is lost or mixed
  -- up. A book ticker's time must not be zero.
  pub normalize_message-payload_of :
      (mini : Bool) (fn : String → Bool) (now later : ℕ) (stream : Option String) (e : Event F)
      → IsMessage fn later e
      → normalize_message r now later fn (sent_over write stream (payload_of write mini e))
        ≡ ok (some e)
  unfolding normalize_message
  normalize_message-payload_of mini fn now later stream e h =
      ap (λ m. m >>= normalize_payload r now later fn) (unwrapped mini stream e)
      ∙ payload-back mini fn now later e h
