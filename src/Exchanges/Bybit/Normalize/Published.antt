-- ===== src/Exchanges/Bybit/Normalize/Published.antt =====
-- What Bybit publishes, the messages and the events for it, and the symbol of a topic.
use Prim.Native.Char.{code}
use Prim.Native.String.{◌++◌ as concat}
use package.text.Mathlib.TextLemmas.{nil-append, cons-append, append_assoc}
use binance_momentu.Prelude.{
  if◌then◌else◌, ℕ, ◌≡◌, refl, Bool, false, ◌||◌, ◌==◌, Option, none, some, String, ap, ◌∙◌, arith,
}
use binance_momentu.Float.{Float, ◌⊗◌, lit, nought}
use binance_momentu.Domain.Enums.{bybit, EventType}
use binance_momentu.Domain.Events.{Event, ticker, kline, book}
use binance_momentu.Domain.Priority.{classify_priority}
use binance_momentu.Exchanges.Payload.{
  Json, null, flag, integer, text, array, object, nil, cons, Fields, end, field, base_at,
}
use binance_momentu.Exchanges.Bybit.Normalize.{last_part, topic_symbol}

-- A minute, a quote of the last price, and the best prices of both sides.
pub data Published (F : Type 0) : Type 0 where
  minute :
      (symbol : String) (ts start finish : ℕ) (open_price high low close volume turnover : F)
      (confirm : Bool)
      → Published F
  quote :
      (symbol : String) (ts : ℕ) (last_price : F) (change volume turnover : Option F) → Published F
  best : (symbol : String) (ts : ℕ) (bid bid_qty ask ask_qty : F) → Published F

abbrev pub symbol_of : {F : Type 0} → Published F → String
symbol_of (minute s _ _ _ _ _ _ _ _ _ _) = s
symbol_of (quote s _ _ _ _ _) = s
symbol_of (best s _ _ _ _ _) = s

unfoldable pub has_dot : String → Bool
has_dot String.[] = false
has_dot (String.◌∷◌ c s) = code c == b'.' || has_dot s

module _ {F : Type 0} (write : F → Json F) where
  abbrev pub nullable : Option F → Json F
  nullable none = null
  nullable (some x) = write x

  abbrev pub envelope : String → ℕ → Json F → Fields F
  envelope topic ts inner =
      field "topic" (text topic) (field "ts" (integer ts) (field "data" inner end))

  abbrev pub side : F → F → Json F
  side price qty = array (cons (array (cons (write price) (cons (write qty) nil))) nil)

  abbrev pub quote_fields :
      (symbol : String) (last_price : F) (change volume turnover : Option F) → Fields F
  quote_fields symbol last_price change volume turnover = field "symbol" (text symbol) (
      field "price24hPcnt" (nullable change) (
        field "lastPrice" (write last_price)
          (field "turnover24h" (nullable turnover) (field "volume24h" (nullable volume) end))))

  -- The message that is sent for it.
  abbrev pub message_of : Published F → Fields F
  message_of (minute s ts start finish open_price high low close volume turnover confirm) =
      envelope (concat "kline.1." s) ts (
        array (
          cons
            (object (
              field "start" (integer start) (
                field "end" (integer finish) (
                  field "open" (write open_price) (
                    field "close" (write close) (
                      field "high" (write high) (
                        field "low" (write low) (
                          field "volume" (write volume) (
                            field "turnover" (write turnover)
                              (field "confirm" (flag confirm) end))))))))))
            nil))
  message_of (quote s ts last_price change volume turnover) =
      envelope (concat "tickers." s) ts (object (quote_fields s last_price change volume turnover))
  message_of (best s ts bid bid_qty ask ask_qty) = envelope (concat "orderbook.1." s) ts (
      object (field "s" (text s) (field "b" (side bid bid_qty) (field "a" (side ask ask_qty) end))))

module _ {F : Type 0} ⦃f : Float F⦄ where
  abbrev pub times_hundred : Option F → Option F
  times_hundred none = none
  times_hundred (some x) = some (x ⊗ lit 100 0)

  -- The event that stands for it, made at the time `later`, for a candidate or another symbol.
  abbrev pub event_of : ℕ → Bool → Published F → Event F
  event_of later c (minute s ts start finish open_price high low close volume turnover confirm) =
      kline (record {
        base =
            base_at bybit EventType.kline (classify_priority EventType.kline c confirm) s ts later;
        interval = "1m";
        open_time = start;
        close_time = finish;
        open_price = open_price;
        high = high;
        low = low;
        close = close;
        base_volume = volume;
        quote_volume = turnover;
        taker_buy_base_volume = nought;
        taker_buy_quote_volume = nought;
        number_of_trades = none;
        is_closed = confirm;
      })
  event_of later c (quote s ts last_price change volume turnover) = ticker (record {
    base =
        base_at bybit EventType.market_ticker (classify_priority EventType.market_ticker c false) s
          ts later;
    last_price = last_price;
    price_change_percent = times_hundred change;
    volume_24h_base = volume;
    volume_24h_quote = turnover;
  })
  event_of later c (best s ts bid bid_qty ask ask_qty) = book (record {
    base =
        base_at bybit EventType.book_ticker (classify_priority EventType.book_ticker c false) s ts
          later;
    bid_price = bid;
    bid_qty = bid_qty;
    ask_price = ask;
    ask_qty = ask_qty;
  })

last_part_dotless : (part s : String) → has_dot s ≡ false → last_part part s ≡ part
unfolding has_dot last_part
last_part_dotless part String.[] h = refl
last_part_dotless part (String.◌∷◌ c s) h = ground (arith, last_part_dotless part s)

last_part-append :
    (part p s : String) → has_dot s ≡ false → last_part part (concat p (String.◌∷◌ "." s)) ≡ s
unfolding last_part
last_part-append part String.[] s h =
    ap (last_part part) (nil-append (String.◌∷◌ "." s)) ∙ last_part_dotless s s h
last_part-append part (String.◌∷◌ c p) s h =
    ap (last_part part) (cons-append c p (String.◌∷◌ "." s))
    ∙ last_part-append (if code c == b'.' then concat p (String.◌∷◌ "." s) else part) p s h

-- The symbol of a topic is what follows its last dot.
pub topic_symbol-concat :
    (p s : String) → has_dot s ≡ false → topic_symbol (concat (concat p ".") s) ≡ s
topic_symbol-concat p s h =
    ap topic_symbol (
      append_assoc p "." s
      ∙ ap (concat p) (cons-append "." "" s ∙ ap (String.◌∷◌ ".") (nil-append s)))
    ∙ unfold topic_symbol in last_part-append (concat p (String.◌∷◌ "." s)) p s h
