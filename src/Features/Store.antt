-- ===== src/Features/Store.antt =====
-- app/features/store.py: `SymbolFeatureState` and `FeatureStore`. A `deque` with `maxlen` is a list
-- that drops its oldest items.
pub mod Isolation
use binance_momentu.Prelude.{
  ℕ, ◌+◌, ◌-◌, ◌≤◌, ◌≡◌, ◌↔◌, refl, Bool, true, false, ◌&&◌, if◌then◌else◌, Option, none, some,
  List, [], ◌∷◌, ◌++◌, length, drop, String, str_eq, eq_iff, arith,
}
use binance_momentu.Prelude.Dict.{Dict, Key, lookup, insert, values}
use binance_momentu.Domain.Enums.{Exchange, binance, bybit}
use binance_momentu.Domain.Events.{
  Event, ticker, kline, book, trade, oi, economic, signal, execution, system, KlineEvent,
  MarketTickerEvent, BookTickerEvent, OiEvent,
}

abbrev pub same_exchange : Exchange → Exchange → Bool
same_exchange binance binance = true
same_exchange bybit bybit = true
same_exchange _ _ = false

abbrev pub same_symbol : Exchange × String → Exchange × String → Bool
same_symbol (x, s) (y, t) = same_exchange x y && str_eq s t

pub same_symbol_iff : (a b : Exchange × String) → (same_symbol a b ≡ true) ↔ (a ≡ b)
same_symbol_iff (binance, s) (binance, t) = ground (arith, eq_iff s t)
same_symbol_iff (binance, s) (bybit, t) = ground (arith, eq_iff s t)
same_symbol_iff (bybit, s) (binance, t) = ground (arith, eq_iff s t)
same_symbol_iff (bybit, s) (bybit, t) = ground (arith, eq_iff s t)

instance abbrev pub symbol_key : Key (Exchange × String)
symbol_key = record { same = same_symbol; same_iff = same_symbol_iff }

abbrev pub default_kline_window : ℕ
default_kline_window = 60

pub record SymbolFeatureState (F : Type 0) : Type 0 where
  pub exchange : Exchange
  pub symbol : String
  pub closed_klines : List (KlineEvent F)
  pub latest_ticker : Option (MarketTickerEvent F)
  pub latest_book_ticker : Option (BookTickerEvent F)
  pub latest_oi : Option (OiEvent F)

pub record FeatureStore (F : Type 0) : Type 0 where
  pub kline_window : ℕ
  pub states : Dict (Exchange × String) (SymbolFeatureState F)

-- `append` on a `deque` of at most `maxlen` items.
unfoldable pub append_bounded : {A : Type 0} → ℕ → List A → A → List A
append_bounded maxlen items x = let all = items ++ x ∷ [] in drop (length all - maxlen) all

module _ {F : Type 0} where
  unfoldable pub net_taker_delta_available : SymbolFeatureState F → Bool
  net_taker_delta_available s = same_exchange s.exchange binance

  abbrev pub fresh_state : Exchange → String → SymbolFeatureState F
  fresh_state x s = record {
    exchange = x;
    symbol = s;
    closed_klines = [];
    latest_ticker = none;
    latest_book_ticker = none;
    latest_oi = none;
  }

  -- The state that `_get_or_create` returns; `put_state` stores it, changed or not.
  unfoldable pub get_or_create : Exchange → String → FeatureStore F → SymbolFeatureState F
  get_or_create x s store = elim (lookup (x, s) store.states) [
    | some state ↦ state
    | none ↦ fresh_state x s
  ]

  abbrev pub put_state : Exchange → String → SymbolFeatureState F → FeatureStore F → FeatureStore F
  put_state x s state store = record store { states = insert (x, s) state store.states }

  unfoldable pub ingest : Event F → FeatureStore F → FeatureStore F
  ingest (kline e) store =
      let state = get_or_create e.exchange e.symbol store in
      put_state e.exchange e.symbol
        (if e.is_closed
          then record state {
            closed_klines = append_bounded store.kline_window state.closed_klines e;
          }
          else state)
        store
  ingest (ticker e) store =
      put_state e.exchange e.symbol
        (record (get_or_create e.exchange e.symbol store) { latest_ticker = some e }) store
  ingest (book e) store =
      put_state e.exchange e.symbol
        (record (get_or_create e.exchange e.symbol store) { latest_book_ticker = some e }) store
  ingest (oi e) store =
      put_state e.exchange e.symbol
        (record (get_or_create e.exchange e.symbol store) { latest_oi = some e }) store
  ingest (trade e) store = store
  ingest (economic e) store = store
  ingest (signal e) store = store
  ingest (execution e) store = store
  ingest (system e) store = store

  unfoldable pub get : Exchange → String → FeatureStore F → Option (SymbolFeatureState F)
  get x s store = lookup (x, s) store.states

  unfoldable pub all_states : FeatureStore F → List (SymbolFeatureState F)
  all_states store = values store.states

  abbrev pub empty_store : ℕ → FeatureStore F
  empty_store kline_window = record { kline_window = kline_window; states = [] }
