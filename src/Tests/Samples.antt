-- ===== src/Tests/Samples.antt =====
-- Decimals, market data and a context that the tests run on.
use binance_momentu.Prelude.{ℕ, zero, suc, Bool, true, none, some, List, [], ◌∷◌, ◌++◌}
use binance_momentu.Float.{lit}
use binance_momentu.Float.Fixed.{Fixed, fixed_float}
use binance_momentu.Config.{StrategyConfig, default_strategy}
use binance_momentu.Domain.Enums.{Exchange, EventType, EventPriority}
use binance_momentu.Domain.Events.{DomainEvent, KlineEvent, MarketTickerEvent, BookTickerEvent}
use binance_momentu.Features.Store.{SymbolFeatureState}
use binance_momentu.Signals.Engine.{Context}
use binance_momentu.Risk.Engine.{RiskEngine, new_engine}

abbrev pub decimal : ℕ → ℕ → Fixed
decimal = lit

abbrev pub strategy : StrategyConfig Fixed
strategy = default_strategy

abbrev pub base_event : Exchange → EventType → EventPriority → DomainEvent
base_event x t p = record {
  exchange = x;
  symbol = "SOLUSDT";
  event_type = t;
  exchange_timestamp = 1000;
  local_ingest_timestamp = 1005;
  priority = p;
  sequence = none;
}

-- A closed minute with the given prices in hundredths and volumes.
abbrev pub minute : Exchange → (start high low close volume bought usd : ℕ) → KlineEvent Fixed
minute x start high low close volume bought usd = record {
  base = base_event x EventType.kline EventPriority.p0;
  interval = "1m";
  open_time = 0;
  close_time = 60000;
  open_price = decimal start 2;
  high = decimal high 2;
  low = decimal low 2;
  close = decimal close 2;
  base_volume = decimal volume 0;
  quote_volume = decimal usd 0;
  taker_buy_base_volume = decimal bought 0;
  taker_buy_quote_volume = decimal 0 0;
  number_of_trades = none;
  is_closed = true;
}

abbrev pub quiet : Exchange → ℕ → List (KlineEvent Fixed)
quiet x zero = []
quiet x (suc n) = minute x 10000 10050 9950 10000 100 50 10000 ∷ quiet x n

abbrev pub klines : Exchange → List (KlineEvent Fixed)
klines x =
    quiet x 22
    ++ minute x 10000 10100 10000 10050 500 400 50000
      ∷ minute x 10050 10200 10050 10150 600 500 500000
      ∷ minute x 10150 10500 10150 10450 900 800 90000000
      ∷ []

abbrev pub ticker_event : Exchange → MarketTickerEvent Fixed
ticker_event x = record {
  base = base_event x EventType.market_ticker EventPriority.p3;
  last_price = decimal 10450 2;
  price_change_percent = none;
  volume_24h_base = none;
  volume_24h_quote = some (decimal 200000000 0);
}

abbrev pub book_event : Exchange → BookTickerEvent Fixed
book_event x = record {
  base = base_event x EventType.book_ticker EventPriority.p0;
  bid_price = decimal 10449 2;
  bid_qty = decimal 10 0;
  ask_price = decimal 10450 2;
  ask_qty = decimal 10 0;
}

-- The features of a symbol that breaks out.
abbrev pub features : Exchange → SymbolFeatureState Fixed
features x = record {
  exchange = x;
  symbol = "SOLUSDT";
  closed_klines = klines x;
  latest_ticker = some (ticker_event x);
  latest_book_ticker = some (book_event x);
  latest_oi = none;
}

abbrev pub context : Exchange → Context Fixed
context x = record {
  features = features x;
  current_price = decimal 10700 2;
  strategy = strategy;
  account_equity_usd = decimal 10000 0;
  btc_pause_active = Bool.false;
  signal_id = "s1";
  decision_timestamp_ms = 1010;
  today = 7;
}

abbrev pub fresh_risk : RiskEngine Fixed
fresh_risk = new_engine strategy 7
