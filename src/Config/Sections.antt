-- ===== src/Config/Sections.antt =====
-- app/config/settings.py: the sections of the settings beside the strategy, with their defaults.
-- `regime_thresholds` of the market intelligence, an empty dictionary, is left out.
use binance_momentu.Prelude.{ℕ, Bool, true, false, List, [], ◌∷◌, String}
use binance_momentu.Float.{Float, lit}
use binance_momentu.Config.{StrategyConfig, default_strategy}

pub record BinanceConfig (F : Type 0) : Type 0 where
  pub ws_base_url : String
  pub rest_base_url : String
  pub max_streams_per_connection : ℕ
  pub max_connections : ℕ
  pub soft_reconnect_interval_hours : F
  pub reconnect_backoff_base_seconds : F
  pub reconnect_backoff_max_seconds : F
  pub reconnect_backoff_jitter_seconds : F
  pub ping_interval_seconds : F
  pub connection_health_timeout_seconds : F

abbrev pub default_binance : {F : Type 0} → ⦃f : Float F⦄ → BinanceConfig F
default_binance = record {
  ws_base_url = "wss://fstream.binance.com";
  rest_base_url = "https://fapi.binance.com";
  max_streams_per_connection = 200;
  max_connections = 4;
  soft_reconnect_interval_hours = lit 20 0;
  reconnect_backoff_base_seconds = lit 1 0;
  reconnect_backoff_max_seconds = lit 60 0;
  reconnect_backoff_jitter_seconds = lit 1 0;
  ping_interval_seconds = lit 180 0;
  connection_health_timeout_seconds = lit 30 0;
}

pub record BybitConfig (F : Type 0) : Type 0 where
  pub ws_base_url : String
  pub rest_base_url : String
  pub max_streams_per_connection : ℕ
  pub max_connections : ℕ
  pub soft_reconnect_interval_hours : F
  pub reconnect_backoff_base_seconds : F
  pub reconnect_backoff_max_seconds : F
  pub reconnect_backoff_jitter_seconds : F
  pub ping_interval_seconds : F
  pub connection_health_timeout_seconds : F

abbrev pub default_bybit : {F : Type 0} → ⦃f : Float F⦄ → BybitConfig F
default_bybit = record {
  ws_base_url = "wss://stream.bybit.com/v5/public/linear";
  rest_base_url = "https://api.bybit.com";
  max_streams_per_connection = 200;
  max_connections = 2;
  soft_reconnect_interval_hours = lit 20 0;
  reconnect_backoff_base_seconds = lit 1 0;
  reconnect_backoff_max_seconds = lit 60 0;
  reconnect_backoff_jitter_seconds = lit 1 0;
  ping_interval_seconds = lit 20 0;
  connection_health_timeout_seconds = lit 30 0;
}

pub record BufferConfig (F : Type 0) : Type 0 where
  pub capacity : ℕ
  pub pressure_high_watermark : F
  pub p0_overload_watermark : F
  pub recovery_watermark : F

abbrev pub default_buffer : {F : Type 0} → ⦃f : Float F⦄ → BufferConfig F
default_buffer = record {
  capacity = 10000;
  pressure_high_watermark = lit 80 2;
  p0_overload_watermark = lit 98 2;
  recovery_watermark = lit 60 2;
}

pub record UniverseConfig : Type 0 where
  pub min_symbols : ℕ
  pub max_symbols : ℕ
  pub static_symbols : List String

abbrev pub default_universe : UniverseConfig
default_universe = record {
  min_symbols = 150;
  max_symbols = 300;
  static_symbols = "BTCUSDT" ∷ "ETHUSDT" ∷ "SOLUSDT" ∷ "BNBUSDT" ∷ "XRPUSDT" ∷ [];
}

pub record RetentionConfig : Type 0 where
  pub raw_event_retention_days : ℕ
  pub feature_snapshot_retention_days : ℕ
  pub signal_audit_retention_days : ℕ

abbrev pub default_retention : RetentionConfig
default_retention = record {
  raw_event_retention_days = 7;
  feature_snapshot_retention_days = 30;
  signal_audit_retention_days = 180;
}

pub record DatabaseConfig : Type 0 where
  pub path : String
  pub journal_mode : String
  pub synchronous : String
  pub busy_timeout_ms : ℕ
  pub write_queue_max_size : ℕ

abbrev pub default_database : DatabaseConfig
default_database = record {
  path = "./data/crypto_hunter.sqlite3";
  journal_mode = "WAL";
  synchronous = "NORMAL";
  busy_timeout_ms = 5000;
  write_queue_max_size = 5000;
}

pub record MacroConfig : Type 0 where
  pub economic_calendar_enabled : Bool
  pub macro_high_impact_enabled : Bool
  pub macro_event_pre_window_minutes : ℕ
  pub macro_event_post_window_minutes : ℕ
  pub macro_entry_restriction_enabled : Bool
  pub macro_required_for_entry : Bool
  pub macro_data_max_age_seconds : ℕ

abbrev pub default_macro : MacroConfig
default_macro = record {
  economic_calendar_enabled = true;
  macro_high_impact_enabled = true;
  macro_event_pre_window_minutes = 30;
  macro_event_post_window_minutes = 30;
  macro_entry_restriction_enabled = true;
  macro_required_for_entry = false;
  macro_data_max_age_seconds = 900;
}

pub record MarketIntelligenceConfig : Type 0 where
  pub enabled : Bool
  pub refresh_mode : String
  pub narrative_cooldown_seconds : ℕ
  pub narrative_cache_ttl_seconds : ℕ

abbrev pub default_market_intelligence : MarketIntelligenceConfig
default_market_intelligence = record {
  enabled = false;
  refresh_mode = "hybrid";
  narrative_cooldown_seconds = 300;
  narrative_cache_ttl_seconds = 300;
}

pub record Settings (F : Type 0) : Type 0 where
  pub environment : String
  pub log_level : String
  pub metrics_log_interval_seconds : F
  pub stage1_cycle_seconds : F
  pub signal_cycle_seconds : F
  pub binance : BinanceConfig F
  pub bybit : BybitConfig F
  pub buffer : BufferConfig F
  pub universe : UniverseConfig
  pub retention : RetentionConfig
  pub database : DatabaseConfig
  pub strategy : StrategyConfig F
  pub macro : MacroConfig
  pub market_intelligence : MarketIntelligenceConfig

abbrev pub default_settings : {F : Type 0} → ⦃f : Float F⦄ → Settings F
default_settings = record {
  environment = "development";
  log_level = "INFO";
  metrics_log_interval_seconds = lit 7 0;
  stage1_cycle_seconds = lit 5 0;
  signal_cycle_seconds = lit 3 0;
  binance = default_binance;
  bybit = default_bybit;
  buffer = default_buffer;
  universe = default_universe;
  retention = default_retention;
  database = default_database;
  strategy = default_strategy;
  macro = default_macro;
  market_intelligence = default_market_intelligence;
}
