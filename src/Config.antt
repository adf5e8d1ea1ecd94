-- ===== src/Config.antt =====
-- app/config/settings.py: the strategy's configuration, with the defaults of the source.
pub mod Overrides
pub mod Sections
use binance_momentu.Prelude.{ℕ}
use binance_momentu.Float.{Float, lit}

pub record QuantScoreWeights (F : Type 0) : Type 0 where
  pub rvol : F
  pub acceleration : F
  pub delta : F
  pub momentum : F
  pub breakout : F
  pub liquidity : F
  pub friction : F

pub record QuantScoreThresholds (F : Type 0) : Type 0 where
  pub watch : F
  pub candidate : F
  pub pump_detected : F
  pub high_conviction : F

pub record StrategyConfig (F : Type 0) : Type 0 where
  pub rvol_threshold : F
  pub acceleration_threshold : F
  pub min_24h_volume_usd : F
  pub friction_coverage_ratio : F
  pub risk_per_trade_percent : F
  pub daily_loss_limit_percent : F
  pub max_open_positions : ℕ
  pub max_portfolio_heat : F
  pub max_spread_percent : F
  pub base_slippage_percent : F
  pub slippage_gamma : F
  pub candidate_min : ℕ
  pub candidate_max : ℕ
  pub claude_score_threshold : F
  pub claude_cooldown_seconds : ℕ
  pub binance_oi_interval_seconds : ℕ
  pub bybit_oi_interval_seconds : ℕ
  pub btc_volatility_pause_threshold_percent : F
  pub venue_dedup_score_epsilon : F
  pub cross_exchange_dedup_window_seconds : ℕ
  pub rvol_score_floor : F
  pub rvol_score_ceiling : F
  pub acceleration_score_floor : F
  pub acceleration_score_ceiling : F
  pub delta_score_floor : F
  pub delta_score_ceiling : F
  pub momentum_score_floor : F
  pub momentum_score_ceiling : F
  pub momentum_window_minutes : ℕ
  pub breakout_atr_multiplier : F
  pub breakout_score_ceiling : F
  pub liquidity_score_ceiling_usd : F
  pub friction_score_floor : F
  pub friction_score_ceiling : F
  pub reference_order_size_usd : F
  pub sl_atr_multiplier : F
  pub take_profit_rr : F
  pub taker_fee_percent : F
  pub min_position_size_usd : F
  pub max_position_size_usd : F
  pub paper_starting_equity_usd : F
  pub quant_score_weights : QuantScoreWeights F
  pub quant_score_thresholds : QuantScoreThresholds F

module _ {F : Type 0} ⦃f : Float F⦄ where
  abbrev pub default_weights : QuantScoreWeights F
  default_weights = record {
    rvol = lit 20 2;
    acceleration = lit 15 2;
    delta = lit 15 2;
    momentum = lit 15 2;
    breakout = lit 15 2;
    liquidity = lit 10 2;
    friction = lit 10 2;
  }

  abbrev pub default_thresholds : QuantScoreThresholds F
  default_thresholds = record {
    watch = lit 60 0;
    candidate = lit 70 0;
    pump_detected = lit 80 0;
    high_conviction = lit 90 0;
  }

  abbrev pub default_strategy : StrategyConfig F
  default_strategy = record {
    rvol_threshold = lit 25 1;
    acceleration_threshold = lit 2 0;
    min_24h_volume_usd = lit 15000000 0;
    friction_coverage_ratio = lit 25 1;
    risk_per_trade_percent = lit 5 1;
    daily_loss_limit_percent = lit 3 0;
    max_open_positions = 3;
    max_portfolio_heat = lit 15 1;
    max_spread_percent = lit 8 2;
    base_slippage_percent = lit 2 2;
    slippage_gamma = lit 10 2;
    candidate_min = 5;
    candidate_max = 15;
    claude_score_threshold = lit 80 0;
    claude_cooldown_seconds = 300;
    binance_oi_interval_seconds = 60;
    bybit_oi_interval_seconds = 60;
    btc_volatility_pause_threshold_percent = lit 12 1;
    venue_dedup_score_epsilon = lit 2 0;
    cross_exchange_dedup_window_seconds = 10;
    rvol_score_floor = lit 1 0;
    rvol_score_ceiling = lit 5 0;
    acceleration_score_floor = lit 1 0;
    acceleration_score_ceiling = lit 4 0;
    delta_score_floor = lit 0 0;
    delta_score_ceiling = lit 60 2;
    momentum_score_floor = lit 5 1;
    momentum_score_ceiling = lit 2 0;
    momentum_window_minutes = 3;
    breakout_atr_multiplier = lit 10 2;
    breakout_score_ceiling = lit 50 2;
    liquidity_score_ceiling_usd = lit 100000000 0;
    friction_score_floor = lit 1 0;
    friction_score_ceiling = lit 4 0;
    reference_order_size_usd = lit 1000 0;
    sl_atr_multiplier = lit 120 2;
    take_profit_rr = lit 2 0;
    taker_fee_percent = lit 5 2;
    min_position_size_usd = lit 20 0;
    max_position_size_usd = lit 5000 0;
    paper_starting_equity_usd = lit 10000 0;
    quant_score_weights = default_weights;
    quant_score_thresholds = default_thresholds;
  }
