-- ===== src/Experiments.antt =====
-- app/experiments/tracker.py: a backtest report copied into a record for the storage. The identifier,
-- the time and `json.dumps` are arguments; the metrics that are always `None` are left out.
use binance_momentu.Prelude.{ℕ, Option, none, String, Result, ok, ◌>>=◌}
use binance_momentu.Float.{Float}
use binance_momentu.Backtest.{BacktestReport}
use binance_momentu.Backtest.Report.{
  trade_count, win_rate, expectancy_r, profit_factor, max_drawdown_percent,
}
use binance_momentu.Storage.{Storage, Experiment, enqueue_experiment}

pub record ExperimentMetrics (F : Type 0) : Type 0 where
  pub trades : ℕ
  pub win_rate : Option F
  pub expectancy_r : Option F
  pub profit_factor : Option F
  pub max_drawdown_percent : Option F
  pub no_trade_count : ℕ
  pub rejected_count : ℕ

abbrev pub strategy_version : String
strategy_version = "V2.1"

-- What the caller says of an experiment.
pub record Description : Type 0 where
  pub configuration_version : String
  pub parameter_changes_json : String
  pub dataset : String
  pub date_range : String
  pub universe : String
  pub backtest_method : String
  pub random_seed : Option ℕ
  pub observations : String
  pub status : String

module _ {F : Type 0} ⦃f : Float F⦄ where
  unfoldable pub metrics_from_report : BacktestReport F → Result (ExperimentMetrics F)
  metrics_from_report r = do
    drawdown ← max_drawdown_percent r
    ok (record {
      trades = trade_count r;
      win_rate = win_rate r;
      expectancy_r = expectancy_r r;
      profit_factor = profit_factor r;
      max_drawdown_percent = drawdown;
      no_trade_count = r.no_trade_count;
      rejected_count = r.rejected_count;
    })

  unfoldable pub record_experiment :
      (ExperimentMetrics F → String)
      → (experiment_id : String) → ℕ
      → BacktestReport F
      → Description
      → Storage F
      → Result (Storage F × Experiment)
  record_experiment dumps experiment_id now r d s = metrics_from_report r >>= λ metrics.
      let e : Experiment = record {
        experiment_id = experiment_id;
        parent_strategy_version = strategy_version;
        configuration_version = d.configuration_version;
        parameter_changes_json = d.parameter_changes_json;
        dataset = d.dataset;
        date_range = d.date_range;
        universe = d.universe;
        random_seed = d.random_seed;
        backtest_method = d.backtest_method;
        metrics_json = dumps metrics;
        observations = d.observations;
        status = d.status;
        decision = none;
      } in
      ok (enqueue_experiment now e s, e)
