-- ===== src/Tests/Requests.antt =====
-- The theorems on the API, applied to a pipeline with a candidate.
use binance_momentu.Prelude.{
  ◌≡◌, refl, none, some, List, [], ◌∷◌, String, Result, Error, ok, raise, str_eq, if◌then◌else◌,
}
use binance_momentu.Prelude.Int.{ℤ, pos}
use binance_momentu.Float.Fixed.{Fixed, fixed_float}
use binance_momentu.Domain.Enums.{binance, bybit}
use binance_momentu.Notifications.{NotificationBus}
use binance_momentu.Pipeline.{SignalPipeline}
use binance_momentu.Signals.Candidates.{current_candidates}
use binance_momentu.Api.{Request, ApiContext, CandidateRow, candidates_body, do_get}
use binance_momentu.Api.Views.{AreRows, candidates_served}
use binance_momentu.Tests.Pipelines.{idle}
use binance_momentu.Tests.Samples.{decimal, features}

abbrev to_int : String → Result ℤ
to_int s = if str_eq s "50" then ok (pos 50) else raise Error.value_error

abbrev pub watching : SignalPipeline Fixed
watching = record idle {
  feature_store = record {
    kline_window = 30;
    states = ((binance, "SOLUSDT"), features binance) ∷ [];
  };
  candidate_manager = record { binance_symbols = "SOLUSDT" ∷ "ETHUSDT" ∷ []; bybit_symbols = [] };
}

abbrev quiet_bus : NotificationBus Fixed
quiet_bus = record {
  max_size = 200;
  dedup_window_seconds = decimal 30 0;
  items = [];
  last_sent = [];
}

-- The table of the trades cannot be read.
abbrev server : ApiContext Fixed String String
server = record {
  ingestion = none;
  pipeline = some (watching, quiet_bus);
  query_recent_trades = λ n. raise Error.other_error;
  query_recent_signals = λ n. ok [];
}

-- A target without a query is its path; one that begins a host in brackets is refused.
abbrev parse : String → Result Request
parse target =
    if str_eq target "http://["
    then raise Error.value_error
    else ok (record { path = target; limit = none })

candidates_served_example :
    (on_binance : List (CandidateRow Fixed)) × (on_bybit : List (CandidateRow Fixed)) × (do_get
        parse to_int
        (ok none)
        (decimal 5 0)
        server
        "/api/candidates"
      ≡ ok (record {
        status = 200;
        body = candidates_body (("binance", on_binance) ∷ ("bybit", on_bybit) ∷ []);
      }))
    × AreRows binance watching.feature_store
        (current_candidates binance watching.candidate_manager)
        on_binance
    × AreRows bybit watching.feature_store
        (current_candidates bybit watching.candidate_manager)
        on_bybit
candidates_served_example =
    candidates_served parse to_int (ok none) (decimal 5 0) server "/api/candidates" none watching
      quiet_bus refl refl
