-- ===== src/Api.antt =====
-- app/api/server.py: the answers to requests. A request is its path with the text of `limit`, if it
-- has one, and `parse` is what `urlparse` and `parse_qs` make of the target of a request. `to_int`
-- is `int` of a text; what the file of the dashboard holds, if it exists and can be read, and what
-- the queries of the database give are arguments. Encoding the answer as JSON and writing it to the
-- socket are outside.
pub mod Views
use binance_momentu.Prelude.{
  ℕ, suc, ◌+◌, Bool, true, false, ◌||◌, if◌then◌else◌, Option, none, some, List, [], ◌∷◌, length,
  map, drop, String, str_eq, Result, Error, ok, raise, ◌>>=◌,
}
use binance_momentu.Prelude.Int.{ℤ, pos, negsuc}
use binance_momentu.Prelude.Dict.{values}
use binance_momentu.Float.{Float}
use binance_momentu.Domain.Enums.{Exchange, binance, bybit, exchange_value}
use binance_momentu.Execution.Paper.{PaperPosition}
use binance_momentu.Features.Engine.{rvol, trade_acceleration, dollar_volume_24h, spread_percent}
use binance_momentu.Features.Store.{FeatureStore, SymbolFeatureState, get}
use binance_momentu.Ingestion.{IngestionManager, Snapshot, get_snapshot}
use binance_momentu.Notifications.{Notification, NotificationBus, recent}
use binance_momentu.Pipeline.{SignalPipeline}
use binance_momentu.Signals.Candidates.{current_candidates}

pub record Request : Type 0 where
  pub path : String
  pub limit : Option String

-- The pipeline comes with its bus.
pub record ApiContext (F E R : Type 0) : Type 0 where
  pub ingestion : Option (IngestionManager F E)
  pub pipeline : Option (SignalPipeline F × NotificationBus F)
  pub query_recent_trades : ℤ → Result (List R)
  pub query_recent_signals : ℤ → Result (List R)

pub record PipelineStats : Type 0 where
  pub signals_evaluated_total : ℕ
  pub entries_opened_total : ℕ
  pub open_positions : ℕ
  pub candidates_binance : ℕ

pub record CandidateRow (F : Type 0) : Type 0 where
  pub symbol : String
  pub rvol_shown : Option F
  pub acceleration_shown : Option F
  pub volume_shown : Option F
  pub spread_shown : Option F
  pub last_price : Option F

pub data Body (F R : Type 0) : Type 0 where
  page : String → Body F R
  health_body : Option (Snapshot F) → Option PipelineStats → Body F R
  candidates_body : List (String × List (CandidateRow F)) → Body F R
  positions_body : List (PaperPosition F) → Body F R
  rows_body : List R → Body F R
  notes_body : List Notification → Body F R
  error_body : Body F R

pub record Response (F R : Type 0) : Type 0 where
  pub status : ℕ
  pub body : Body F R

pub data Route : Type 0 where
  dashboard health candidates positions trades signals notifications unknown : Route

unfoldable pub route_of : String → Route
route_of path =
    if str_eq path "/" || str_eq path "/dashboard" || str_eq path "/dashboard.html"
    then dashboard
    else if str_eq path "/api/health"
    then health
    else if str_eq path "/api/candidates"
    then candidates
    else if str_eq path "/api/positions"
    then positions
    else if str_eq path "/api/trades"
    then trades
    else if str_eq path "/api/signals"
    then signals
    else if str_eq path "/api/notifications"
    then notifications
    else unknown

abbrev pub missing_page : String
missing_page = "<html><body><h1>Dashboard file not found</h1></body></html>"

module _ {F : Type 0} ⦃f : Float F⦄ where
  abbrev pub candidate_row : String → SymbolFeatureState F → CandidateRow F
  candidate_row symbol state = record {
    symbol = symbol;
    rvol_shown = rvol state;
    acceleration_shown = trade_acceleration state;
    volume_shown = dollar_volume_24h state;
    spread_shown = spread_percent state;
    last_price = elim state.latest_ticker [ none ↦ none | some t ↦ some t.last_price ];
  }

  -- A row for each symbol that has a state.
  unfoldable pub rows_of : Exchange → FeatureStore F → List String → List (CandidateRow F)
  rows_of x store [] = []
  rows_of x store (symbol ∷ symbols) =
      let rest = rows_of x store symbols in
      elim (get x symbol store) [ none ↦ rest | some state ↦ candidate_row symbol state ∷ rest ]

  unfoldable pub candidates_view :
      Option (SignalPipeline F × NotificationBus F) → List (String × List (CandidateRow F))
  candidates_view none = []
  candidates_view (some (p, bus)) =
      (
        exchange_value binance,
        rows_of binance p.feature_store (current_candidates binance p.candidate_manager),
      )
      ∷ (
        exchange_value bybit,
        rows_of bybit p.feature_store (current_candidates bybit p.candidate_manager),
      )
      ∷ []

  unfoldable pub positions_view :
      Option (SignalPipeline F × NotificationBus F) → List (PaperPosition F)
  positions_view none = []
  positions_view (some (p, bus)) = values p.paper_engine.open_positions

  unfoldable pub stats_of : SignalPipeline F → PipelineStats
  stats_of p = record {
    signals_evaluated_total = p.signals_evaluated_total;
    entries_opened_total = p.entries_opened_total;
    open_positions = length (values p.paper_engine.open_positions);
    candidates_binance = length (current_candidates binance p.candidate_manager);
  }

  -- `list(items)[-limit:]` for any integer.
  unfoldable pub recent_notes : ℤ → NotificationBus F → List Notification
  recent_notes (pos n) bus = recent n bus
  recent_notes (negsuc n) bus = drop (n + 1) bus.items

-- `int(query.get("limit", ["50"])[0])`.
unfoldable pub limit_of : (String → Result ℤ) → Request → Result ℤ
limit_of to_int q = elim q.limit [ none ↦ ok (pos 50) | some s ↦ to_int s ]

abbrev pub status_for : Route → ℕ
status_for unknown = 404
status_for r = 200

-- The answer, also for an exception.
abbrev pub answered : {F R : Type 0} → Route → Result (Body F R) → Response F R
answered r (raise e) = record { status = 500; body = error_body }
answered r (ok b) = record { status = status_for r; body = b }

module _ {F E R : Type 0} ⦃f : Float F⦄ (parse : String → Result Request)
    (to_int : String → Result ℤ) (dashboard_file : Result (Option String)) (now : F) where
  -- What the branch for the route answers with, if it ends without an exception.
  unfoldable pub body_for : Route → ApiContext F E R → Request → Result (Body F R)
  body_for dashboard c q = do
    file ← dashboard_file
    ok (page (elim file [ none ↦ missing_page | some content ↦ content ]))
  body_for health c q = ok (
      health_body (elim c.ingestion [ none ↦ none | some i ↦ some (get_snapshot now i) ])
        (elim c.pipeline [ none ↦ none | some (p, bus) ↦ some (stats_of p) ]))
  body_for candidates c q = ok (candidates_body (candidates_view c.pipeline))
  body_for positions c q = ok (positions_body (positions_view c.pipeline))
  body_for trades c q = do
    limit ← limit_of to_int q
    rows ← c.query_recent_trades limit
    ok (rows_body rows)
  body_for signals c q = do
    limit ← limit_of to_int q
    rows ← c.query_recent_signals limit
    ok (rows_body rows)
  body_for notifications c q = do
    limit ← limit_of to_int q
    ok (notes_body (elim c.pipeline [ none ↦ [] | some (p, bus) ↦ recent_notes limit bus ]))
  body_for unknown c q = ok error_body

  -- The target is parsed outside the `try`: an exception of it leaves the request without an
  -- answer.
  unfoldable pub do_get : ApiContext F E R → String → Result (Response F R)
  do_get c target = do
    q ← parse target
    ok (answered (route_of q.path) (body_for (route_of q.path) c q))
