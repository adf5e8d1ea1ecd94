-- ===== src/Api/Views.antt =====
-- What a client of the API sees.
use binance_momentu.Prelude.{
  ℕ, ◌≡◌, ◌↔◌, ◌⊎◌, refl, ap, option-cases, true, false, Option, none, some, List, [], ◌∷◌, map,
  All, String, Result, Error, ok, raise,
}
use binance_momentu.Prelude.Int.{ℤ}
use binance_momentu.Float.{Float}
use binance_momentu.Domain.Events.{MarketTickerEvent}
use binance_momentu.Signals.Quant.{map_some}
use binance_momentu.Features.Engine.{rvol, trade_acceleration, dollar_volume_24h, spread_percent}
use binance_momentu.Domain.Enums.{Exchange, binance, bybit}
use binance_momentu.Features.Store.{FeatureStore, SymbolFeatureState, get}
use binance_momentu.Notifications.{NotificationBus}
use binance_momentu.Pipeline.{SignalPipeline}
use binance_momentu.Signals.Candidates.{current_candidates}
use binance_momentu.Api.{
  Request, ApiContext, CandidateRow, Response, candidates_body, Route, dashboard, trades, signals,
  notifications, unknown, route_of, candidate_row, rows_of, candidates_view, limit_of, body_for,
  do_get,
}

module _ {F : Type 0} ⦃f : Float F⦄ where
  -- The symbols that have a state.
  pub with_state : Exchange → FeatureStore F → List String → List String
  with_state x store [] = []
  with_state x store (s ∷ ss) =
      let rest = with_state x store ss in elim (get x s store) [ none ↦ rest | some _ ↦ s ∷ rest ]

  -- The rows are of those symbols, in order, each with the figures of the symbol's state.
  pub record AreRows (x : Exchange) (store : FeatureStore F) (symbols : List String)
      (rows : List (CandidateRow F)) : Type 0 where
    pub names : map (λ row. row.symbol) rows ≡ with_state x store symbols
    pub figures :
        All
          (λ row.
            (state : SymbolFeatureState F) × (get x row.symbol store ≡ some state)
            × (row.rvol_shown ≡ rvol state)
            × (row.acceleration_shown ≡ trade_acceleration state)
            × (row.volume_shown ≡ dollar_volume_24h state)
            × (row.spread_shown ≡ spread_percent state)
            × (row.last_price
                ≡ map_some (λ (t : MarketTickerEvent F). t.last_price) state.latest_ticker))
          rows

  shown :
      (s : String) (state : SymbolFeatureState F)
      → let row = candidate_row s state in
        (row.rvol_shown ≡ rvol state)
        × (row.acceleration_shown ≡ trade_acceleration state)
        × (row.volume_shown ≡ dollar_volume_24h state)
        × (row.spread_shown ≡ spread_percent state)
        × (row.last_price
            ≡ map_some (λ (t : MarketTickerEvent F). t.last_price) state.latest_ticker)
  shown s state = (
    refl,
    refl,
    refl,
    refl,
    option-cases (λ o. o ≡ map_some (λ (t : MarketTickerEvent F). t.last_price) state.latest_ticker)
        state.latest_ticker (λ e. rw e refl) (λ t e. rw e refl),
  )

  add_row :
      (x : Exchange) (store : FeatureStore F) (s : String) (ss : List String)
      (rest : List (CandidateRow F)) (o : Option (SymbolFeatureState F))
      → get x s store ≡ o
      → AreRows x store ss rest
      → AreRows x store
          (s ∷ ss)
          (elim o [ none ↦ rest | some state ↦ candidate_row s state ∷ rest ])
  unfolding with_state
  add_row x store s ss rest none e h = record {
    names = rw (with_state, e) h.names;
    figures = h.figures;
  }
  add_row x store s ss rest (some state) e h = record {
    names = rw (with_state, e) (ap (λ t. s ∷ t) h.names);
    figures = (let (v, a, d, w, l) = shown s state in ((state, e, v, a, d, w, l), h.figures));
  }

  rows_of-AreRows :
      (x : Exchange) (store : FeatureStore F) (symbols : List String)
      → AreRows x store symbols (rows_of x store symbols)
  unfolding rows_of with_state
  rows_of-AreRows x store [] = record { names = refl; figures = tt }
  rows_of-AreRows x store (s ∷ ss) =
      add_row x store s ss (rows_of x store ss) (get x s store) refl (rows_of-AreRows x store ss)

abbrev pub ReadsLimit : Route → Type 0
ReadsLimit trades = true ≡ true
ReadsLimit signals = true ≡ true
ReadsLimit notifications = true ≡ true
ReadsLimit r = false ≡ true

-- What the status of an answer says, by the limit and by the rows for it.
abbrev pub IsLimited : {R : Type 0} → Route → Result ℤ → (ℤ → Result R) → ℕ → Type 0
IsLimited r m rows status =
    ((status ≡ 404) ↔ (r ≡ unknown))
    × ((status ≡ 500) ↔ (
        (true ≡ true)
        × (((e : Error) × (m ≡ raise e))
            ⊎ ((n : ℤ) × (m ≡ ok n) × ((e : Error) × (rows n ≡ raise e))))))
    × (((status ≡ 200) ⊎ (status ≡ 404)) ⊎ (status ≡ 500))

module _ {F E R : Type 0} ⦃f : Float F⦄ (parse : String → Result Request)
    (to_int : String → Result ℤ) (dashboard_file : Result (Option String)) (now : F) where
  -- If its target is parsed and there is a pipeline, a request for the candidates is answered for each exchange with a row
  -- for each of its current candidates of which the store has a state, in their order: with the
  -- relative volume, the acceleration, the volume of the day and the spread of that state, and the
  -- last price of its ticker, if it has one.
  pub candidates_served :
      (c : ApiContext F E R) (target : String) (limit : Option String) (p : SignalPipeline F)
      (bus : NotificationBus F)
      → parse target ≡ ok (record { path = "/api/candidates"; limit = limit })
      → c.pipeline ≡ some (p, bus)
      → (on_binance : List (CandidateRow F)) × (on_bybit : List (CandidateRow F)) × (do_get parse
            to_int dashboard_file now c target
          ≡ ok (record {
            status = 200;
            body = candidates_body (("binance", on_binance) ∷ ("bybit", on_bybit) ∷ []);
          }))
        × AreRows binance p.feature_store
            (current_candidates binance p.candidate_manager)
            on_binance
        × AreRows bybit p.feature_store (current_candidates bybit p.candidate_manager) on_bybit
  unfolding do_get route_of body_for candidates_view
  candidates_served c target limit p bus parsed h = (
    rows_of binance p.feature_store (current_candidates binance p.candidate_manager),
    rows_of bybit p.feature_store (current_candidates bybit p.candidate_manager),
    rw (parsed, h) refl,
    rows_of-AreRows binance p.feature_store (current_candidates binance p.candidate_manager),
    rows_of-AreRows bybit p.feature_store (current_candidates bybit p.candidate_manager),
  )

  -- The query of the database that the route makes, and whether it gave rows.
  abbrev pub QueryFails : Route → ApiContext F E R → ℤ → Type 0
  QueryFails trades c n = (e : Error) × (c.query_recent_trades n ≡ raise e)
  QueryFails signals c n = (e : Error) × (c.query_recent_signals n ≡ raise e)
  QueryFails r c n = false ≡ true

  -- The file cannot be read, the limit is no integer, or the query of the database raised.
  abbrev pub Fails : Route → ApiContext F E R → Request → Type 0
  Fails dashboard c q = (e : Error) × (dashboard_file ≡ raise e)
  Fails r c q =
      ReadsLimit r
      × (((e : Error) × (limit_of to_int q ≡ raise e))
          ⊎ ((n : ℤ) × (limit_of to_int q ≡ ok n) × QueryFails r c n))

  -- What the status says for a route.
  abbrev pub IsStatus : Route → ApiContext F E R → Request → ℕ → Type 0
  IsStatus r c q status =
      ((status ≡ 404) ↔ (r ≡ unknown))
      × ((status ≡ 500) ↔ Fails r c q)
      × (((status ≡ 200) ⊎ (status ≡ 404)) ⊎ (status ≡ 500))

  -- No answer where the target is not parsed, and else one with the status that its route says.
  abbrev pub IsAnswer : ApiContext F E R → Result Request → Result (Response F R) → Type 0
  IsAnswer c (raise e) m = m ≡ raise e
  IsAnswer c (ok q) m =
      (answer : Response F R) × (m ≡ ok answer) × IsStatus (route_of q.path) c q answer.status
