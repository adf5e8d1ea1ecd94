-- ===== src/Tests/Screening.antt =====
-- The theorems on the feature store and the candidates, applied.
use binance_momentu.Prelude.{
  ℕ, ◌≤◌, ◌≢◌, Bool, true, false, some, List, [], ◌∷◌, ◌++◌, ◌&&◌, ◌<◌, ◌≡◌, length, String,
}
use binance_momentu.Prelude.Dict.{lookup}
use binance_momentu.Float.Fixed.{Fixed, fixed_float, Fixed-IsOrdered}
use binance_momentu.Domain.Enums.{Exchange, binance, bybit}
use binance_momentu.Domain.Events.{Event, kline}
use binance_momentu.Features.Store.{FeatureStore, empty_store, ingest, get}
use binance_momentu.Features.Store.Isolation.{IsSound, ingest-IsSound}
use binance_momentu.Signals.Candidates.{Stage1Result, rank_and_promote, CandidateStreamManager}
use binance_momentu.Signals.Candidates.Ranking.{IsRanked, count, rank_and_promote_lem}
use binance_momentu.Tests.Samples.{decimal, strategy, minute}

abbrev store : FeatureStore Fixed
store = empty_store 60

abbrev closed_minute : Event Fixed
closed_minute = kline (minute binance 10000 10100 10000 10050 500 400 50000)

store-IsSound : IsSound store
unfolding get lookup
store-IsSound x s state e = cc

ingest-IsSound_example : IsSound (ingest closed_minute store)
ingest-IsSound_example = ingest-IsSound closed_minute store store-IsSound

other_exchange : ◌≢◌ {A = Exchange × String} (binance, "SOLUSDT") (bybit, "SOLUSDT")
other_exchange e = cc

abbrev screened : Exchange → String → ℕ → Bool → Stage1Result Fixed
screened x symbol rvol eligible = record {
  exchange = x;
  symbol = symbol;
  rvol = some (decimal rvol 1);
  trade_acceleration = some (decimal 3 0);
  dollar_volume_24h = some (decimal 20000000 0);
  eligible = eligible;
  reasons_failed = [];
}

abbrev results : List (Stage1Result Fixed)
results =
    screened binance "SOLUSDT" 31 true
    ∷ screened bybit "SOLUSDT" 45 true
    ∷ screened binance "XRPUSDT" 90 false
    ∷ screened binance "ETHUSDT" 27 true
    ∷ []

rank_and_promote_lem_example :
    let promoted = rank_and_promote results strategy in
    (length promoted ≤ 15)
    × ((left_out : List (Stage1Result Fixed)) × IsRanked (promoted ++ left_out)
        × ((q : Stage1Result Fixed → Bool)
            → count q (promoted ++ left_out) ≡ count (λ r. r.eligible && q r) results)
        × (0 < length left_out → length promoted ≡ 15))
rank_and_promote_lem_example = rank_and_promote_lem Fixed-IsOrdered results strategy

abbrev manager : CandidateStreamManager
manager = record { binance_symbols = "ETHUSDT" ∷ "BNBUSDT" ∷ []; bybit_symbols = [] }
