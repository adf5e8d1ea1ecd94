-- ===== src/Signals/Candidates.antt =====
-- app/signals/candidate_manager.py: the stage 1 screen, the ranking, and the candidate sets. A set
-- of symbols is a list without repetitions; its order is an accident, and no theorem speaks of it.
pub mod Ranking
pub mod Sets
use binance_momentu.Prelude.{
  ℕ, ◌≡◌, refl, Bool, true, false, not, ◌&&◌, ◌||◌, if◌then◌else◌, Option, none, some, List, [],
  ◌∷◌, ◌++◌, take, is_empty, String, str_eq,
}
use binance_momentu.Prelude.Sets.{contains, add, difference}
use binance_momentu.Float.{Float, ◌<?◌, nought}
use binance_momentu.Config.{StrategyConfig}
use binance_momentu.Domain.Enums.{Exchange, binance, bybit}
use binance_momentu.Features.Store.{SymbolFeatureState, FeatureStore, all_states, same_exchange}
use binance_momentu.Features.Engine.{rvol, trade_acceleration, dollar_volume_24h}
use binance_momentu.Risk.Engine.{reason}
use binance_momentu.Signals.Breakout.{short_of}

pub record Stage1Result (F : Type 0) : Type 0 where
  pub exchange : Exchange
  pub symbol : String
  pub rvol : Option F
  pub trade_acceleration : Option F
  pub dollar_volume_24h : Option F
  pub eligible : Bool
  pub reasons_failed : List String

module _ {F : Type 0} ⦃f : Float F⦄ where
  unfoldable pub screen_symbol : StrategyConfig F → SymbolFeatureState F → Stage1Result F
  screen_symbol s state =
      let reasons =
        reason (short_of (rvol state) s.rvol_threshold) "rvol_below_threshold_or_unavailable"
        ++ (reason (short_of (trade_acceleration state) s.acceleration_threshold)
              "acceleration_below_threshold_or_unavailable"
            ++ reason (short_of (dollar_volume_24h state) s.min_24h_volume_usd)
                "volume_below_threshold_or_unavailable") in
      record {
        exchange = state.exchange;
        symbol = state.symbol;
        rvol = rvol state;
        trade_acceleration = trade_acceleration state;
        dollar_volume_24h = dollar_volume_24h state;
        eligible = is_empty reasons;
        reasons_failed = reasons;
      }

  unfoldable pub screen_all : StrategyConfig F → List (SymbolFeatureState F) → List (Stage1Result F)
  screen_all s [] = []
  screen_all s (state ∷ states) = screen_symbol s state ∷ screen_all s states

  unfoldable pub screen_stage1 : FeatureStore F → StrategyConfig F → List (Stage1Result F)
  screen_stage1 store s = screen_all s (all_states store)

  -- The sort key `r.rvol or 0.0`.
  abbrev pub rank : Stage1Result F → F
  rank r = elim r.rvol [ none ↦ nought | some v ↦ v ]

  unfoldable pub eligible_only : List (Stage1Result F) → List (Stage1Result F)
  eligible_only [] = []
  eligible_only (r ∷ rs) = let rest = eligible_only rs in if r.eligible then r ∷ rest else rest

  -- The sort by falling rank, which keeps the order of equals.
  unfoldable pub place : Stage1Result F → List (Stage1Result F) → List (Stage1Result F)
  place r [] = r ∷ []
  place r (x ∷ xs) = if rank r <? rank x then x ∷ place r xs else r ∷ x ∷ xs

  unfoldable pub ranked : List (Stage1Result F) → List (Stage1Result F)
  ranked [] = []
  ranked (r ∷ rs) = place r (ranked rs)

  unfoldable pub rank_and_promote : List (Stage1Result F) → StrategyConfig F → List (Stage1Result F)
  rank_and_promote results s = take s.candidate_max (ranked (eligible_only results))

pub record CandidateStreamManager : Type 0 where
  pub binance_symbols : List String
  pub bybit_symbols : List String

abbrev pub empty_manager : CandidateStreamManager
empty_manager = record { binance_symbols = []; bybit_symbols = [] }

abbrev pub current_candidates : Exchange → CandidateStreamManager → List String
current_candidates binance m = m.binance_symbols
current_candidates bybit m = m.bybit_symbols

unfoldable pub is_candidate : Exchange → String → CandidateStreamManager → Bool
is_candidate x symbol m = contains symbol (current_candidates x m)

-- What is to be subscribed and what unsubscribed.
pub record SubscriptionDiff : Type 0 where
  pub added : List String
  pub removed : List String

module _ {F : Type 0} where
  -- The symbols of one exchange among the promoted.
  unfoldable pub symbols_on : Exchange → List (Stage1Result F) → List String
  symbols_on x [] = []
  symbols_on x (r ∷ rs) =
      let rest = symbols_on x rs in if same_exchange r.exchange x then add r.symbol rest else rest

  unfoldable pub diff_on :
      Exchange → List (Stage1Result F) → CandidateStreamManager → SubscriptionDiff
  diff_on x promoted m =
      let old = current_candidates x m in
      let new = symbols_on x promoted in
      record { added = difference new old; removed = difference old new }

  unfoldable pub update :
      List (Stage1Result F)
      → CandidateStreamManager
      → CandidateStreamManager × (Exchange → SubscriptionDiff)
  update promoted m = (
    record {
      binance_symbols = symbols_on binance promoted;
      bybit_symbols = symbols_on bybit promoted;
    },
    λ x. diff_on x promoted m,
  )
