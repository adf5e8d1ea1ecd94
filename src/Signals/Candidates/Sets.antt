-- ===== src/Signals/Candidates/Sets.antt =====
-- The candidate sets and the subscription changes that lead from one to the next.
use binance_momentu.Prelude.{
  ◌≡◌, refl, Bool, false, not, ◌&&◌, ◌||◌, List, [], ◌∷◌, String, str_eq, eq_iff, arith,
}
use binance_momentu.Prelude.Sets.{contains, contains-difference}
use binance_momentu.Domain.Enums.{Exchange, binance, bybit}
use binance_momentu.Features.Store.{same_exchange}
use binance_momentu.Signals.Candidates.{
  Stage1Result, CandidateStreamManager, is_candidate, symbols_on, diff_on, update,
}

-- The symbol is promoted on the exchange.
abbrev pub is_promoted : {F : Type 0} → Exchange → String → List (Stage1Result F) → Bool
is_promoted x symbol [] = false
is_promoted x symbol (r ∷ rs) =
    same_exchange r.exchange x && str_eq r.symbol symbol || is_promoted x symbol rs

contains-symbols_on :
    {F : Type 0} (x : Exchange) (s : String) (rs : List (Stage1Result F))
    → contains s (symbols_on x rs) ≡ is_promoted x s rs
unfolding contains symbols_on
contains-symbols_on x s [] = refl
contains-symbols_on x s (r ∷ rs) = ground (arith, contains-symbols_on x s rs, eq_iff r.symbol s)

module _ {F : Type 0} where
  -- After an update the candidates of an exchange are exactly the symbols promoted on it.
  pub is_candidate-update :
      (promoted : List (Stage1Result F)) (m : CandidateStreamManager) (x : Exchange) (s : String)
      → is_candidate x s (update promoted m).0 ≡ is_promoted x s promoted
  unfolding is_candidate update
  is_candidate-update promoted m binance s = contains-symbols_on binance s promoted
  is_candidate-update promoted m bybit s = contains-symbols_on bybit s promoted

  -- The reported change is minimal and exact: what is added is promoted and was no candidate, what
  -- is removed was one and is not promoted, and no symbol that stays a candidate is touched. So the
  -- old set without the removed and with the added is the new set.
  pub update_diff :
      (promoted : List (Stage1Result F)) (m : CandidateStreamManager) (x : Exchange) (s : String)
      → let (m', diffs) = update promoted m in
        let was = is_candidate x s m in
        let now = is_candidate x s m' in
        let added = contains s (diffs x).added in
        let removed = contains s (diffs x).removed in
        (added ≡ (now && not was))
        × (removed ≡ (was && not now))
        × (now ≡ (was && not removed || added))
  unfolding is_candidate update diff_on
  update_diff promoted m binance s =
      let new = symbols_on binance promoted in
      let old = m.binance_symbols in
      ground (arith, contains-difference s new old, contains-difference s old new)
  update_diff promoted m bybit s =
      let new = symbols_on bybit promoted in
      let old = m.bybit_symbols in
      ground (arith, contains-difference s new old, contains-difference s old new)
