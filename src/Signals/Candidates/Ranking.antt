-- ===== src/Signals/Candidates/Ranking.antt =====
-- What the ranking promotes.
use binance_momentu.Prelude.{
  ℕ, zero, suc, ◌+◌, ◌≤◌, ◌<◌, ◌≡◌, refl, ap, sym, subst, ◌∙◌, Bool, false, ◌&&◌, if◌then◌else◌,
  List, [], ◌∷◌, ◌++◌, length, take, drop, length-take-le, arith,
}
use binance_momentu.Float.{Float, ◌<?◌}
use binance_momentu.Float.Laws.{IsOrdered}
use binance_momentu.Config.{StrategyConfig}
use binance_momentu.Signals.Candidates.{
  Stage1Result, rank, eligible_only, place, ranked, rank_and_promote,
}

-- No item ranks below the one after it.
abbrev pub IsRanked : {F : Type 0} ⦃f : Float F⦄ → List (Stage1Result F) → Type 0
IsRanked [] = Unit
IsRanked (x ∷ []) = Unit
IsRanked (x ∷ y ∷ ys) = ((rank x <? rank y) ≡ false) × IsRanked (y ∷ ys)

-- How many of the items pass a test.
pub count : {A : Type 0} → (A → Bool) → List A → ℕ
count q [] = 0
count q (x ∷ xs) = (if q x then 1 else 0) + count q xs

take-append-drop : {A : Type 0} (n : ℕ) (xs : List A) → take n xs ++ drop n xs ≡ xs
take-append-drop zero xs = refl
take-append-drop (suc n) [] = refl
take-append-drop (suc n) (x ∷ xs) = ap (λ t. x ∷ t) (take-append-drop n xs)

full_take : {A : Type 0} (n : ℕ) (xs : List A) → 0 < length (drop n xs) → length (take n xs) ≡ n
full_take zero xs h = refl
full_take (suc n) [] h = absurd (omega arith)
full_take (suc n) (x ∷ xs) h = ap suc (full_take n xs h)

module _ {F : Type 0} ⦃f : Float F⦄ where
  place-IsRanked :
      (laws : IsOrdered F) (r : Stage1Result F) (xs : List (Stage1Result F))
      → IsRanked xs
      → IsRanked (place r xs)
  unfolding place
  place-IsRanked laws r [] h = tt
  place-IsRanked laws r (x ∷ []) h =
      ground (arith, laws.le_of_lt (rank r) (rank x), laws.not_lt_of_le (rank r) (rank x))
  place-IsRanked laws r (x ∷ y ∷ ys) h = ground (
    arith,
    laws.le_of_lt (rank r) (rank x),
    laws.not_lt_of_le (rank r) (rank x),
    place-IsRanked laws r (y ∷ ys) h.1,
  )

  ranked-IsRanked : (laws : IsOrdered F) (rs : List (Stage1Result F)) → IsRanked (ranked rs)
  unfolding ranked
  ranked-IsRanked laws [] = tt
  ranked-IsRanked laws (r ∷ rs) = place-IsRanked laws r (ranked rs) (ranked-IsRanked laws rs)

  count-place :
      (q : Stage1Result F → Bool) (r : Stage1Result F) (xs : List (Stage1Result F))
      → count q (place r xs) ≡ count q (r ∷ xs)
  unfolding place count
  count-place q r [] = refl
  count-place q r (x ∷ xs) = ground (arith, count-place q r xs)

  count-ranked :
      (q : Stage1Result F → Bool) (rs : List (Stage1Result F))
      → count q (ranked (eligible_only rs)) ≡ count (λ r. r.eligible && q r) rs
  unfolding ranked eligible_only count
  count-ranked q [] = refl
  count-ranked q (r ∷ rs) =
      ground (arith, count-ranked q rs, count-place q r (ranked (eligible_only rs)))

  -- The promoted are at most `candidate_max` and in the order of the rank; with those left out
  -- after them they are the eligible among the results, each as often as there, and still in the
  -- order of the rank; and none is left out unless there are `candidate_max` promoted.
  pub rank_and_promote_lem :
      (laws : IsOrdered F) (results : List (Stage1Result F)) (s : StrategyConfig F)
      → let promoted = rank_and_promote results s in
        (length promoted ≤ s.candidate_max)
        × ((left_out : List (Stage1Result F)) × IsRanked (promoted ++ left_out)
            × ((q : Stage1Result F → Bool)
                → count q (promoted ++ left_out) ≡ count (λ r. r.eligible && q r) results)
            × (0 < length left_out → length promoted ≡ s.candidate_max))
  unfolding rank_and_promote
  rank_and_promote_lem laws results s =
      let found = ranked (eligible_only results) in
      let n = s.candidate_max in
      let parts = take-append-drop n found in
      (
        length-take-le n found,
        (
          drop n found,
          subst IsRanked (sym parts) (ranked-IsRanked laws (eligible_only results)),
          λ q. ap (count q) parts ∙ count-ranked q results,
          λ some_left. full_take n found some_left,
        ),
      )
