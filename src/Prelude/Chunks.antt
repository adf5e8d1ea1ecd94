-- ===== src/Prelude/Chunks.antt =====
-- A list cut into pieces of at most `n` items, `xs[i : i + n]` for each i in `range(0, len(xs), n)`.
use Prim.Native.Nat.{ℕ, zero, suc, ◌≤◌, ◌<◌}
use mathlib.Core.Path.{◌≡◌, refl, ap, ◌∙◌}
use mathlib.Core.List.{List, [], ◌∷◌, ◌++◌}
use native.Mathlib.Omega.{arith}
use binance_momentu.Prelude.Lists.{length, take, drop, All, length-drop, length-take-le}

module _ {ℓ} {A : Type ℓ} where
  abbrev pub concat_lists : List (List A) → List A
  concat_lists [] = []
  concat_lists (xs ∷ xss) = xs ++ concat_lists xss

  -- On fuel; as much as the list is long is enough.
  unfoldable pub chunk_loop : ℕ → ℕ → List A → List (List A)
  chunk_loop zero n xs = []
  chunk_loop (suc fuel) n [] = []
  chunk_loop (suc fuel) n (x ∷ xs) = take n (x ∷ xs) ∷ chunk_loop fuel n (drop n (x ∷ xs))

  unfoldable pub chunks : ℕ → List A → List (List A)
  chunks n xs = chunk_loop (length xs) n xs

  pub take-append-drop : (n : ℕ) (xs : List A) → take n xs ++ drop n xs ≡ xs
  take-append-drop zero xs = refl
  take-append-drop (suc n) [] = refl
  take-append-drop (suc n) (x ∷ xs) = ap (◌∷◌ x) (take-append-drop n xs)

  pub concat-chunk_loop :
      (fuel n : ℕ) (xs : List A)
      → 0 < n
      → length xs ≤ fuel
      → concat_lists (chunk_loop fuel n xs) ≡ xs
  unfolding chunk_loop
  concat-chunk_loop zero n [] h l = refl
  concat-chunk_loop zero n (x ∷ xs) h l = absurd (omega arith)
  concat-chunk_loop (suc fuel) n [] h l = refl
  concat-chunk_loop (suc fuel) n (x ∷ xs) h l =
      ap (λ ys. take n (x ∷ xs) ++ ys)
        (concat-chunk_loop fuel n (drop n (x ∷ xs)) h (omega (arith, length-drop n (x ∷ xs))))
      ∙ take-append-drop n (x ∷ xs)

  -- Between one item and `n`.
  abbrev pub IsChunk : ℕ → List A → Type 0
  IsChunk n xs = (0 < length xs) × (length xs ≤ n)

  length-take_cons : (n : ℕ) (x : A) (xs : List A) → 0 < n → 0 < length (take n (x ∷ xs))
  length-take_cons zero x xs h = absurd (omega arith)
  length-take_cons (suc n) x xs h = omega arith

  pub chunk_loop-IsChunk :
      (fuel n : ℕ) (xs : List A) → 0 < n → All (IsChunk n) (chunk_loop fuel n xs)
  unfolding chunk_loop
  chunk_loop-IsChunk zero n xs h = tt
  chunk_loop-IsChunk (suc fuel) n [] h = tt
  chunk_loop-IsChunk (suc fuel) n (x ∷ xs) h = (
    (length-take_cons n x xs h, length-take-le n (x ∷ xs)),
    chunk_loop-IsChunk fuel n (drop n (x ∷ xs)) h,
  )
