-- ===== src/Prelude/Sets.antt =====
-- Sets of texts as lists. The order of a list is an accident, and no theorem speaks of it.
use Prim.Native.String.{String}
use mathlib.Core.Path.{◌≡◌, refl}
use mathlib.Core.Bool.{Bool, false, not, ◌&&◌, ◌||◌}
use mathlib.Core.List.{List, [], ◌∷◌}
use native.Mathlib.Omega.{arith}
use text.Mathlib.Text.{◌==◌ as str_eq}
use text.Mathlib.TextEquality.{eq_iff}
use binance_momentu.Prelude.Tests.{if◌then◌else◌}

-- `x in s`.
unfoldable pub contains : String → List String → Bool
contains x [] = false
contains x (y ∷ ys) = str_eq y x || contains x ys

abbrev pub add : String → List String → List String
add x ys = if contains x ys then ys else x ∷ ys

-- `xs - ys`.
unfoldable pub difference : List String → List String → List String
difference [] ys = []
difference (x ∷ xs) ys = let rest = difference xs ys in if contains x ys then rest else x ∷ rest

-- `xs | ys`.
unfoldable pub union : List String → List String → List String
union xs [] = xs
union xs (y ∷ ys) = let rest = union xs ys in if contains y rest then rest else y ∷ rest

-- `xs & ys`.
unfoldable pub meet : List String → List String → List String
meet [] ys = []
meet (x ∷ xs) ys = let rest = meet xs ys in if contains x ys then x ∷ rest else rest

pub contains-difference :
    (x : String) (xs ys : List String)
    → contains x (difference xs ys) ≡ (contains x xs && not (contains x ys))
unfolding contains difference
contains-difference x [] ys = refl
contains-difference x (z ∷ xs) ys = ground (arith, contains-difference x xs ys, eq_iff z x)

pub contains-union :
    (x : String) (xs ys : List String) → contains x (union xs ys) ≡ (contains x xs || contains x ys)
unfolding contains union
contains-union x xs [] = ground arith
contains-union x xs (y ∷ ys) = ground (arith, contains-union x xs ys, eq_iff y x)

pub contains-meet :
    (x : String) (xs ys : List String) → contains x (meet xs ys) ≡ (contains x xs && contains x ys)
unfolding contains meet
contains-meet x [] ys = refl
contains-meet x (z ∷ xs) ys = ground (arith, contains-meet x xs ys, eq_iff z x)
