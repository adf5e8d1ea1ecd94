-- ===== src/Float/Fixed.antt =====
-- Decimals with twelve places as a `Float`: it runs the tests, and shows that the laws can be met.
use binance_momentu.Prelude.{
  ℕ, zero, suc, ◌+◌, ◌*◌, ◌/◌, ◌^◌, ◌≤◌, ◌≡◌, refl, false, arith, List, [], ◌∷◌, ltb, leb,
  if◌then◌else◌, ◌&&◌,
}
use binance_momentu.Prelude.Int.{
  ℤ, pos, negsuc, pos_part, neg_part, sub_ℕ, ◌+ℤ◌, ◌-ℤ◌, ◌*ℤ◌, ltb_ℤ, leb_ℤ,
}
use binance_momentu.Float.{Float}
use binance_momentu.Float.Laws.{IsOrdered}

-- The number of units of 10^-12.
pub record Fixed : Type 0 where
  pub units : ℤ

abbrev pub scale : ℕ
scale = 10 ^ 12

abbrev of_units : ℤ → Fixed
of_units z = record { units = z }

-- Division of the magnitudes, towards zero.
abbrev div_ℤ : ℤ → ℕ → ℤ
div_ℤ a n = sub_ℕ (pos_part a / n) (neg_part a / n)

abbrev quotient : ℤ → ℤ → ℤ
quotient a b =
    div_ℤ (if ltb 0 (pos_part b) then a *ℤ pos scale else pos 0 -ℤ a *ℤ pos scale)
      (pos_part b + neg_part b)

-- The integer square root, by doubling the root of a quarter.
abbrev root : ℕ → ℕ → ℕ
root zero n = 0
root (suc fuel) n =
    let half = 2 * root fuel (n / 4) in if leb ((half + 1) * (half + 1)) n then half + 1 else half

abbrev total : List Fixed → Fixed
total [] = of_units (pos 0)
total (x ∷ xs) = of_units (x.units +ℤ (total xs).units)

instance abbrev pub fixed_float : Float Fixed
fixed_float = record {
  add = λ a b. of_units (a.units +ℤ b.units);
  sub = λ a b. of_units (a.units -ℤ b.units);
  mul = λ a b. of_units (div_ℤ (a.units *ℤ b.units) scale);
  div = λ a b. of_units (quotient a.units b.units);
  neg = λ a. of_units (pos 0 -ℤ a.units);
  abs = λ a. of_units (pos (pos_part a.units + neg_part a.units));
  sqrt = λ a. of_units (pos (root 64 (pos_part a.units * scale)));
  le = λ a b. leb_ℤ a.units b.units;
  lt = λ a b. ltb_ℤ a.units b.units;
  eq = λ a b. leb_ℤ a.units b.units && leb_ℤ b.units a.units;
  lit = λ m k. of_units (pos (m * scale / 10 ^ k));
  of_int = λ n. of_units (pos (n * scale));
  sum = total;
}

div_mono : (m n d : ℕ) → m ≤ n → m / d ≤ n / d
div_mono m n d h = grind arith

quotient_not_neg :
    (a b : ℤ)
    → ltb_ℤ a (pos 0) ≡ false
    → leb_ℤ b (pos 0) ≡ false
    → ltb_ℤ (quotient a b) (pos 0) ≡ false
quotient_not_neg (pos m) (pos n) h k = ground arith
quotient_not_neg (pos m) (negsuc n) h k = absurd (ground arith)
quotient_not_neg (negsuc m) (pos n) h k = absurd (ground arith)
quotient_not_neg (negsuc m) (negsuc n) h k = absurd (ground arith)

-- The decimals meet the laws.
pub Fixed-IsOrdered : IsOrdered Fixed
Fixed-IsOrdered = record {
  le_trans = λ x y z h k. ground arith;
  le_of_lt = λ x y h. ground arith;
  not_lt_of_le = λ x y h. ground arith;
  le_of_not_lt = λ x y _ _ h. ground arith;
  number_left = λ x y h. ground arith;
  number_right = λ x y h. ground arith;
  lit_mono = λ m n k h. ground (arith, div_mono (m * scale) (n * scale) (10 ^ k));
  lt_of_le_of_lt = λ x y z h k. ground arith;
  lt_of_lt_of_le = λ x y z h k. ground arith;
  div_not_neg = λ x y h k. quotient_not_neg x.units y.units h k;
  not_eq_of_lt = λ x h. ground arith;
  nought-lt-one = refl;
  nought-lt-epsilon = refl;
}
