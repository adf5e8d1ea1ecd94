-- ===== src/Float/Laws.antt =====
-- What the theorems use of `float`. A value is a number if it is `<=` itself: NaN is not. Each law
-- holds of IEEE 754 doubles.
use binance_momentu.Prelude.{ℕ, ◌≤◌, ◌≡◌, false, arith}
use binance_momentu.Float.{Float, ◌≼◌, ◌≺◌, max, min}

module _ {F : Type 0} ⦃f : Float F⦄ where
  abbrev pub IsNumber : F → Type 0
  IsNumber x = x ≼ x

pub record IsOrdered (F : Type 0) ⦃f : Float F⦄ : Type 0 where
  pub le_trans : (x y z : F) → x ≼ y → y ≼ z → x ≼ z
  pub le_of_lt : (x y : F) → x ≺ y → x ≼ y
  pub not_lt_of_le : (x y : F) → x ≼ y → f.lt y x ≡ false
  -- Between numbers, `<` is the negation of `>=`.
  pub le_of_not_lt : (x y : F) → x ≼ x → y ≼ y → f.lt y x ≡ false → x ≼ y
  pub number_left : (x y : F) → x ≼ y → x ≼ x
  pub number_right : (x y : F) → x ≼ y → y ≼ y
  -- Literals are numbers, in the order of the decimals that they write.
  pub lit_mono : (m n k : ℕ) → m ≤ n → f.lit m k ≼ f.lit n k
  pub lt_of_le_of_lt : (x y z : F) → x ≼ y → y ≺ z → x ≺ z
  pub lt_of_lt_of_le : (x y z : F) → x ≺ y → y ≼ z → x ≺ z
  -- What is not negative, over what is not zero or less, is not negative.
  pub div_not_neg :
      (x y : F)
      → f.lt x (f.lit 0 0) ≡ false
      → f.le y (f.lit 0 0) ≡ false
      → f.lt (f.div x y) (f.lit 0 0) ≡ false
  -- What is above zero is not equal to it.
  pub not_eq_of_lt : (x : F) → f.lit 0 0 ≺ x → f.eq x (f.lit 0 0) ≡ false
  pub nought-lt-one : f.lit 0 0 ≺ f.lit 1 0
  pub nought-lt-epsilon : f.lit 0 0 ≺ f.lit 1 9

module _ {F : Type 0} ⦃f : Float F⦄ (laws : IsOrdered F) where
  open laws use {le_trans, le_of_lt, not_lt_of_le, le_of_not_lt, number_left, number_right}

  -- `max` of a number and anything is at least that number; `min` at most it.
  pub le-max : (x y : F) → x ≼ x → x ≼ max x y
  le-max x y n = ground (arith, le_of_lt x y)

  pub min-le : (x y : F) → x ≼ x → min x y ≼ x
  min-le x y n = ground (arith, le_of_lt y x)

  -- Clamping to a range lands in the range, whatever is clamped.
  pub clamp_bounds : (lo hi x : F) → lo ≼ hi → (lo ≼ max lo (min hi x)) × (max lo (min hi x) ≼ hi)
  clamp_bounds lo hi x h =
      ground
        (arith, number_left lo hi h, number_right lo hi h, le_of_lt lo (min hi x), le_of_lt x hi)
