-- ===== src/Float.antt =====
-- Python's `float`, which the code computes with throughout, as an interface: the type, its
-- operations and its comparisons. No operation is taken to be exact, and a comparison may answer
-- as it does at NaN. `Laws` states what the theorems use of it, and `Fixed` meets that by decimals.
pub mod Laws
pub mod Fixed
use binance_momentu.Prelude.{
  ℕ, ◌≡◌, Bool, true, false, if◌then◌else◌, Result, Error, ok, raise, List, [], ◌∷◌,
}

-- `lit m k` is the literal m / 10^k, `of_int` the conversion of an `int`. `div` and `sqrt` are the
-- operations away from the arguments at which Python raises. `sum` is the builtin, which rounds in
-- another way than repeated additions do from Python 3.12 on.
pub record Float (F : Type 0) : Type 0 where
  pub add : F → F → F
  pub sub : F → F → F
  pub mul : F → F → F
  pub div : F → F → F
  pub neg : F → F
  pub abs : F → F
  pub sqrt : F → F
  pub le : F → F → Bool
  pub lt : F → F → Bool
  pub eq : F → F → Bool
  pub lit : ℕ → ℕ → F
  pub of_int : ℕ → F
  pub sum : List F → F

module _ {F : Type 0} ⦃f : Float F⦄ where
  infixl 65 ◌⊕◌ ◌⊖◌
  infixl 70 ◌⊗◌ ◌⊘◌
  infix 50 ◌≤?◌ ◌<?◌ ◌≼◌ ◌≺◌
  abbrev pub ◌⊕◌ : F → F → F
  ◌⊕◌ = f.add

  abbrev pub ◌⊖◌ : F → F → F
  ◌⊖◌ = f.sub

  abbrev pub ◌⊗◌ : F → F → F
  ◌⊗◌ = f.mul

  abbrev pub ◌⊘◌ : F → F → F
  ◌⊘◌ = f.div

  abbrev pub ◌≤?◌ : F → F → Bool
  ◌≤?◌ = f.le

  abbrev pub ◌<?◌ : F → F → Bool
  ◌<?◌ = f.lt

  abbrev pub ◌≼◌ : F → F → Type 0
  x ≼ y = f.le x y ≡ true

  abbrev pub ◌≺◌ : F → F → Type 0
  x ≺ y = f.lt x y ≡ true

  abbrev pub neg : F → F
  neg = f.neg

  abbrev pub abs : F → F
  abs = f.abs

  abbrev pub lit : ℕ → ℕ → F
  lit = f.lit

  abbrev pub of_int : ℕ → F
  of_int = f.of_int

  -- 0.0
  abbrev pub nought : F
  nought = f.lit 0 0

  -- The constant `EPSILON = 1e-9` of several modules.
  abbrev pub epsilon : F
  epsilon = f.lit 1 9

  -- The builtin `max(a, b)` and `min(a, b)`: the first argument unless the second passes it.
  abbrev pub max : F → F → F
  max a b = if a <? b then b else a

  abbrev pub min : F → F → F
  min a b = if b <? a then b else a

  abbrev pub sum : List F → F
  sum = f.sum

  -- `a / b` with Python's exception.
  abbrev pub divide : F → F → Result F
  divide a b = if f.eq b nought then raise Error.zero_division else ok (a ⊘ b)

  -- `math.sqrt(a)` with Python's exception.
  abbrev pub square_root : F → Result F
  square_root a = if a <? nought then raise Error.value_error else ok (f.sqrt a)
