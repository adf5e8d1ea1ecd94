-- ===== src/Prelude/Results.antt =====
-- The exceptions of the code as values, with the chaining that `do` blocks use.
use mathlib.Core.Path.{◌≡◌, refl}
use mathlib.Core.Bool.{Bool}
use mathlib.Core.Option.{Option, none}
use binance_momentu.Prelude.Tests.{if◌then◌else◌}

pub data Error : Type 0 where
  value_error zero_division overflow_error type_error key_error : Error
  index_error attribute_error os_error other_error : Error

pub data Result {ℓ} (A : Type ℓ) : Type ℓ where
  ok : A → Result A
  raise : Error → Result A

infixl 5 ◌>>=◌
abbrev pub ◌>>=◌ {ℓ κ} : {A : Type ℓ} {B : Type κ} → Result A → (A → Result B) → Result B
ok a >>= f = f a
raise e >>= f = raise e

-- A property of a match on a result, from its two cases.
pub result-cases {ℓ κ μ} :
    {A : Type ℓ} {B : Type κ} (P : B → Type μ) (m : Result A) {x : Error → B} {g : A → B}
    → ((e : Error) → m ≡ raise e → P (x e))
    → ((a : A) → m ≡ ok a → P (g a))
    → P (elim m [ raise e ↦ x e | ok a ↦ g a ])
result-cases P (raise e) f h = f e refl
result-cases P (ok a) f h = h a refl

pub ok-injective {ℓ} : {A : Type ℓ} {a b : A} → ok a ≡ ok b → a ≡ b
ok-injective e = cc

pub raise-injective {ℓ} :
    {A : Type ℓ} {e e' : Error} → ◌≡◌ {A = Result A} (raise e) (raise e') → e ≡ e'
raise-injective h = cc

-- The parts of a chain that succeeded.
pub >>=-eq-ok {ℓ κ} :
    {A : Type ℓ} {B : Type κ} (m : Result A) (g : A → Result B) {b : B}
    → (m >>= g) ≡ ok b
    → (a : A) × (m ≡ ok a) × (g a ≡ ok b)
>>=-eq-ok (ok a) g h = (a, refl, h)
>>=-eq-ok (raise e) g h = cc

-- `try` with a handler that returns `None`.
abbrev pub or_none : {A : Type 0} → (Error → Bool) → Result (Option A) → Result (Option A)
or_none caught (ok o) = ok o
or_none caught (raise e) = if caught e then ok none else raise e
