-- ===== src/Config/Overrides.antt =====
-- app/config/settings.py: `_apply_env_overrides` and `load_settings`. `lower` is `str.lower`, and
-- `to_int` and `to_float` are `int` and `float` of a text, `none` for their ValueError. What the
-- files hold and what pydantic makes of the values are arguments.
pub mod Tables
pub mod Laws
pub mod Paths
pub mod Variables
use Prim.Native.Char.{code}
use Prim.Native.String.{◌++◌ as concat}
use package.text.Mathlib.Text.{starts_with}
use binance_momentu.Prelude.{
  ℕ, zero, suc, Bool, true, false, not, ◌&&◌, ◌||◌, if◌then◌else◌, ◌==◌, Option, none, some, List,
  [], ◌∷◌, ◌++◌, String, str_eq, Result, ok, raise, ◌>>=◌,
}
use binance_momentu.Prelude.Int.{ℤ, pos, negsuc}
use binance_momentu.Float.{Float, nought}
use binance_momentu.Config.Overrides.Tables.{
  Node, nothing, flag, integer, number, text, sequence, table, Nodes, nil, cons, is_filled, Table,
  end, entry, put, FieldPath,
}

-- The variables of the environment.
abbrev pub Environment : Type 0
Environment = List (String × String)

abbrev pub env_override_prefix : String
env_override_prefix = "CMH_"

-- `text[n:]`.
unfoldable pub after : ℕ → String → String
after zero s = s
after (suc n) String.[] = String.[]
after (suc n) (String.◌∷◌ c s) = after n s

abbrev pub first_of : String → FieldPath → FieldPath
first_of part (p, ps) = (part, p ∷ ps)

abbrev pub is_low_line : ℕ → Bool
is_low_line c = c == b'_'

-- `text.split("__")`, with the part that has been begun.
unfoldable pub split_from : (part : String) → String → FieldPath
split_from part String.[] = (part, [])
split_from part (String.◌∷◌ c String.[]) = (concat part (String.◌∷◌ c String.[]), [])
split_from part (String.◌∷◌ c (String.◌∷◌ d s)) =
    elim (is_low_line (code c) && is_low_line (code d)) [
      | true ↦ first_of part (split_from "" s)
      | false ↦ split_from (concat part (String.◌∷◌ c String.[])) (String.◌∷◌ d s)
    ]

unfoldable pub candidate_files : Option String → List String
candidate_files config_path =
    (elim config_path [ none ↦ [] | some path ↦ if str_eq path "" then [] else path ∷ [] ])
    ++ "config.yaml" ∷ "config.example.yaml" ∷ []

module _ {F : Type 0} where
  -- The values of the first file that exists, of which the empty ones count as no settings.
  unfoldable pub first_file :
      ⦃f : Float F⦄ → (String → Option (Result (Node F))) → List String → Result (Node F)
  first_file files [] = ok (table end)
  first_file files (c ∷ cs) = elim (files c) [
    | none ↦ first_file files cs
    | some loaded ↦ loaded >>= λ v. ok (if is_filled v then v else table end)
  ]

module _ {F : Type 0} (lower : String → String) (to_int : String → Option ℤ)
    (to_float : String → Option F) where
  -- The path of the setting that a variable names.
  unfoldable pub path_of : String → FieldPath
  unfolding after split_from
  path_of key = split_from "" (lower (after 4 key))

  unfoldable pub coerced : String → Node F
  coerced value =
      if str_eq (lower value) "true" || str_eq (lower value) "false"
      then flag (str_eq (lower value) "true")
      else elim (to_int value) [
        | some n ↦ integer n
        | none ↦ elim (to_float value) [ some x ↦ number x | none ↦ text value ]
      ]

  -- The body of the loop.
  unfoldable pub apply_override : String × String → Node F → Result (Node F)
  apply_override (key, value) data' =
      if starts_with key env_override_prefix
      then put (path_of key) (coerced value) data'
      else ok data'

  unfoldable pub apply_env_overrides : Environment → Node F → Result (Node F)
  apply_env_overrides [] data' = ok data'
  apply_env_overrides (v ∷ vs) data' = apply_override v data' >>= apply_env_overrides vs

  unfoldable pub load_settings :
      {S : Type 0}
      → ⦃f : Float F⦄ → (String → Option (Result (Node F)))
      → Environment
      → (Node F → Result S)
      → Option String
      → Result S
  unfolding first_file candidate_files
  load_settings files env validate config_path = do
    loaded ← first_file files (candidate_files config_path)
    data' ← apply_env_overrides env loaded
    validate data'
