-- ===== src/Tests/Variables.antt =====
-- The theorems on the overrides of the settings, applied.
use package.text.Mathlib.Text.{starts_with}
use binance_momentu.Prelude.{
  ◌≡◌, refl, true, false, if◌then◌else◌, Option, none, some, [], ◌∷◌, ◌++◌, String, str_eq, Error,
  ok, raise,
}
use binance_momentu.Prelude.Int.{ℤ, pos}
use binance_momentu.Float.Fixed.{Fixed, fixed_float}
use binance_momentu.Config.Overrides.Tables.{
  Node, integer, text, table, end, entry, FieldPath, entry_of, set_entry, put, setting,
}
use binance_momentu.Config.Overrides.{
  Environment, env_override_prefix, path_of, coerced, apply_override, apply_env_overrides,
}
use binance_momentu.Config.Overrides.Variables.{
  is_blocked, Parts, path, Coerces, apply_override_lem,
}

-- The values here are in lower case, and one number occurs.
abbrev lower : String → String
lower s = s

abbrev to_int : String → Option ℤ
to_int s = if str_eq s "500" then some (pos 500) else none

abbrev to_float : String → Option Fixed
to_float s = none

abbrev loaded : Node Fixed
loaded = table (entry "buffer" (table (entry "capacity" (integer (pos 10)) end)) end)

abbrev changed : Node Fixed
changed = table (entry "buffer" (table (entry "capacity" (integer (pos 500)) end)) end)

path_parts : path lower to_int to_float "CMH_buffer__capacity" ≡ ("buffer", "capacity" ∷ [])
unfolding path_of
path_parts = refl

abbrev capacity : FieldPath
capacity = ("buffer", "capacity" ∷ [])

apply_override_lem_example :
    let result = apply_override lower to_int to_float ("CMH_buffer__capacity", "500") loaded in
    (is_blocked capacity loaded ≡ false
      → (out : Node Fixed) × (v : Node Fixed) × (result ≡ ok out)
        × (setting capacity out ≡ some v)
        × Coerces lower to_int to_float "500" v
        × ((q : FieldPath) → Parts capacity q → setting q out ≡ setting q loaded))
    × (is_blocked capacity loaded ≡ true → (e : Error) × (result ≡ raise e))
    × (starts_with "HOME" env_override_prefix ≡ false
        → apply_override lower to_int to_float ("HOME", "500") loaded ≡ ok loaded)
apply_override_lem_example =
    apply_override_lem lower to_int to_float "CMH_buffer__capacity" "500" loaded capacity "HOME"
      ("buffer__capacity", refl, refl, refl, (refl, tt))

abbrev home : Environment
home = ("HOME", "/root") ∷ []

all_applied :
    apply_env_overrides lower to_int to_float
      (home ++ ("CMH_buffer__capacity", "500") ∷ home)
      loaded
    ≡ ok changed
unfolding apply_env_overrides apply_override path_of coerced put entry_of set_entry
all_applied = refl
