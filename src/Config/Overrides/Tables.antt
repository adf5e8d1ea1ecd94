-- ===== src/Config/Overrides/Tables.antt =====
-- Nested tables of settings, as YAML and the loop of `_apply_env_overrides` make them, and the
-- assignment at a path.
use binance_momentu.Prelude.{
  zero, suc, Bool, true, false, not, if◌then◌else◌, Option, none, some, List, [], ◌∷◌, String,
  str_eq, Result, Error, ok, raise, ◌>>=◌,
}
use binance_momentu.Prelude.Int.{ℤ, pos, negsuc}
use binance_momentu.Float.{Float, nought}

-- The keys of a table are all different texts.
mutual
  pub data Node (F : Type 0) : Type 0 where
    nothing : Node F
    flag : Bool → Node F
    integer : ℤ → Node F
    number : F → Node F
    text : String → Node F
    sequence : Nodes F → Node F
    table : Table F → Node F

  pub data Nodes (F : Type 0) : Type 0 where
    nil : Nodes F
    cons : Node F → Nodes F → Nodes F

  pub data Table (F : Type 0) : Type 0 where
    end : Table F
    entry : String → Node F → Table F → Table F

-- The first part of a path and the others.
abbrev pub FieldPath : Type 0
FieldPath = String × List String

-- `bool(value)`.
abbrev pub is_filled : {F : Type 0} → ⦃f : Float F⦄ → Node F → Bool
is_filled nothing = false
is_filled (flag b) = b
is_filled (integer (pos zero)) = false
is_filled (integer (pos (suc n))) = true
is_filled (integer (negsuc n)) = true
is_filled ⦃f⦄ (number x) = not (f.eq x nought)
is_filled (text s) = not (str_eq s "")
is_filled (sequence nil) = false
is_filled (sequence (cons v vs)) = true
is_filled (table end) = false
is_filled (table (entry k v t)) = true

-- What a call of `setdefault` raises on what is no table, and what an assignment raises.
abbrev pub refusal : List String → Error
refusal [] = Error.type_error
refusal (p ∷ ps) = Error.attribute_error

module _ {F : Type 0} where
  unfoldable pub entry_of : String → Table F → Option (Node F)
  entry_of key end = none
  entry_of key (entry k v t) = let rest = entry_of key t in if str_eq k key then some v else rest

  -- `table[key] = value`.
  unfoldable pub set_entry : String → Node F → Table F → Table F
  set_entry key v end = entry key v end
  set_entry key v (entry k w t) =
      let rest = set_entry key v t in if str_eq k key then entry k v t else entry k w rest

  -- `node.setdefault(part, {})` gives a table to go on with, or what refuses the next step.
  abbrev pub child : List String → Option (Node F) → Result (Table F)
  child ps none = ok end
  child ps (some (table c)) = ok c
  child ps (some v) = raise (refusal ps)

  -- The assignment at a path of a table.
  unfoldable pub put_at : String → List String → Node F → Table F → Result (Table F)
  put_at part [] value t = ok (set_entry part value t)
  put_at part (p ∷ ps) value t = do
    c ← child ps (entry_of part t)
    u ← put_at p ps value c
    ok (set_entry part (table u) t)

  unfoldable pub put : FieldPath → Node F → Node F → Result (Node F)
  unfolding put_at
  put (p, ps) value (table t) = put_at p ps value t >>= λ u. ok (table u)
  put (p, ps) value _ = raise (refusal ps)

  abbrev pub subtable : Option (Node F) → Option (Table F)
  subtable (some (table c)) = some c
  subtable _ = none

  -- What stands at a path.
  unfoldable pub value_at : String → List String → Table F → Option (Node F)
  value_at part [] t = entry_of part t
  value_at part (p ∷ ps) t = elim (subtable (entry_of part t)) [
    | none ↦ none
    | some c ↦ value_at p ps c
  ]

  unfoldable pub setting : FieldPath → Node F → Option (Node F)
  unfolding value_at
  setting (p, ps) (table t) = value_at p ps t
  setting (p, ps) _ = none
