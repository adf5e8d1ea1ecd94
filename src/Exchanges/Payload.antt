-- ===== src/Exchanges/Payload.antt =====
-- The decoded JSON that the normalisers of app/exchanges read, and how they read it. `float` and
-- `int` on such a value are the argument `Reader`; times are not negative.
use binance_momentu.Prelude.{
  ℕ, zero, suc, Bool, true, false, not, if◌then◌else◌, Option, none, some, String, str_eq, Result,
  Error, ok, raise, ◌>>=◌,
}
use binance_momentu.Float.{Float, nought}
use binance_momentu.Domain.Enums.{Exchange, EventType, EventPriority}
use binance_momentu.Domain.Events.{DomainEvent}

-- The keys of an object are all different.
mutual
  pub data Json (F : Type 0) : Type 0 where
    null : Json F
    flag : Bool → Json F
    number : F → Json F
    integer : ℕ → Json F
    text : String → Json F
    array : Items F → Json F
    object : Fields F → Json F

  pub data Items (F : Type 0) : Type 0 where
    nil : Items F
    cons : Json F → Items F → Items F

  pub data Fields (F : Type 0) : Type 0 where
    end : Fields F
    field : String → Json F → Fields F → Fields F

pub record Reader (F : Type 0) : Type 0 where
  pub to_float : Json F → Result F
  pub to_int : Json F → Result ℕ

module _ {F : Type 0} where
  -- `data.get(key)`.
  unfoldable pub find : String → Fields F → Option (Json F)
  find key end = none
  find key (field k v fs) = let rest = find key fs in if str_eq k key then some v else rest

  -- `data[key]`.
  abbrev pub required : String → Fields F → Result (Json F)
  required key fs = elim (find key fs) [ none ↦ raise Error.key_error | some v ↦ ok v ]

  -- `value[key]` for a text.
  abbrev pub subscript : String → Json F → Result (Json F)
  subscript key (object fs) = required key fs
  subscript key _ = raise Error.type_error

  -- Whether the value is that text.
  abbrev pub is_text : String → Json F → Bool
  is_text s (text t) = str_eq t s
  is_text s _ = false

  -- A field of an event that must be a text.
  abbrev pub as_text : Json F → Result String
  as_text (text t) = ok t
  as_text _ = raise Error.value_error

  abbrev pub as_object : Json F → Result (Fields F)
  as_object (object fs) = ok fs
  as_object _ = raise Error.type_error

  -- What has a method `get`.
  abbrev pub with_get : Json F → Result (Fields F)
  with_get (object fs) = ok fs
  with_get _ = raise Error.attribute_error

  abbrev pub items_at : ℕ → Items F → Result (Json F)
  items_at n nil = raise Error.index_error
  items_at zero (cons v vs) = ok v
  items_at (suc n) (cons v vs) = items_at n vs

  abbrev pub chars_at : ℕ → String → Result (Json F)
  chars_at n String.[] = raise Error.index_error
  chars_at zero (String.◌∷◌ c s) = ok (text (String.◌∷◌ c String.[]))
  chars_at (suc n) (String.◌∷◌ c s) = chars_at n s

  -- `value[n]`.
  unfoldable pub item : ℕ → Json F → Result (Json F)
  item n (array vs) = items_at n vs
  item n (text s) = chars_at n s
  item n (object fs) = raise Error.key_error
  item n _ = raise Error.type_error

  abbrev pub not_null : Json F → Option (Json F)
  not_null null = none
  not_null v = some v

  -- `data.get(key)`, where a `null` counts as missing.
  unfoldable pub present : String → Fields F → Option (Json F)
  present key fs = elim (find key fs) [ none ↦ none | some v ↦ not_null v ]

  unfoldable pub float_at : Reader F → String → Fields F → Result F
  float_at r key fs = required key fs >>= r.to_float

  unfoldable pub int_at : Reader F → String → Fields F → Result ℕ
  int_at r key fs = required key fs >>= r.to_int

  -- `float(data[key]) if key in data else None`, and the same with `int`.
  unfoldable pub float_if_there : Reader F → String → Fields F → Result (Option F)
  float_if_there r key fs = elim (find key fs) [
    | none ↦ ok none
    | some v ↦ r.to_float v >>= λ x. ok (some x)
  ]

  unfoldable pub int_if_there : Reader F → String → Fields F → Result (Option ℕ)
  int_if_there r key fs = elim (find key fs) [
    | none ↦ ok none
    | some v ↦ r.to_int v >>= λ n. ok (some n)
  ]

  -- `int(data.get(key, default))`.
  unfoldable pub int_or : Reader F → ℕ → String → Fields F → Result ℕ
  int_or r default key fs = elim (find key fs) [ none ↦ ok default | some v ↦ r.to_int v ]

  -- `float(data.get(key, default))`.
  unfoldable pub float_or : Reader F → F → String → Fields F → Result F
  float_or r default key fs = elim (find key fs) [ none ↦ ok default | some v ↦ r.to_float v ]

  -- `float(data[key]) if data.get(key) is not None else None`.
  unfoldable pub float_if_present : Reader F → String → Fields F → Result (Option F)
  float_if_present r key fs = elim (present key fs) [
    | none ↦ ok none
    | some v ↦ r.to_float v >>= λ x. ok (some x)
  ]

-- The base of an event that is made at the time `later`.
abbrev pub base_at :
    Exchange → EventType → EventPriority → (symbol : String) → (timestamp later : ℕ) → DomainEvent
base_at x t p symbol timestamp later = record {
  exchange = x;
  symbol = symbol;
  event_type = t;
  exchange_timestamp = timestamp;
  local_ingest_timestamp = later;
  priority = p;
  sequence = none;
}

module _ {F : Type 0} ⦃f : Float F⦄ where
  -- `bool(value)`.
  abbrev pub truthy : Json F → Bool
  truthy null = false
  truthy (flag b) = b
  truthy (number x) = not (f.eq x nought)
  truthy (integer n) = elim n [ zero ↦ false | suc m ↦ true ]
  truthy (text t) = not (str_eq t "")
  truthy (array nil) = false
  truthy (array (cons x xs)) = true
  truthy (object end) = false
  truthy (object (field k v fs)) = true

  -- `data.get(key)`, where a value that counts as false is missing.
  unfoldable pub filled : String → Fields F → Option (Json F)
  filled key fs = elim (find key fs) [ none ↦ none | some v ↦ if truthy v then some v else none ]
