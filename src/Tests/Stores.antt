-- ===== src/Tests/Stores.antt =====
-- The theorems on the storage, applied to a database that is a list of texts.
use binance_momentu.Prelude.{
  refl, true, if◌then◌else◌, Option, none, some, List, [], ◌∷◌, ◌++◌, String, str_eq, arith,
}
use binance_momentu.Float.Fixed.{Fixed, fixed_float}
use binance_momentu.Storage.{Item, system_health, Storage, new_storage, safe_put}
use binance_momentu.Storage.Queueing.{Desk, puts, takes, Reach, here, later, new_desk}

-- A snapshot is appended, unless it is `"bad"`.
abbrev execute : Item Fixed → List String → Option (List String)
execute (system_health text now) db = if str_eq text "bad" then none else some (db ++ text ∷ [])
execute _ db = some db

abbrev first : Item Fixed
first = system_health "{}" 1

abbrev second : Item Fixed
second = system_health "bad" 2

abbrev stopped : Storage Fixed
stopped = record (new_storage 5) { queue = first ∷ second ∷ []; is_stopping = true }

abbrev put_once : Desk Fixed (List String)
put_once = record (new_desk 1 []) {
  storage = record (new_storage 1) { queue = first ∷ [] };
  accepted = first ∷ [];
}

abbrev taken_once : Desk Fixed (List String)
taken_once = record put_once { storage = new_storage 1; in_hand = first ∷ [] }

abbrev working : Reach execute (new_desk 1 []) taken_once
unfolding safe_put
working =
    later (later here (puts first (new_desk 1 []))) (takes first [] put_once refl (omega arith))

abbrev desk : Desk Fixed (List String)
desk = record (new_desk 5 []) { storage = stopped; accepted = first ∷ second ∷ [] }
