-- ===== src/Pipeline/Keys.antt =====
-- The keys of the positions, and what a tick of the paper engine does to them.
use binance_momentu.Prelude.{
  ℕ, ◌≡◌, refl, sym, ap, ◌∙◌, if◌then◌else◌, List, [], ◌∷◌, ◌++◌, String, str_eq, Result, ok, arith,
  option-cases, result-cases, ok-injective, append_assoc, append-nil,
}
use binance_momentu.Prelude.Dict.{Dict, insert, remove, string_key}
use binance_momentu.Float.{Float}
use binance_momentu.Domain.Enums.{SignalState}
use binance_momentu.Execution.Paper.{PaperPosition, PaperTradingEngine, close, exit_of, update_loop}

abbrev pub keys : {V : Type 0} → Dict String V → List String
keys [] = []
keys ((k, v) ∷ m) = k ∷ keys m

-- `remove` and `insert` on the keys alone.
abbrev pub remove_key : String → List String → List String
remove_key k [] = []
remove_key k (j ∷ ks) = if str_eq j k then ks else j ∷ remove_key k ks

abbrev pub insert_key : String → List String → List String
insert_key k [] = k ∷ []
insert_key k (j ∷ ks) = if str_eq j k then j ∷ ks else j ∷ insert_key k ks

abbrev pub remove_keys : {F : Type 0} → List (PaperPosition F) → List String → List String
remove_keys [] ks = ks
remove_keys (p ∷ ps) ks = remove_keys ps (remove_key p.signal_id ks)

pub keys-remove :
    {V : Type 0} (k : String) (m : Dict String V) → keys (remove k m) ≡ remove_key k (keys m)
unfolding remove
keys-remove k [] = refl
keys-remove k ((j, v) ∷ m) = ground (arith, keys-remove k m)

pub keys-insert :
    {V : Type 0} (k : String) (v : V) (m : Dict String V)
    → keys (insert k v m) ≡ insert_key k (keys m)
unfolding insert
keys-insert k v [] = refl
keys-insert k v ((j, w) ∷ m) = ground (arith, keys-insert k v m)

module _ {F : Type 0} ⦃f : Float F⦄ where
  close-keys :
      (p : PaperPosition F) (price : F) (state : SignalState) (now : ℕ) (e : PaperTradingEngine F)
      (e' : PaperTradingEngine F) (p' : PaperPosition F)
      → close p price state now e ≡ ok (e', p')
      → (p'.signal_id ≡ p.signal_id)
        × (keys e'.open_positions ≡ remove_key p.signal_id (keys e.open_positions))
  unfolding close
  close-keys p price state now e e' p' h = ground (arith, keys-remove p.signal_id e.open_positions)

  -- The keys that a tick takes from the paper engine are the identifiers of what it returns.
  abbrev pub TakesKeys :
      List (PaperPosition F)
      → PaperTradingEngine F
      → PaperTradingEngine F × Result (List (PaperPosition F))
      → Type 0
  TakesKeys done e out =
      (closed : List (PaperPosition F))
      → out.1 ≡ ok closed
      → (new : List (PaperPosition F)) × (closed ≡ done ++ new)
        × (keys out.0.open_positions ≡ remove_keys new (keys e.open_positions))

  pub update_loop-TakesKeys :
      (symbol exchange : String) (price : F) (now : ℕ) (m : List (String × PaperPosition F))
      (done : List (PaperPosition F)) (e : PaperTradingEngine F)
      → TakesKeys done e (update_loop symbol exchange price now m done e)
  unfolding update_loop
  update_loop-TakesKeys symbol exchange price now [] done e =
      λ closed h. ([], sym (ok-injective h) ∙ sym (append-nil done), refl)
  update_loop-TakesKeys symbol exchange price now ((k, p) ∷ m) done e =
      let rest = update_loop-TakesKeys symbol exchange price now m in
      option-cases (TakesKeys done e) (exit_of symbol exchange price p) (λ _. rest done e)
        (λ s _.
          result-cases (TakesKeys done e) (close p price s now e) (λ x _ closed h. absurd cc)
            (λ a c closed h.
              let (new, same, left) = rest (done ++ a.1 ∷ []) a.0 closed h in
              let (id, gone) = close-keys p price s now e a.0 a.1 c in
              (
                a.1 ∷ new,
                same ∙ append_assoc done (a.1 ∷ []) new,
                left
                    ∙ ap (remove_keys new)
                        (gone ∙ ap (λ i. remove_key i (keys e.open_positions)) (sym id)),
              )))
