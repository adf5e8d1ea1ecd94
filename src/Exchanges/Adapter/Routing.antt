-- ===== src/Exchanges/Adapter/Routing.antt =====
-- Which symbols the shards of an adapter own after an update.
use binance_momentu.Prelude.{
  ℕ, ◌≡◌, refl, ap, ◌∙◌, Bool, true, false, not, ◌&&◌, ◌||◌, if◌then◌else◌, Option, none, some,
  List, [], ◌∷◌, String, is_empty, arith, str_eq,
}
use binance_momentu.Prelude.Sets.{contains, meet, difference, contains-meet, contains-difference}
use binance_momentu.Exchanges.Shard.{
  Protocol, Shard, subscribe, unsubscribe, send_some, updated, update_subscriptions,
}
use binance_momentu.Exchanges.Shard.Offline.{contains-updated, symbols-send_some}
use binance_momentu.Domain.Enums.{Exchange}
use binance_momentu.Signals.Candidates.{Stage1Result, CandidateStreamManager, is_candidate, update}
use binance_momentu.Signals.Candidates.Sets.{update_diff}
use binance_momentu.Exchanges.Adapter.{
  Adapter, remove_owned, least_load, add_at_load, add_balanced, update_adapter,
  max_symbols_per_shard, sync_shard,
}

-- Whether one of the shards owns the symbol.
unfoldable pub owns : {F : Type 0} → String → List (Shard F) → Bool
owns x [] = false
owns x (s ∷ ss) = contains x s.symbols || owns x ss

module _ {F : Type 0} (p : Protocol F) where
  symbols-update_subscriptions :
      (added removed : List String) (s : Shard F)
      → (update_subscriptions p added removed s).symbols ≡ updated p added removed s
  unfolding update_subscriptions
  symbols-update_subscriptions added removed s =
      let add' = difference added s.symbols in
      let s' = record s { symbols = updated p added removed s } in
      ground (
        arith,
        symbols-send_some p unsubscribe (meet removed s.symbols) (send_some p subscribe add' s'),
        symbols-send_some p subscribe add' s',
      )

  pub contains-update_subscriptions :
      (x : String) (added removed : List String) (s : Shard F)
      → contains x (update_subscriptions p added removed s).symbols
        ≡ (if contains x s.symbols then not (contains x removed) else contains x added)
  contains-update_subscriptions x added removed s =
      ap (contains x) (symbols-update_subscriptions added removed s)
      ∙ contains-updated p x added removed s

  contains-is_empty : (x : String) (xs : List String) → is_empty xs ≡ true → contains x xs ≡ false
  unfolding contains
  contains-is_empty x [] e = refl
  contains-is_empty x (y ∷ ys) e = ground arith

  owns-remove_owned :
      (x : String) (removed : List String) (ss : List (Shard F))
      → owns x (remove_owned p removed ss) ≡ (owns x ss && not (contains x removed))
  unfolding owns remove_owned contains
  owns-remove_owned x removed [] = refl
  owns-remove_owned x removed (s ∷ ss) = ground (
    arith,
    owns-remove_owned x removed ss,
    contains-meet x s.symbols removed,
    contains-is_empty x (meet s.symbols removed),
    contains-update_subscriptions x [] (meet s.symbols removed) s,
  )

  owns-add_at_load :
      (x y : String) (load : ℕ) (ss : List (Shard F))
      → str_eq y x ≡ false
      → owns x (add_at_load p load y ss) ≡ owns x ss
  unfolding owns add_at_load contains
  owns-add_at_load x y load [] e = refl
  owns-add_at_load x y load (s ∷ ss) e =
      ground (arith, owns-add_at_load x y load ss e, contains-update_subscriptions x (y ∷ []) [] s)

  abbrev add_one : Option ℕ → String → List (Shard F) → List (Shard F)
  add_one o y ss = elim o [ none ↦ ss | some load ↦ add_at_load p load y ss ]

  owns-add_one :
      (x y : String) (o : Option ℕ) (ss : List (Shard F))
      → str_eq y x ≡ false
      → owns x (add_one o y ss) ≡ owns x ss
  owns-add_one x y none ss e = refl
  owns-add_one x y (some load) ss e = owns-add_at_load x y load ss e

  owns-add_balanced :
      (x : String) (room : ℕ) (added : List String) (ss : List (Shard F))
      → contains x added ≡ false
      → owns x (add_balanced p room added ss) ≡ owns x ss
  unfolding add_balanced contains
  owns-add_balanced x room [] ss e = refl
  owns-add_balanced x room (y ∷ ys) ss e =
      owns-add_balanced x room ys (add_one (least_load room ss) y ss) (ground arith)
      ∙ owns-add_one x y (least_load room ss) ss (ground arith)

  -- `sync_candidate_book_ticker_stream` leaves the candidates' shard with exactly the wanted symbols.
  pub contains-sync_shard :
      (x : String) (symbols : List String) (s : Shard F)
      → contains x (sync_shard p symbols s).symbols ≡ contains x symbols
  unfolding sync_shard
  contains-sync_shard x symbols s = ground (
    arith,
    contains-difference x symbols s.symbols,
    contains-difference x s.symbols symbols,
    contains-is_empty x (difference symbols s.symbols),
    contains-is_empty x (difference s.symbols symbols),
    contains-update_subscriptions x (difference symbols s.symbols) (difference s.symbols symbols) s,
  )

module _ {F : Type 0} where
  -- For a symbol that an update does not add: some shard owns it afterwards exactly if one did
  -- before and the update does not remove it.
  pub owns-update_adapter :
      (x : String) (added removed : List String) (a : Adapter F)
      → contains x added ≡ false
      → owns x (update_adapter added removed a).shards
        ≡ (owns x a.shards && not (contains x removed))
  unfolding update_adapter
  owns-update_adapter x added removed a h =
      owns-add_balanced a.protocol x (max_symbols_per_shard a.limits) added
        (remove_owned a.protocol removed a.shards) h
      ∙ owns-remove_owned a.protocol x removed a.shards

  -- When the change of the candidates is applied to the adapter, as a stage 1 cycle does, a symbol
  -- that does not become a candidate keeps a shard only if it was none before or is one still: a
  -- demoted one loses the streams that it had as a member of the universe.
  pub owns-update_adapter_diff :
      (x : String) (e : Exchange) (promoted : List (Stage1Result F)) (m : CandidateStreamManager)
      (a : Adapter F)
      → let (m', diffs) = update promoted m in
        (is_candidate e x m' ≡ true → is_candidate e x m ≡ true)
        → owns x (update_adapter (diffs e).added (diffs e).removed a).shards
          ≡ (owns x a.shards && (not (is_candidate e x m) || is_candidate e x m'))
  owns-update_adapter_diff x e promoted m a h =
      let (m', diffs) = update promoted m in
      let (added, removed, _) = update_diff promoted m e x in
      owns-update_adapter x (diffs e).added (diffs e).removed a (ground arith)
      ∙ ap (λ r. owns x a.shards && not r) removed
      ∙ ground arith
