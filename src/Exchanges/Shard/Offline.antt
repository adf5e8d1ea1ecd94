-- ===== src/Exchanges/Shard/Offline.antt =====
-- Updates of the subscriptions while a shard has no connection, and what the next one subscribes.
use binance_momentu.Prelude.{
  ◌≡◌, ap, ◌∙◌, Bool, true, false, not, ◌&&◌, ◌||◌, if◌then◌else◌, List, [], ◌∷◌, String, arith,
}
use binance_momentu.Prelude.Sets.{
  contains, union, difference, meet, contains-union, contains-difference, contains-meet,
}
use binance_momentu.Domain.Enums.{subscribing, healthy}
use binance_momentu.Exchanges.Base.{is_live}
use binance_momentu.Exchanges.Shard.{
  Protocol, Shard, Method, subscribe, send_sub_message, send_some, updated, update_subscriptions,
  opened, settled,
}

-- An update: the symbols to add and those to remove.
abbrev pub Change : Type 0
Change = List String × List String

-- Whether a symbol is wanted after an update: one that was wanted stays unless it is removed, and
-- another one comes in if it is added.
abbrev pub wanted_next : String → Bool → Change → Bool
wanted_next x was (added, removed) = if was then not (contains x removed) else contains x added

abbrev pub wanted : String → Bool → List Change → Bool
wanted x was [] = was
wanted x was (c ∷ cs) = wanted x (wanted_next x was c) cs

-- Whether one of the updates removed the symbol while it was wanted.
abbrev pub was_removed : String → Bool → List Change → Bool
was_removed x was [] = false
was_removed x was ((added, removed) ∷ cs) =
    was && contains x removed || was_removed x (wanted_next x was (added, removed)) cs

abbrev pub is_offline : {F : Type 0} → Shard F → Bool
is_offline s = not s.has_ws || not (is_live s.state)

module _ {F : Type 0} (p : Protocol F) where
  unfoldable pub update_all : List Change → Shard F → Shard F
  update_all [] s = s
  update_all ((added, removed) ∷ cs) s = update_all cs (update_subscriptions p added removed s)

  pub contains-updated :
      (x : String) (added removed : List String) (s : Shard F)
      → contains x (updated p added removed s)
        ≡ wanted_next x (contains x s.symbols) (added, removed)
  contains-updated x added removed s = ground (
    arith,
    contains-difference x (union s.symbols (difference added s.symbols)) (meet removed s.symbols),
    contains-union x s.symbols (difference added s.symbols),
    contains-difference x added s.symbols,
    contains-meet x removed s.symbols,
  )

  pub symbols-send_some :
      (m : Method) (symbols : List String) (s : Shard F)
      → (send_some p m symbols s).symbols ≡ s.symbols
  unfolding send_some send_sub_message
  symbols-send_some m symbols s = ground arith

  symbols-opened :
      (now : F) (s : Shard F)
      → (opened p now s).symbols ≡ difference (union s.symbols s.pending_add) s.pending_remove
  unfolding opened
  symbols-opened now s = symbols-send_some subscribe _ _

  -- A symbol that waits to be added is in the set, or waits to be removed too.
  abbrev Waits : String → Shard F → Type 0
  Waits x s =
      contains x s.pending_add ≡ true → (contains x s.symbols || contains x s.pending_remove) ≡ true

  update_subscriptions_lem :
      (x : String) (added removed : List String) (s : Shard F)
      → is_offline s ≡ true
      → Waits x s
      → let s' = update_subscriptions p added removed s in
        (is_offline s' ≡ true)
        × Waits x s'
        × (contains x s'.symbols ≡ wanted_next x (contains x s.symbols) (added, removed))
        × (contains x s'.pending_remove
            ≡ (contains x s.pending_remove || (contains x s.symbols && contains x removed)))
  unfolding update_subscriptions
  update_subscriptions_lem x added removed s off w = ground (
    arith,
    contains-updated x added removed s,
    contains-union x s.pending_add (difference added s.symbols),
    contains-union x s.pending_remove (meet removed s.symbols),
    contains-difference x added s.symbols,
    contains-meet x removed s.symbols,
  )

  open-update_all :
      (x : String) (cs : List Change) (now : F) (s : Shard F)
      → is_offline s ≡ true
      → Waits x s
      → contains x (opened p now (update_all cs s)).symbols ≡ (
          wanted x (contains x s.symbols) cs
          && not (contains x s.pending_remove || was_removed x (contains x s.symbols) cs))
  unfolding update_all
  open-update_all x [] now s off w =
      ap (contains x) (symbols-opened now s)
      ∙ ground (
        arith,
        contains-difference x (union s.symbols s.pending_add) s.pending_remove,
        contains-union x s.symbols s.pending_add,
      )
  open-update_all x ((added, removed) ∷ cs) now s off w =
      let (off', w', next, gone) = update_subscriptions_lem x added removed s off w in
      open-update_all x cs now (update_subscriptions p added removed s) off' w'
      ∙ rw (next, gone) (ground arith)

  -- If a shard without a live connection has nothing pending, then after any updates the next
  -- connection owns exactly the wanted symbols that none of the updates removed: one that was
  -- removed and added again is lost, though it is wanted.
  pub contains-opened :
      (x : String) (cs : List Change) (now : F) (s : Shard F)
      → is_offline s ≡ true
      → s.pending_add ≡ []
      → s.pending_remove ≡ []
      → contains x (opened p now (update_all cs s)).symbols
        ≡ (wanted x (contains x s.symbols) cs && not (was_removed x (contains x s.symbols) cs))
  unfolding contains
  contains-opened x cs now s off a r =
      open-update_all x cs now s off (λ h. absurd (ground arith))
      ∙ ap
          (λ gone.
            wanted x (contains x s.symbols) cs
            && not (contains x gone || was_removed x (contains x s.symbols) cs))
          r

  -- While the subscription of a new connection is being sent, an update changes the symbols but
  -- sends nothing; the shard then turns healthy, with the change still unsent.
  pub settled-update_subscriptions :
      (x : String) (added removed : List String) (s : Shard F)
      → s.state ≡ subscribing
      → let s' = settled p (update_subscriptions p added removed s) in
        (contains x s'.symbols ≡ wanted_next x (contains x s.symbols) (added, removed))
        × (s'.sent ≡ s.sent)
        × (s'.state ≡ healthy)
  unfolding update_subscriptions settled
  settled-update_subscriptions x added removed s e =
      ground (arith, contains-updated x added removed s)
