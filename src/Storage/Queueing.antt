-- ===== src/Storage/Queueing.antt =====
-- The storage and its worker as a system of steps: what is put while the worker takes and writes.
use binance_momentu.Prelude.{
  ℕ, zero, suc, subst, ◌+◌, ◌≤◌, ◌<◌, ◌≡◌, refl, ap, sym, ◌∙◌, Option, List, [], ◌∷◌, ◌++◌, length,
  take, drop, is_empty, All, length-append, if◌then◌else◌, arith, append_assoc, append-nil,
}
use binance_momentu.Prelude.Chunks.{concat_lists, IsChunk}
use binance_momentu.Storage.{
  Item, Storage, batch_size, new_storage, start, stop, is_full, safe_put, write_batch, turn,
}
use binance_momentu.Storage.Worker.{write_all, AreTransactions, turn_lem}

-- The storage, the batch that the worker is putting together, the database; and the items that the
-- queue took in and the batches that were written, from the start on.
pub record Desk (F Db : Type 0) : Type 0 where
  pub storage : Storage F
  pub in_hand : List (Item F)
  pub db : Db
  pub accepted : List (Item F)
  pub batches : List (List (Item F))

-- What each task does in one go: a put, the change of the flag, taking an item for the batch, and
-- writing the batch. The worker may write when it finds the queue empty, so at any size.
pub data Step {F Db : Type 0} (execute : Item F → Db → Option Db)
    : Desk F Db → Desk F Db → Type 0 where
  puts :
      (x : Item F) (d : Desk F Db)
      → Step execute d (record d {
        storage = safe_put x d.storage;
        accepted = if is_full d.storage then d.accepted else d.accepted ++ x ∷ [];
      })
  starts : (d : Desk F Db) → Step execute d (record d { storage = start d.storage })
  stops : (d : Desk F Db) → Step execute d (record d { storage = stop d.storage })
  takes :
      (x : Item F) (q : List (Item F)) (d : Desk F Db)
      → d.storage.queue ≡ x ∷ q
      → length d.in_hand < batch_size
      → Step execute d
          (record d { storage = record d.storage { queue = q }; in_hand = d.in_hand ++ x ∷ [] })
  writes :
      (d : Desk F Db)
      → 0 < length d.in_hand
      → Step execute d (record d {
        in_hand = [];
        db = write_batch execute d.in_hand d.db;
        batches = d.batches ++ d.in_hand ∷ [];
      })

pub data Reach {F Db : Type 0} (execute : Item F → Db → Option Db) (d : Desk F Db)
    : Desk F Db → Type 0 where
  here : Reach execute d d
  later : {t u : Desk F Db} → Reach execute d t → Step execute t u → Reach execute d u

abbrev pub new_desk : {F Db : Type 0} → ℕ → Db → Desk F Db
new_desk size db = record {
  storage = new_storage size;
  in_hand = [];
  db = db;
  accepted = [];
  batches = [];
}

-- From the database `db` at the start on.
record IsKept {F Db : Type 0} (execute : Item F → Db → Option Db) (size : ℕ) (db : Db)
    (d : Desk F Db) : Type 0 where
  -- What the queue took in was written, is in hand, or is in the queue, in that order.
  pub first_in_first_out : concat_lists d.batches ++ (d.in_hand ++ d.storage.queue) ≡ d.accepted
  pub written : d.db ≡ write_all execute d.batches db
  pub sizes : All (IsChunk batch_size) d.batches
  pub fits : length d.in_hand ≤ batch_size
  pub same_size : d.storage.queue_max_size ≡ size
  pub bounded : 0 < size → length d.storage.queue ≤ size

module _ {F Db : Type 0} (execute : Item F → Db → Option Db) where
  abbrev with_queue : List (Item F) → List (Item F) → Desk F Db → Desk F Db
  with_queue q held d = record d { storage = record d.storage { queue = q }; in_hand = held }

  joined : {d e g : Desk F Db} → Reach execute d e → Reach execute e g → Reach execute d g
  joined r here = r
  joined r (later s step) = later (joined r s) step

  -- The worker takes up to `n` items, one after the other.
  take_steps :
      (n : ℕ) (q held : List (Item F)) (d : Desk F Db)
      → length held + n ≤ batch_size
      → Reach execute (with_queue q held d) (with_queue (drop n q) (held ++ take n q) d)
  take_steps zero q held d l =
      subst (λ xs. Reach execute (with_queue q held d) (with_queue q xs d)) (sym (append-nil held))
        here
  take_steps (suc n) [] held d l =
      subst (λ xs. Reach execute (with_queue [] held d) (with_queue [] xs d))
        (sym (append-nil held)) here
  take_steps (suc n) (x ∷ q) held d l =
      let next = held ++ x ∷ [] in
      joined (later here (takes x q (with_queue (x ∷ q) held d) refl (omega arith))) (
        subst (λ xs. Reach execute (with_queue q next d) (with_queue (drop n q) xs d))
          (append_assoc held (x ∷ []) (take n q))
          (take_steps n q next d (omega (arith, length-append held (x ∷ [])))))

  turn_steps :
      (q : List (Item F)) (d : Desk F Db)
      → (e : Desk F Db) × Reach execute (with_queue q [] d) e
        × (e.storage ≡ record d.storage { queue = drop batch_size q })
        × (e.db ≡ (
            if is_empty (take batch_size q)
            then d.db
            else write_batch execute (take batch_size q) d.db))
        × (e.in_hand ≡ [])
  turn_steps [] d = (with_queue [] [] d, here, refl, refl, refl)
  turn_steps (x ∷ q) d =
      let taken = take_steps batch_size (x ∷ q) [] d (omega arith) in
      (_, later taken (writes _ (omega arith)), refl, refl, refl)

  -- One turn of the worker's loop is steps of the system: it takes items one by one and writes the
  -- batch, and leads to the same storage and the same database.
  pub turn-Reach :
      (d : Desk F Db)
      → d.in_hand ≡ []
      → let (s, db) = turn execute d.storage d.db in
        (e : Desk F Db) × Reach execute d e × (e.storage ≡ s) × (e.db ≡ db) × (e.in_hand ≡ [])
  turn-Reach d e =
      let (t, steps, storage, db, done) = turn_steps d.storage.queue d in
      let same = turn_lem execute d.storage d.db in
      (
        t,
        subst (λ held. Reach execute (with_queue d.storage.queue held d) t) (sym e) steps,
        storage ∙ ap (λ (p : Storage F × Db). p.0) (sym same),
        db ∙ ap (λ (p : Storage F × Db). p.1) (sym same),
        done,
      )

-- What has become of all the items that the queue took in, from the database `db` at the start on,
-- and that a turn of the worker goes on from there.
pub record IsInOrder {F Db : Type 0} (execute : Item F → Db → Option Db) (size : ℕ) (db : Db)
    (d : Desk F Db) : Type 0 where
  pub first_in_first_out : concat_lists d.batches ++ (d.in_hand ++ d.storage.queue) ≡ d.accepted
  pub written : AreTransactions execute d.batches db d.db
  pub sizes : All (IsChunk batch_size) d.batches
  pub bounded : 0 < size → length d.storage.queue ≤ size
  pub turns :
      d.in_hand ≡ []
      → let (s, db') = turn execute d.storage d.db in
        (e : Desk F Db) × Reach execute d e × (e.storage ≡ s) × (e.db ≡ db') × (e.in_hand ≡ [])
