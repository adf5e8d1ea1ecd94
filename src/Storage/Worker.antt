-- ===== src/Storage/Worker.antt =====
-- What the worker writes once the storage is stopped.
use binance_momentu.Prelude.{
  if◌then◌else◌, ℕ, zero, suc, ◌<◌, ◌≡◌, refl, ap, Option, none, some, ◌⊎◌, inl, inr, Option-cases,
  List, [], ◌∷◌, take, drop, is_empty, arith,
}
use binance_momentu.Storage.{
  Item, Storage, batch_size, drain_more, drain_batch, execute_all, write_batch, turn,
}

module _ {F : Type 0} where
  drain_more_lem :
      (n : ℕ) (queue : List (Item F)) → drain_more n queue ≡ (take n queue, drop n queue)
  unfolding drain_more
  drain_more_lem zero queue = refl
  drain_more_lem (suc n) [] = refl
  drain_more_lem (suc n) (x ∷ queue) =
      ap (λ (p : List (Item F) × List (Item F)). (x ∷ p.0, p.1)) (drain_more_lem n queue)

  -- A batch is the front of the queue.
  pub drain_batch_lem :
      (n : ℕ) (queue : List (Item F)) → 0 < n → drain_batch n queue ≡ (take n queue, drop n queue)
  unfolding drain_batch
  drain_batch_lem zero queue h = absurd (omega arith)
  drain_batch_lem (suc n) [] h = refl
  drain_batch_lem (suc n) (x ∷ queue) h =
      ap (λ (p : List (Item F) × List (Item F)). (x ∷ p.0, p.1)) (drain_more_lem n queue)

module _ {F Db : Type 0} (execute : Item F → Db → Option Db) where
  -- The batches, each in a transaction of its own.
  abbrev pub write_all : List (List (Item F)) → Db → Db
  write_all [] db = db
  write_all (b ∷ bs) db = write_all bs (write_batch execute b db)

  -- The statements of a batch run one after the other, none raising.
  abbrev pub Runs : List (Item F) → Db → Db → Type 0
  Runs [] before after = before ≡ after
  Runs (x ∷ xs) before after = (db : Db) × (execute x before ≡ some db) × Runs xs db after

  -- One of the statements of a batch raises, after those before it have run.
  abbrev pub Stops : List (Item F) → Db → Type 0
  Stops [] before = ⊥
  Stops (x ∷ xs) before =
      (execute x before ≡ none) ⊎ ((db : Db) × (execute x before ≡ some db) × Stops xs db)

  -- The batch is committed as a whole, or a statement raises and the database is as before.
  abbrev pub IsTransaction : List (Item F) → Db → Db → Type 0
  IsTransaction batch before after =
      Runs batch before after ⊎ (Stops batch before × (after ≡ before))

  -- A transaction for each batch, one after the other.
  abbrev pub AreTransactions : List (List (Item F)) → Db → Db → Type 0
  AreTransactions [] before after = before ≡ after
  AreTransactions (b ∷ bs) before after =
      (db : Db) × IsTransaction b before db × AreTransactions bs db after

  execute_all-Runs :
      (xs : List (Item F)) (before : Db)
      → ((after : Db) × (execute_all execute xs before ≡ some after) × Runs xs before after)
        ⊎ ((execute_all execute xs before ≡ none) × Stops xs before)
  unfolding execute_all
  execute_all-Runs [] before = inl (before, refl, refl)
  execute_all-Runs (x ∷ xs) before = elim (Option-cases (execute x before)) [
    | inl e ↦ inr (rw (e, execute_all) refl, inl e)
    | inr (db, e) ↦ elim (execute_all-Runs xs db) [
      | inl (after, same, runs) ↦ inl (after, rw (e, execute_all) same, (db, e, runs))
      | inr (same, stops) ↦ inr (rw (e, execute_all) same, inr (db, e, stops))
    ]
  ]

  write_batch-IsTransaction :
      (batch : List (Item F)) (before : Db)
      → IsTransaction batch before (write_batch execute batch before)
  unfolding write_batch
  write_batch-IsTransaction batch before = elim (execute_all-Runs batch before) [
    | inl (after, same, runs) ↦ inl (rw (same, write_batch) runs)
    | inr (same, stops) ↦ inr (stops, rw (same, write_batch) refl)
  ]

  pub write_all-AreTransactions :
      (bs : List (List (Item F))) (before : Db) → AreTransactions bs before (write_all bs before)
  write_all-AreTransactions [] before = refl
  write_all-AreTransactions (b ∷ bs) before = (
    write_batch execute b before,
    write_batch-IsTransaction b before,
    write_all-AreTransactions bs (write_batch execute b before),
  )

  pub turn_lem :
      (s : Storage F) (db : Db)
      → turn execute s db ≡ (
        record s { queue = drop batch_size s.queue },
        (let batch = take batch_size s.queue in
            if is_empty batch then db else write_batch execute batch db),
      )
  unfolding turn
  turn_lem s db =
      ap
        (λ (p : List (Item F) × List (Item F)).
          (record s { queue = p.1 }, if is_empty p.0 then db else write_batch execute p.0 db))
        (drain_batch_lem batch_size s.queue (omega arith))
