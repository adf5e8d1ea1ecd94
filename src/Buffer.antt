-- ===== src/Buffer.antt =====
-- app/buffer/ring_buffer.py: `PriorityRingBuffer`, a bounded buffer with one queue for each priority
-- class. The lock makes each method one step. A raised `BufferOverloadError` is the outcome
-- `overload`, beside the state that the method leaves.
pub mod Bounds
pub mod Accounting
pub mod Order
pub mod States
pub mod Sink
use binance_momentu.Prelude.{
  ℕ, zero, suc, ◌+◌, ◌≤◌, ◌<◌, ◌≡◌, refl, Bool, true, false, if◌then◌else◌, ltb, leb, ◌==◌, Option,
  none, some, List, [], ◌∷◌, ◌++◌, length, arith, Bool-cases, inl, inr, ltb→lt,
}
use binance_momentu.Float.{Float, ◌⊘◌, ◌≤?◌, of_int}
use binance_momentu.Domain.Enums.{
  EventPriority, p0, p1, p2, p3, IngestionState, normal, lossy_mode, data_overload,
}

-- A `dict` with a value for each `EventPriority`.
pub record PerPriority (A : Type 0) : Type 0 where
  pub at0 : A
  pub at1 : A
  pub at2 : A
  pub at3 : A

module _ {A : Type 0} where
  abbrev pub get : PerPriority A → EventPriority → A
  get d p0 = d.at0
  get d p1 = d.at1
  get d p2 = d.at2
  get d p3 = d.at3

  abbrev pub put : PerPriority A → EventPriority → A → PerPriority A
  put d p0 v = record d { at0 = v }
  put d p1 v = record d { at1 = v }
  put d p2 v = record d { at2 = v }
  put d p3 v = record d { at3 = v }

  abbrev pub all_at : A → PerPriority A
  all_at v = record { at0 = v; at1 = v; at2 = v; at3 = v }

-- `event.priority`.
pub record Prioritized (E : Type 0) : Type 0 where
  pub priority : E → EventPriority

pub record RingBuffer (F E : Type 0) : Type 0 where
  pub capacity : ℕ
  pub high_watermark : F
  pub p0_overload_watermark : F
  pub recovery_watermark : F
  pub queues : PerPriority (List E)
  pub state : IngestionState
  pub dropped_total : ℕ
  pub dropped_by_priority : PerPriority ℕ
  pub p0_protected_overflow_events : ℕ

pub data Outcome : Type 0 where
  returned : Bool → Outcome
  overload : Outcome

pub record BufferMetrics (F : Type 0) : Type 0 where
  pub capacity : ℕ
  pub size : ℕ
  pub utilization : F
  pub state : IngestionState
  pub counts_by_priority : PerPriority ℕ
  pub dropped_total : ℕ
  pub dropped_by_priority : PerPriority ℕ
  pub p0_protected_overflow_events : ℕ

abbrev pub total : PerPriority ℕ → ℕ
total d = d.at0 + d.at1 + d.at2 + d.at3

abbrev pub counts : {E : Type 0} → PerPriority (List E) → PerPriority ℕ
counts q = record { at0 = length q.at0; at1 = length q.at1; at2 = length q.at2; at3 = length q.at3 }

module _ {E : Type 0} where
  -- `while q and len(out) < max_items: out.append(q.popleft())`: what is taken, and what stays.
  unfoldable pub drain : List E → ℕ → List E → List E × List E
  drain out max_items [] = (out, [])
  drain out max_items (e ∷ q) =
      let rest = drain (out ++ e ∷ []) max_items q in
      if ltb (length out) max_items then rest else (out, e ∷ q)

module _ {F E : Type 0} where
  abbrev pub size : RingBuffer F E → ℕ
  size b = total (counts b.queues)

  -- `popleft` of the queue of class `p`, counted as a drop.
  abbrev pub drop_oldest : EventPriority → E → List E → RingBuffer F E → RingBuffer F E
  drop_oldest p oldest rest b = record b {
    queues = put b.queues p rest;
    dropped_total = b.dropped_total + 1;
    dropped_by_priority = put b.dropped_by_priority p (get b.dropped_by_priority p + 1);
  }

  abbrev pub append : EventPriority → E → RingBuffer F E → RingBuffer F E
  append p e b = record b { queues = put b.queues p (get b.queues p ++ e ∷ []) }

  -- The emergency branch: P1 gives way to P0 alone.
  unfoldable pub drop_p1 : EventPriority → RingBuffer F E → RingBuffer F E × Bool
  drop_p1 p0 b = elim b.queues.at1 [
    | [] ↦ (b, false)
    | oldest ∷ rest ↦ (drop_oldest p1 oldest rest b, true)
  ]
  drop_p1 p b = (b, false)

  unfoldable pub drop_lower_priority_locked : EventPriority → RingBuffer F E → RingBuffer F E × Bool
  unfolding drop_p1
  drop_lower_priority_locked incoming b = elim b.queues.at3 [
    | oldest ∷ rest ↦ (drop_oldest p3 oldest rest b, true)
    | [] ↦ elim b.queues.at2 [
      | oldest ∷ rest ↦ (drop_oldest p2 oldest rest b, true)
      | [] ↦ drop_p1 incoming b
    ]
  ]

module _ {F E : Type 0} ⦃f : Float F⦄ where
  unfoldable pub utilization : RingBuffer F E → F
  utilization b = of_int (size b) ⊘ of_int b.capacity

  unfoldable pub next_state : IngestionState → RingBuffer F E → IngestionState
  next_state data_overload b = data_overload
  next_state s b =
      if b.p0_overload_watermark ≤? utilization b
      then lossy_mode
      else (if b.high_watermark ≤? utilization b
          then lossy_mode
          else if utilization b ≤? b.recovery_watermark
          then normal
          else s)

  unfoldable pub update_state_locked : RingBuffer F E → RingBuffer F E
  unfolding next_state
  update_state_locked b = record b { state = next_state b.state b }

  -- What `push` does where no slot could be freed.
  unfoldable pub refuse : EventPriority → RingBuffer F E → RingBuffer F E × Outcome
  refuse p0 b = (
    record b {
      p0_protected_overflow_events = b.p0_protected_overflow_events + 1;
      state = data_overload;
    },
    overload,
  )
  refuse p b = (
    update_state_locked (record b {
      dropped_total = b.dropped_total + 1;
      dropped_by_priority = put b.dropped_by_priority p (get b.dropped_by_priority p + 1);
    }),
    returned false,
  )

  unfoldable pub push_at : EventPriority → E → RingBuffer F E → RingBuffer F E × Outcome
  unfolding refuse
  push_at p e b =
      if ltb (size b) b.capacity
      then (update_state_locked (append p e b), returned true)
      else (let (b', freed) = drop_lower_priority_locked p b in
          if freed then (update_state_locked (append p e b'), returned true) else refuse p b')

  -- A case rule: `push` has room, or frees a slot, or refuses.
  pub push_at_cases {ℓ} :
      (P : RingBuffer F E × Outcome → Type ℓ) (p : EventPriority) (e : E) (b : RingBuffer F E)
      → (size b < b.capacity → P (update_state_locked (append p e b), returned true))
      → (b.capacity ≤ size b
          → (drop_lower_priority_locked p b).1 ≡ true
          → P (update_state_locked (append p e (drop_lower_priority_locked p b).0), returned true))
      → (b.capacity ≤ size b
          → (drop_lower_priority_locked p b).1 ≡ false
          → P (refuse p (drop_lower_priority_locked p b).0))
      → P (push_at p e b)
  unfolding push_at
  push_at_cases P p e b room freed full = elim (Bool-cases (ltb (size b) b.capacity)) [
    | inl t ↦ rw t (room (ltb→lt _ _ t))
    | inr n ↦ rw n (elim (Bool-cases (drop_lower_priority_locked p b).1) [
      | inl t ↦ rw t (freed (ground arith) t)
      | inr m ↦ rw m (full (ground arith) m)
    ])
  ]

  unfoldable pub push : ⦃h : Prioritized E⦄ → E → RingBuffer F E → RingBuffer F E × Outcome
  push ⦃h⦄ e b = push_at (h.priority e) e b

  unfoldable pub acknowledge_recovery : RingBuffer F E → RingBuffer F E
  acknowledge_recovery b =
      if utilization b ≤? b.recovery_watermark then record b { state = normal } else b

  unfoldable pub pop_batch : ℕ → RingBuffer F E → RingBuffer F E × List E
  pop_batch max_items b =
      let (out0, q0) = drain [] max_items b.queues.at0 in
      let (out1, q1) = drain out0 max_items b.queues.at1 in
      let (out2, q2) = drain out1 max_items b.queues.at2 in
      let (out3, q3) = drain out2 max_items b.queues.at3 in
      (
        update_state_locked
            (record b { queues = record { at0 = q0; at1 = q1; at2 = q2; at3 = q3 } }),
        out3,
      )

  unfoldable pub pop_one : RingBuffer F E → RingBuffer F E × Option E
  unfolding pop_batch
  pop_one b = let (b', batch) = pop_batch 1 b in (b', elim batch [ [] ↦ none | e ∷ rest ↦ some e ])

  pub metrics : RingBuffer F E → BufferMetrics F
  metrics b = record {
    capacity = b.capacity;
    size = total (counts b.queues);
    utilization = of_int (total (counts b.queues)) ⊘ of_int b.capacity;
    state = b.state;
    counts_by_priority = counts b.queues;
    dropped_total = b.dropped_total;
    dropped_by_priority = b.dropped_by_priority;
    p0_protected_overflow_events = b.p0_protected_overflow_events;
  }

-- `__init__`, with its `ValueError` as `none`.
unfoldable pub init : {F E : Type 0} → ℕ → F → F → F → Option (RingBuffer F E)
init capacity high overload_mark recovery =
    if leb capacity 0
    then none
    else some (record {
      capacity = capacity;
      high_watermark = high;
      p0_overload_watermark = overload_mark;
      recovery_watermark = recovery;
      queues = all_at [];
      state = normal;
      dropped_total = 0;
      dropped_by_priority = all_at 0;
      p0_protected_overflow_events = 0;
    })
