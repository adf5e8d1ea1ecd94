-- ===== src/Tests/Buffers.antt =====
-- The theorems on the buffer, applied to small buffers of priority classes.
use binance_momentu.Prelude.{ℕ, ◌≤◌, ◌≡◌, ◌↔◌, refl, List, [], ◌∷◌}
use binance_momentu.Float.{lit}
use binance_momentu.Float.Fixed.{Fixed, fixed_float}
use binance_momentu.Domain.Enums.{
  EventPriority, p0, p1, p2, p3, IngestionState, normal, data_overload, lossy_mode,
}
use binance_momentu.Buffer.{
  RingBuffer, PerPriority, Prioritized, overload, size, init, all_at, push, pop_batch, push_at,
  drop_lower_priority_locked, drop_p1, update_state_locked,
}
use binance_momentu.Buffer.Accounting.{accounted, accounted-push}
use binance_momentu.Buffer.Order.{contents, DropsInOrder, push-DropsInOrder, pop_batch_lem}
use binance_momentu.Buffer.States.{
  HoldsP0Only, Call, pushes, pops, acknowledges, run, Inv, run-init-Inv, push-overload_iff,
}

-- An event that is its priority.
instance abbrev own_priority : Prioritized EventPriority
own_priority = record { priority = λ p. p }

abbrev with_queues :
    ℕ → IngestionState → PerPriority (List EventPriority) → RingBuffer Fixed EventPriority
with_queues capacity state queues = record {
  capacity = capacity;
  high_watermark = lit 80 2;
  p0_overload_watermark = lit 95 2;
  recovery_watermark = lit 70 2;
  queues = queues;
  state = state;
  dropped_total = 0;
  dropped_by_priority = all_at 0;
  p0_protected_overflow_events = 0;
}

abbrev empty : RingBuffer Fixed EventPriority
empty = with_queues 2 normal (all_at [])

-- Full: a P1 and two P2.
abbrev full : RingBuffer Fixed EventPriority
full = with_queues 3 lossy_mode (record { at0 = []; at1 = p1 ∷ []; at2 = p2 ∷ p2 ∷ []; at3 = [] })

-- Full of events of class P0.
abbrev critical : RingBuffer Fixed EventPriority
critical = with_queues 2 lossy_mode (record { at0 = p0 ∷ p0 ∷ []; at1 = []; at2 = []; at3 = [] })

abbrev overloaded : RingBuffer Fixed EventPriority
overloaded = with_queues 2 data_overload (all_at [])

abbrev calls : List (Call EventPriority)
calls = pushes p3 ∷ pushes p0 ∷ pushes p0 ∷ pushes p0 ∷ pops 1 ∷ acknowledges ∷ pushes p2 ∷ []

run-init-Inv_example : Inv (run calls empty)
unfolding init
run-init-Inv_example = run-init-Inv 2 (lit 80 2) (lit 95 2) (lit 70 2) calls refl

accounted-push_example : accounted p2 (push p1 full).0 ≡ 2
unfolding push push_at drop_lower_priority_locked drop_p1 update_state_locked
accounted-push_example = accounted-push p2 p1 full

push-DropsInOrder_example : DropsInOrder p0 p0 full (push p0 full)
push-DropsInOrder_example = push-DropsInOrder p0 full

pop_batch_lem_example :
    ((pop_batch 2 full).1 ≡ p1 ∷ p2 ∷ []) × (contents (pop_batch 2 full).0 ≡ p2 ∷ [])
pop_batch_lem_example = pop_batch_lem 2 full

push-overload_iff_example :
    ((push p0 critical).1 ≡ overload)
    ↔ ((p0 ≡ p0) × (critical.capacity ≤ size critical) × HoldsP0Only critical)
push-overload_iff_example = push-overload_iff p0 critical
