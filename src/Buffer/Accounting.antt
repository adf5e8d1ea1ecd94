-- ===== src/Buffer/Accounting.antt =====
-- What a push does with every event: it is held, or counted as dropped, or refused by the overload.
use binance_momentu.Prelude.{ℕ, ◌+◌, ◌≡◌, true, [], ◌∷◌, length, length-append, arith}
use binance_momentu.Float.{Float}
use binance_momentu.Domain.Enums.{EventPriority, p0, p1, p2, p3}
use binance_momentu.Buffer.{
  RingBuffer, Prioritized, Outcome, returned, get, total, drop_lower_priority_locked,
  update_state_locked, refuse, push_at, push_at_cases, push, append,
}

-- The events of class `c` that are in the buffer or were dropped from it.
abbrev pub accounted : {F E : Type 0} → EventPriority → RingBuffer F E → ℕ
accounted c b = length (get b.queues c) + get b.dropped_by_priority c

-- One for the class of the event, if it was taken in charge.
abbrev pub charge : EventPriority → EventPriority → Outcome → ℕ
charge p0 p0 (returned r) = 1
charge p1 p1 (returned r) = 1
charge p2 p2 (returned r) = 1
charge p3 p3 (returned r) = 1
charge p c o = 0

-- The total of the drops is the sum over the classes.
abbrev pub IsCounted : {F E : Type 0} → RingBuffer F E → Type 0
IsCounted b = b.dropped_total ≡ total b.dropped_by_priority

module _ {F E : Type 0} where
  accounted-drop_lower :
      (p c : EventPriority) (b : RingBuffer F E)
      → accounted c (drop_lower_priority_locked p b).0 ≡ accounted c b
  unfolding drop_lower_priority_locked
  accounted-drop_lower p0 p0 b = ground arith
  accounted-drop_lower p0 p1 b = ground arith
  accounted-drop_lower p0 p2 b = ground arith
  accounted-drop_lower p0 p3 b = ground arith
  accounted-drop_lower _ p0 b = ground arith
  accounted-drop_lower _ p1 b = ground arith
  accounted-drop_lower _ p2 b = ground arith
  accounted-drop_lower _ p3 b = ground arith

  accounted-append :
      (p c : EventPriority) (e : E) (b : RingBuffer F E)
      → accounted c (append p e b) ≡ accounted c b + charge p c (returned true)
  accounted-append p0 p0 e b = omega (arith, length-append b.queues.at0 (e ∷ []))
  accounted-append p1 p1 e b = omega (arith, length-append b.queues.at1 (e ∷ []))
  accounted-append p2 p2 e b = omega (arith, length-append b.queues.at2 (e ∷ []))
  accounted-append p3 p3 e b = omega (arith, length-append b.queues.at3 (e ∷ []))
  accounted-append p0 _ e b = omega arith
  accounted-append p1 _ e b = omega arith
  accounted-append p2 _ e b = omega arith
  accounted-append p3 _ e b = omega arith

  drop_lower-IsCounted :
      (p : EventPriority) (b : RingBuffer F E)
      → IsCounted b
      → IsCounted (drop_lower_priority_locked p b).0
  unfolding drop_lower_priority_locked
  drop_lower-IsCounted p0 b h = ground arith
  drop_lower-IsCounted _ b h = ground arith

module _ {F E : Type 0} ⦃f : Float F⦄ where
  accounted-refuse :
      (p c : EventPriority) (b : RingBuffer F E)
      → let (b', o) = refuse p b in accounted c b' ≡ accounted c b + charge p c o
  unfolding refuse update_state_locked
  accounted-refuse p0 p0 b = omega arith
  accounted-refuse p0 _ b = omega arith
  accounted-refuse p1 p0 b = omega arith
  accounted-refuse p1 _ b = omega arith
  accounted-refuse p2 p0 b = omega arith
  accounted-refuse p2 _ b = omega arith
  accounted-refuse p3 p0 b = omega arith
  accounted-refuse p3 _ b = omega arith

  accounted-push_at :
      (p c : EventPriority) (e : E) (b : RingBuffer F E)
      → let (b', o) = push_at p e b in accounted c b' ≡ accounted c b + charge p c o
  unfolding update_state_locked
  accounted-push_at p c e b =
      let b' = (drop_lower_priority_locked p b).0 in
      push_at_cases (λ r. accounted c r.0 ≡ accounted c b + charge p c r.1) p e b
        (λ _. accounted-append p c e b)
        (λ _ _. omega (arith, accounted-append p c e b', accounted-drop_lower p c b))
        (λ _ _. omega (arith, accounted-refuse p c b', accounted-drop_lower p c b))

  refuse-IsCounted :
      (p : EventPriority) (b : RingBuffer F E) → IsCounted b → IsCounted (refuse p b).0
  unfolding refuse update_state_locked
  refuse-IsCounted p0 b h = omega arith
  refuse-IsCounted p1 b h = omega arith
  refuse-IsCounted p2 b h = omega arith
  refuse-IsCounted p3 b h = omega arith

  -- A push keeps `dropped_total` the sum of the drops by class.
  pub push-IsCounted :
      ⦃h : Prioritized E⦄ (e : E) (b : RingBuffer F E) → IsCounted b → IsCounted (push e b).0
  unfolding push update_state_locked
  push-IsCounted ⦃h⦄ e b v =
      let p = h.priority e in
      push_at_cases (λ r. IsCounted r.0) p e b (λ _. v) (λ _ _. drop_lower-IsCounted p b v)
        (λ _ _. refuse-IsCounted p _ (drop_lower-IsCounted p b v))

  -- No event is lost track of: for every class, the events held or counted as dropped grow by one
  -- if the pushed event is of that class and the buffer did not raise, and else stay the same.
  pub accounted-push :
      ⦃h : Prioritized E⦄ (c : EventPriority) (e : E) (b : RingBuffer F E)
      → let (b', o) = push e b in accounted c b' ≡ accounted c b + charge (h.priority e) c o
  unfolding push
  accounted-push ⦃h⦄ c e b = accounted-push_at (h.priority e) c e b
