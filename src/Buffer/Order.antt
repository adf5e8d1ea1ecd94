-- ===== src/Buffer/Order.antt =====
-- Which events a push may evict, and in which order events leave.
use binance_momentu.Prelude.{
  ℕ, zero, suc, ◌+◌, ◌-◌, ◌≤◌, ◌<◌, ◌≡◌, inl, inr, refl, sym, ap, ◌∙◌, true, ltb, List, [], ◌∷◌,
  ◌++◌, length, length-append, take, drop, append-nil, append_assoc, arith, Bool-cases,
}
use binance_momentu.Float.{Float}
use binance_momentu.Domain.Enums.{EventPriority, p0, p1, p2, p3}
use binance_momentu.Buffer.{
  RingBuffer, Prioritized, Outcome, returned, size, drain, drop_lower_priority_locked,
  update_state_locked, refuse, push_at, push_at_cases, push, append, pop_batch,
}

-- The events from the highest priority to the lowest, oldest first within a class.
abbrev pub contents : {F E : Type 0} → RingBuffer F E → List E
contents b = b.queues.at0 ++ (b.queues.at1 ++ (b.queues.at2 ++ b.queues.at3))

-- `e ∷ []` for the class `q` if the event is of this class and was taken in.
abbrev pub entered : {E : Type 0} → (q p : EventPriority) → E → Outcome → List E
entered p0 p0 e (returned true) = e ∷ []
entered p1 p1 e (returned true) = e ∷ []
entered p2 p2 e (returned true) = e ∷ []
entered p3 p3 e (returned true) = e ∷ []
entered q p e o = []

-- What the queues lose and gain by a push: at most one event, the oldest of its class, and never a
-- P0; a P1 only for a P0 when no P2 and no P3 is held, and a P2 only when no P3 is held.
pub record DropsInOrder {F E : Type 0} (p : EventPriority) (e : E) (b : RingBuffer F E)
    (r : RingBuffer F E × Outcome) : Type 0 where
  pub lost1 : ℕ
  pub lost2 : ℕ
  pub lost3 : ℕ
  pub at_most_one : lost1 + (lost2 + lost3) ≤ 1
  pub queue0 : r.0.queues.at0 ≡ b.queues.at0 ++ entered p0 p e r.1
  pub queue1 : r.0.queues.at1 ≡ drop lost1 b.queues.at1 ++ entered p1 p e r.1
  pub queue2 : r.0.queues.at2 ≡ drop lost2 b.queues.at2 ++ entered p2 p e r.1
  pub queue3 : r.0.queues.at3 ≡ drop lost3 b.queues.at3 ++ entered p3 p e r.1
  pub p1_last : 0 < lost1 → (b.queues.at3 ≡ []) × (b.queues.at2 ≡ []) × (p ≡ p0)
  pub p2_after_p3 : 0 < lost2 → b.queues.at3 ≡ []

-- The same of the queues alone, before the event is appended.
record Evicts {F E : Type 0} (p : EventPriority) (b b' : RingBuffer F E) : Type 0 where
  lost1 : ℕ
  lost2 : ℕ
  lost3 : ℕ
  at_most_one : lost1 + (lost2 + lost3) ≤ 1
  queue0 : b'.queues.at0 ≡ b.queues.at0
  queue1 : b'.queues.at1 ≡ drop lost1 b.queues.at1
  queue2 : b'.queues.at2 ≡ drop lost2 b.queues.at2
  queue3 : b'.queues.at3 ≡ drop lost3 b.queues.at3
  p1_last : 0 < lost1 → (b.queues.at3 ≡ []) × (b.queues.at2 ≡ []) × (p ≡ p0)
  p2_after_p3 : 0 < lost2 → b.queues.at3 ≡ []

module _ {F E : Type 0} where
  abbrev holding : RingBuffer F E → (q0 q1 q2 q3 : List E) → RingBuffer F E
  holding b q0 q1 q2 q3 = record b { queues = record { at0 = q0; at1 = q1; at2 = q2; at3 = q3 } }

  nothing_lost : (p : EventPriority) (b : RingBuffer F E) → Evicts p b b
  nothing_lost p b = record {
    lost1 = 0;
    lost2 = 0;
    lost3 = 0;
    at_most_one = omega arith;
    queue0 = refl;
    queue1 = refl;
    queue2 = refl;
    queue3 = refl;
    p1_last = λ h. absurd (omega (arith, h));
    p2_after_p3 = λ h. absurd (omega (arith, h));
  }

  drop_lower_priority_locked-Evicts :
      (p : EventPriority) (b : RingBuffer F E) (q0 q1 q2 q3 : List E)
      → Evicts p (holding b q0 q1 q2 q3) (drop_lower_priority_locked p (holding b q0 q1 q2 q3)).0
  unfolding drop_lower_priority_locked
  drop_lower_priority_locked-Evicts p b q0 q1 q2 (x ∷ q3) = record {
    lost1 = 0;
    lost2 = 0;
    lost3 = 1;
    at_most_one = omega arith;
    queue0 = refl;
    queue1 = refl;
    queue2 = refl;
    queue3 = refl;
    p1_last = λ h. absurd (omega (arith, h));
    p2_after_p3 = λ h. absurd (omega (arith, h));
  }
  drop_lower_priority_locked-Evicts p b q0 q1 (x ∷ q2) [] = record {
    lost1 = 0;
    lost2 = 1;
    lost3 = 0;
    at_most_one = omega arith;
    queue0 = refl;
    queue1 = refl;
    queue2 = refl;
    queue3 = refl;
    p1_last = λ h. absurd (omega (arith, h));
    p2_after_p3 = λ h. refl;
  }
  drop_lower_priority_locked-Evicts p0 b q0 (x ∷ q1) [] [] = record {
    lost1 = 1;
    lost2 = 0;
    lost3 = 0;
    at_most_one = omega arith;
    queue0 = refl;
    queue1 = refl;
    queue2 = refl;
    queue3 = refl;
    p1_last = λ h. (refl, refl, refl);
    p2_after_p3 = λ h. refl;
  }
  drop_lower_priority_locked-Evicts p0 b q0 [] [] [] = nothing_lost p0 (holding b q0 [] [] [])
  drop_lower_priority_locked-Evicts p1 b q0 q1 [] [] = nothing_lost p1 (holding b q0 q1 [] [])
  drop_lower_priority_locked-Evicts p2 b q0 q1 [] [] = nothing_lost p2 (holding b q0 q1 [] [])
  drop_lower_priority_locked-Evicts p3 b q0 q1 [] [] = nothing_lost p3 (holding b q0 q1 [] [])

module _ {E : Type 0} where
  -- The loop over one class, with `r` for the classes after it: it takes from the front of what is
  -- left to take, and leaves the rest.
  drain_lem :
      (out : List E) (n : ℕ) (q r : List E)
      → let (out', q') = drain out n q in
        (out ++ take (n - length out) (q ++ r) ≡ out' ++ take (n - length out') r)
        × (drop (n - length out) (q ++ r) ≡ q' ++ drop (n - length out') r)
  unfolding drain
  drain_lem out n [] r = (refl, refl)
  drain_lem out n (e ∷ q) r = elim (Bool-cases (ltb (length out) n)) [
    | inl t ↦
        let (taken, left) = drain_lem (out ++ e ∷ []) n q r in
        let one : n - length out ≡ suc (n - length (out ++ e ∷ [])) =
          ground (arith, length-append out (e ∷ [])) in
        rw (t, one) (rw append_assoc at taken, left)
    | inr t ↦ let none_left : n - length out ≡ 0 = ground arith in rw (t, none_left) (refl, refl)
  ]

  take-nil : (n : ℕ) → take {A = E} n [] ≡ []
  take-nil zero = refl
  take-nil (suc n) = refl

  drop-nil : (n : ℕ) → drop {A = E} n [] ≡ []
  drop-nil zero = refl
  drop-nil (suc n) = refl

  drain_last :
      (out : List E) (n : ℕ) (q : List E)
      → let (out', q') = drain out n q in
        (out ++ take (n - length out) q ≡ out') × (drop (n - length out) q ≡ q')
  drain_last out n q =
      let (t, d) = drain_lem out n q [] in
      (simp (append-nil, take-nil) at t, simp (append-nil, drop-nil) at d)

module _ {F E : Type 0} ⦃f : Float F⦄ where
  -- A push that evicts and then gains what the outcome says.
  gains :
      (p : EventPriority) (e : E) {b b' : RingBuffer F E} (r : RingBuffer F E × Outcome)
      → Evicts p b b'
      → r.0.queues.at0 ≡ b'.queues.at0 ++ entered p0 p e r.1
      → r.0.queues.at1 ≡ b'.queues.at1 ++ entered p1 p e r.1
      → r.0.queues.at2 ≡ b'.queues.at2 ++ entered p2 p e r.1
      → r.0.queues.at3 ≡ b'.queues.at3 ++ entered p3 p e r.1
      → DropsInOrder p e b r
  gains p e r d e0 e1 e2 e3 = record {
    lost1 = d.lost1;
    lost2 = d.lost2;
    lost3 = d.lost3;
    at_most_one = d.at_most_one;
    queue0 = e0 ∙ ap (λ q. q ++ entered p0 p e r.1) d.queue0;
    queue1 = e1 ∙ ap (λ q. q ++ entered p1 p e r.1) d.queue1;
    queue2 = e2 ∙ ap (λ q. q ++ entered p2 p e r.1) d.queue2;
    queue3 = e3 ∙ ap (λ q. q ++ entered p3 p e r.1) d.queue3;
    p1_last = d.p1_last;
    p2_after_p3 = d.p2_after_p3;
  }

  appended :
      (p : EventPriority) (e : E) {b b' : RingBuffer F E}
      → Evicts p b b'
      → DropsInOrder p e b (update_state_locked (append p e b'), returned true)
  unfolding update_state_locked
  appended p0 e d =
      gains p0 e _ d refl (sym (append-nil _)) (sym (append-nil _)) (sym (append-nil _))
  appended p1 e d =
      gains p1 e _ d (sym (append-nil _)) refl (sym (append-nil _)) (sym (append-nil _))
  appended p2 e d =
      gains p2 e _ d (sym (append-nil _)) (sym (append-nil _)) refl (sym (append-nil _))
  appended p3 e d =
      gains p3 e _ d (sym (append-nil _)) (sym (append-nil _)) (sym (append-nil _)) refl

  refused :
      (p : EventPriority) (e : E) {b b' : RingBuffer F E}
      → Evicts p b b'
      → DropsInOrder p e b (refuse p b')
  unfolding refuse update_state_locked
  refused p0 e d =
      gains p0 e _ d (sym (append-nil _)) (sym (append-nil _)) (sym (append-nil _))
        (sym (append-nil _))
  refused _ e d =
      gains _ e _ d (sym (append-nil _)) (sym (append-nil _)) (sym (append-nil _))
        (sym (append-nil _))

  -- Whatever is pushed, the queues lose at most one event, the oldest of its class, and gain the
  -- event at the end of its class if it is taken in: a P0 that is held is never lost, a P1 only to
  -- a P0 when no P2 and no P3 is held, and a P2 only when no P3 is held.
  pub push-DropsInOrder :
      ⦃h : Prioritized E⦄ (e : E) (b : RingBuffer F E) → DropsInOrder (h.priority e) e b (push e b)
  unfolding push
  push-DropsInOrder ⦃h⦄ e b =
      let p = h.priority e in
      let qs = b.queues in
      let evicts = drop_lower_priority_locked-Evicts p b qs.at0 qs.at1 qs.at2 qs.at3 in
      push_at_cases (DropsInOrder p e b) p e b (λ _. appended p e (nothing_lost p b))
        (λ _ _. appended p e evicts) (λ _ _. refused p e evicts)

  -- A batch is the front of the contents, which are ordered by priority and then by age, and the
  -- rest of them stays in the buffer.
  pub pop_batch_lem :
      (n : ℕ) (b : RingBuffer F E)
      → let (b', batch) = pop_batch n b in
        (batch ≡ take n (contents b)) × (contents b' ≡ drop n (contents b))
  unfolding pop_batch update_state_locked
  pop_batch_lem n b =
      let q = b.queues in
      let out0 = (drain [] n q.at0).0 in
      let out1 = (drain out0 n q.at1).0 in
      let out2 = (drain out1 n q.at2).0 in
      let (t0, d0) = drain_lem [] n q.at0 (q.at1 ++ (q.at2 ++ q.at3)) in
      let (t1, d1) = drain_lem out0 n q.at1 (q.at2 ++ q.at3) in
      let (t2, d2) = drain_lem out1 n q.at2 q.at3 in
      let (t3, d3) = drain_last out2 n q.at3 in
      let start : n - 0 ≡ n = omega arith in
      let front = rw start at (t0 ∙ t1 ∙ t2 ∙ t3) in (sym front, cc (rw start at d0))

  -- A full buffer that holds no P3 lets an incoming P3 push out the oldest P2, an event of a
  -- higher priority than its own.
  pub push_p3_evicts_p2 :
      ⦃h : Prioritized E⦄ (e oldest : E) (rest : List E) (b : RingBuffer F E)
      → h.priority e ≡ p3
      → b.capacity ≤ size b
      → b.queues.at3 ≡ []
      → b.queues.at2 ≡ oldest ∷ rest
      → let (b', o) = push e b in
        (o ≡ returned true)
        × (b'.queues.at2 ≡ rest)
        × (b'.queues.at3 ≡ e ∷ [])
        × (b'.dropped_by_priority.at2 ≡ b.dropped_by_priority.at2 + 1)
  unfolding push push_at drop_lower_priority_locked update_state_locked
  push_p3_evicts_p2 ⦃h⦄ e oldest rest b hp full h3 h2 = rw hp (ground arith)
