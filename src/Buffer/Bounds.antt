-- ===== src/Buffer/Bounds.antt =====
-- The buffer never outgrows its capacity.
use binance_momentu.Prelude.{
  ℕ, ◌+◌, ◌≤◌, ◌<◌, ◌≡◌, if◌then◌else◌, List, [], ◌∷◌, ◌++◌, length, length-append, some, arith,
}
use binance_momentu.Float.{Float}
use binance_momentu.Domain.Enums.{EventPriority, p0, p1, p2, p3}
use binance_momentu.Buffer.{
  RingBuffer, Prioritized, size, init, drain, drop_lower_priority_locked, update_state_locked,
  push_at, push, pop_batch, acknowledge_recovery, append,
}

-- The events held are at most `capacity`, and `capacity` is positive.
pub record IsBounded {F E : Type 0} (b : RingBuffer F E) : Type 0 where
  pub fits : size b ≤ b.capacity
  pub positive : 0 < b.capacity

module _ {E : Type 0} where
  length-drain-le : (out : List E) (n : ℕ) (q : List E) → length (drain out n q).1 ≤ length q
  unfolding drain
  length-drain-le out n [] = omega arith
  length-drain-le out n (e ∷ q) = ground (arith, length-drain-le (out ++ e ∷ []) n q)

module _ {F E : Type 0} where
  pub init-IsBounded :
      (n : ℕ) (h o r : F) (b : RingBuffer F E) → init n h o r ≡ some b → IsBounded b
  unfolding init
  init-IsBounded n h o r b e = ground arith

  pub size-append :
      (p : EventPriority) (e : E) (b : RingBuffer F E) → size (append p e b) ≡ size b + 1
  size-append p0 e b = omega (arith, length-append b.queues.at0 (e ∷ []))
  size-append p1 e b = omega (arith, length-append b.queues.at1 (e ∷ []))
  size-append p2 e b = omega (arith, length-append b.queues.at2 (e ∷ []))
  size-append p3 e b = omega (arith, length-append b.queues.at3 (e ∷ []))

  -- A freed slot is one event less, and no freed slot is no change.
  pub size-drop_lower :
      (p : EventPriority) (b : RingBuffer F E)
      → let (b', freed) = drop_lower_priority_locked p b in
        (if freed then size b' + 1 else size b') ≡ size b
  unfolding drop_lower_priority_locked
  size-drop_lower p0 b = ground arith
  size-drop_lower _ b = ground arith

  pub capacity-drop_lower :
      (p : EventPriority) (b : RingBuffer F E)
      → (drop_lower_priority_locked p b).0.capacity ≡ b.capacity
  unfolding drop_lower_priority_locked
  capacity-drop_lower p0 b = ground arith
  capacity-drop_lower _ b = ground arith

module _ {F E : Type 0} ⦃f : Float F⦄ where
  push_at-IsBounded :
      (p : EventPriority) (e : E) (b : RingBuffer F E) → IsBounded b → IsBounded (push_at p e b).0
  unfolding push_at update_state_locked
  push_at-IsBounded p0 e b v =
      let b' = (drop_lower_priority_locked p0 b).0 in
      ground (
        arith,
        size-append p0 e b,
        size-append p0 e b',
        size-drop_lower p0 b,
        capacity-drop_lower p0 b,
      )
  push_at-IsBounded p e b v =
      let b' = (drop_lower_priority_locked p b).0 in
      ground
        (arith, size-append p e b, size-append p e b', size-drop_lower p b, capacity-drop_lower p b)

  pub push-IsBounded :
      ⦃h : Prioritized E⦄ (e : E) (b : RingBuffer F E) → IsBounded b → IsBounded (push e b).0
  unfolding push
  push-IsBounded ⦃h⦄ e b v = push_at-IsBounded (h.priority e) e b v

  pub pop_batch-IsBounded : (n : ℕ) (b : RingBuffer F E) → IsBounded b → IsBounded (pop_batch n b).0
  unfolding pop_batch update_state_locked
  pop_batch-IsBounded n b v =
      let out0 = (drain [] n b.queues.at0).0 in
      let out1 = (drain out0 n b.queues.at1).0 in
      let out2 = (drain out1 n b.queues.at2).0 in
      ground (
        arith,
        length-drain-le [] n b.queues.at0,
        length-drain-le out0 n b.queues.at1,
        length-drain-le out1 n b.queues.at2,
        length-drain-le out2 n b.queues.at3,
      )

  pub acknowledge_recovery-IsBounded :
      (b : RingBuffer F E) → IsBounded b → IsBounded (acknowledge_recovery b)
  unfolding acknowledge_recovery
  acknowledge_recovery-IsBounded b v = ground arith
