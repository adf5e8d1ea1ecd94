-- ===== src/Buffer/States.antt =====
-- When the buffer raises, what its ingestion state does, and what holds after any sequence of calls.
use binance_momentu.Prelude.{
  ℕ, ◌≤◌, ◌≡◌, ◌≢◌, ◌↔◌, ◌⊎◌, inl, refl, sym, subst, false, if◌then◌else◌, List, [], ◌∷◌, some,
  arith,
}
use binance_momentu.Float.{Float, ◌≼◌, ◌≤?◌}
use binance_momentu.Domain.Enums.{
  EventPriority, p0, IngestionState, normal, lossy_mode, data_overload, ingestion_degraded,
}
use binance_momentu.Buffer.{
  RingBuffer, Prioritized, overload, size, utilization, next_state, init,
  drop_lower_priority_locked, update_state_locked, refuse, push_at, push_at_cases, push, pop_batch,
  acknowledge_recovery,
}
use binance_momentu.Buffer.Bounds.{
  IsBounded, init-IsBounded, push-IsBounded, pop_batch-IsBounded, acknowledge_recovery-IsBounded,
}
use binance_momentu.Buffer.Accounting.{IsCounted, push-IsCounted}

-- Every event held is a P0.
abbrev pub HoldsP0Only : {F E : Type 0} → RingBuffer F E → Type 0
HoldsP0Only b = (b.queues.at1 ≡ []) × (b.queues.at2 ≡ []) × (b.queues.at3 ≡ [])

module _ {F E : Type 0} ⦃f : Float F⦄ where
  push_at-overload_iff :
      (p : EventPriority) (e : E) (b : RingBuffer F E)
      → ((push_at p e b).1 ≡ overload) ↔ ((p ≡ p0) × (b.capacity ≤ size b) × HoldsP0Only b)
  unfolding push_at drop_lower_priority_locked
  push_at-overload_iff p0 e b = ground arith
  push_at-overload_iff _ e b = ground arith

  -- The buffer raises exactly when it is full of P0 events and one more P0 arrives.
  pub push-overload_iff :
      ⦃h : Prioritized E⦄ (e : E) (b : RingBuffer F E)
      → ((push e b).1 ≡ overload) ↔ ((h.priority e ≡ p0) × (b.capacity ≤ size b) × HoldsP0Only b)
  unfolding push
  push-overload_iff ⦃h⦄ e b = push_at-overload_iff (h.priority e) e b

  -- The state after a method that updates it: an overload stays, otherwise it is lossy at the high
  -- watermark or the P0 watermark and above, normal at the recovery watermark and below, and what
  -- it was in between.
  pub next_state_lem :
      (b : RingBuffer F E)
      → let u = utilization b in
        let s = (update_state_locked b).state in
        (b.state ≡ data_overload → s ≡ data_overload)
        × (b.state ≢ data_overload
            → (b.p0_overload_watermark ≼ u) ⊎ (b.high_watermark ≼ u)
            → s ≡ lossy_mode)
        × (b.state ≢ data_overload
            → (b.p0_overload_watermark ≤? u) ≡ false
            → (b.high_watermark ≤? u) ≡ false
            → s ≡ (if u ≤? b.recovery_watermark then normal else b.state))
  unfolding update_state_locked
  next_state_lem b = ground arith

module _ {F E : Type 0} where
  state-drop_lower :
      (p : EventPriority) (b : RingBuffer F E) → (drop_lower_priority_locked p b).0.state ≡ b.state
  unfolding drop_lower_priority_locked
  state-drop_lower p0 b = ground arith
  state-drop_lower _ b = ground arith

module _ {F E : Type 0} ⦃f : Float F⦄ where
  refuse-state :
      (Q : IngestionState → Type 0)
      → ((s : IngestionState) (b : RingBuffer F E) → Q s → Q (next_state s b))
      → Q data_overload
      → (p : EventPriority) (b : RingBuffer F E) → Q b.state
      → Q (refuse p b).0.state
  unfolding refuse update_state_locked
  refuse-state Q keep bad p0 b q = bad
  refuse-state Q keep bad _ b q = keep _ _ q

-- A call on the buffer.
pub data Call (E : Type 0) : Type 0 where
  pushes : E → Call E
  pops : ℕ → Call E
  acknowledges : Call E

module _ {F E : Type 0} ⦃f : Float F⦄ ⦃h : Prioritized E⦄ where
  pub step : Call E → RingBuffer F E → RingBuffer F E
  step (pushes e) b = (push e b).0
  step (pops n) b = (pop_batch n b).0
  step acknowledges b = acknowledge_recovery b

  pub run : List (Call E) → RingBuffer F E → RingBuffer F E
  run [] b = b
  run (c ∷ cs) b = run cs (step c b)

  -- What holds of every buffer that `init` and the calls can make.
  pub record Inv (b : RingBuffer F E) : Type 0 where
    pub bounded : IsBounded b
    pub counted : IsCounted b
    pub not_degraded : b.state ≢ ingestion_degraded

  -- What is kept by an update of the state, and true of an overload, is kept by a push.
  push-state :
      (Q : IngestionState → Type 0)
      → ((s : IngestionState) (b : RingBuffer F E) → Q s → Q (next_state s b))
      → Q data_overload
      → (e : E) (b : RingBuffer F E) → Q b.state
      → Q (push e b).0.state
  unfolding push update_state_locked
  push-state Q keep bad e b q =
      let p = h.priority e in
      let q' = subst Q (sym (state-drop_lower p b)) q in
      push_at_cases (λ r. Q r.0.state) p e b (λ _. keep _ _ q) (λ _ _. keep _ _ q')
        (λ _ _. refuse-state Q keep bad p _ q')

  next_state-not_degraded :
      (s : IngestionState) (b : RingBuffer F E)
      → s ≢ ingestion_degraded
      → next_state s b ≢ ingestion_degraded
  unfolding next_state
  next_state-not_degraded normal b n = ground arith
  next_state-not_degraded _ b n = ground arith

  next_state-data_overload :
      (s : IngestionState) (b : RingBuffer F E) → s ≡ data_overload → next_state s b ≡ data_overload
  unfolding next_state
  next_state-data_overload normal b n = ground arith
  next_state-data_overload _ b n = ground arith

  step-Inv : (c : Call E) (b : RingBuffer F E) → Inv b → Inv (step c b)
  unfolding step
  step-Inv (pushes e) b v = record {
    bounded = push-IsBounded e b v.bounded;
    counted = push-IsCounted e b v.counted;
    not_degraded =
        push-state (λ s. s ≢ ingestion_degraded) next_state-not_degraded (λ x. cc) e b
          v.not_degraded;
  }
  step-Inv (pops n) b v = record {
    bounded = pop_batch-IsBounded n b v.bounded;
    counted = unfold pop_batch update_state_locked in v.counted;
    not_degraded =
        unfold pop_batch update_state_locked in next_state-not_degraded b.state _ v.not_degraded;
  }
  step-Inv acknowledges b v = record {
    bounded = acknowledge_recovery-IsBounded b v.bounded;
    counted = unfold acknowledge_recovery in ground arith;
    not_degraded = unfold acknowledge_recovery in ground arith;
  }

  -- From any buffer of that kind, any calls lead to one: bounded, with its drops counted, and never
  -- in the state `ingestion_degraded`.
  pub run-Inv : (cs : List (Call E)) (b : RingBuffer F E) → Inv b → Inv (run cs b)
  unfolding run
  run-Inv [] b v = v
  run-Inv (c ∷ cs) b v = run-Inv cs (step c b) (step-Inv c b v)

  -- After any sequence of pushes, batches and acknowledgements on a buffer that the constructor
  -- made, at most `capacity` events are held, `dropped_total` is the sum of the drops by class, and
  -- the state is not `ingestion_degraded`.
  pub run-init-Inv :
      (n : ℕ) (high mark recovery : F) (cs : List (Call E)) {b : RingBuffer F E}
      → init n high mark recovery ≡ some b
      → Inv (run cs b)
  run-init-Inv n high mark recovery cs {b} e = run-Inv cs b (record {
    bounded = init-IsBounded n high mark recovery b e;
    counted = unfold init in ground arith;
    not_degraded = unfold init in ground arith;
  })

  -- Only an acknowledgement at or below the recovery watermark ends an overload.
  pub step-data_overload :
      (c : Call E) (b : RingBuffer F E)
      → b.state ≡ data_overload
      → ((step c b).state ≡ data_overload)
        ⊎ ((c ≡ acknowledges)
            × (utilization b ≼ b.recovery_watermark)
            × ((step c b).state ≡ normal))
  unfolding step
  step-data_overload (pushes e) b s =
      inl (push-state (λ t. t ≡ data_overload) next_state-data_overload refl e b s)
  step-data_overload (pops n) b s =
      inl (unfold pop_batch update_state_locked in next_state-data_overload b.state _ s)
  step-data_overload acknowledges b s = unfold acknowledge_recovery in ground arith
