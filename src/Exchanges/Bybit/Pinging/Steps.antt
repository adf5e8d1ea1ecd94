-- ===== src/Exchanges/Bybit/Pinging/Steps.antt =====
-- The life of a shard of Bybit with its ping task, against that of a shard.
use binance_momentu.Prelude.{
  ℕ, Result, ◌≡◌, ◌≢◌, ◌⊎◌, ◌∙◌, refl, sym, subst, inl, inr, Bool, true, false, List, String, arith,
}
use binance_momentu.Float.{Float}
use binance_momentu.Exchanges.Bybit.{TopicTemplate, bybit_protocol}
use binance_momentu.Exchanges.Bybit.Pinging.{
  absent, pinging, BybitShard, new_bybit, start_bybit, stop_bybit, update_bybit, connect_bybit,
  open_bybit, settle_bybit, receive_bybit, fail_bybit, end_bybit, soften_bybit, ping_once,
}
use binance_momentu.Exchanges.Shard.Life.{
  Phase, next_phase, waiting, opening, sending, listening, finished, Running, is_connecting, Step,
  begins, opens, settles, receives, fails, ends, updates, softens, stops, Reach, here, next,
  IsConsistent, Reach-IsConsistent,
}

pub record RunningBybit (F : Type 0) : Type 0 where
  pub bybit : BybitShard F
  pub phase : Phase

abbrev pub next_of : {F : Type 0} → (ℕ → Result F) → BybitShard F → Phase
next_of delay b = next_phase delay b.shard

module _ {F : Type 0} ⦃f : Float F⦄ (delay : ℕ → Result F) where
  -- The steps of the shard's tasks, and a turn of the ping task.
  pub data BybitStep : RunningBybit F → RunningBybit F → Type 0 where
    connects :
        (r : RunningBybit F)
        → r.phase ≡ waiting
        → r.bybit.shard.is_stopping ≡ false
        → BybitStep r (record { bybit = connect_bybit r.bybit; phase = opening })
    is_open :
        (now : F) (r : RunningBybit F)
        → r.phase ≡ opening
        → BybitStep r (record { bybit = open_bybit now r.bybit; phase = sending })
    listens :
        (r : RunningBybit F)
        → r.phase ≡ sending
        → BybitStep r (record { bybit = settle_bybit r.bybit; phase = listening })
    hears :
        (now later : F) (r : RunningBybit F)
        → r.phase ≡ listening
        → BybitStep r (record r { bybit = receive_bybit now later r.bybit })
    breaks :
        (error : String) (r : RunningBybit F)
        → is_connecting r.phase ≡ true
        → BybitStep r (record { bybit = fail_bybit error r.bybit; phase = next_of delay r.bybit })
    closes :
        (error : String) (r : RunningBybit F)
        → r.phase ≡ listening
        → BybitStep r (record { bybit = end_bybit error r.bybit; phase = next_of delay r.bybit })
    changes :
        (added removed : List String) (r : RunningBybit F)
        → BybitStep r (record r { bybit = update_bybit added removed r.bybit })
    relaxes :
        (r : RunningBybit F)
        → r.bybit.shard.is_stopping ≡ false
        → BybitStep r (record r { bybit = soften_bybit r.bybit })
    halts :
        (r : RunningBybit F) → BybitStep r (record { bybit = stop_bybit r.bybit; phase = finished })
    pings :
        (went : Bool) (r : RunningBybit F)
        → r.bybit.ping_task ≡ pinging
        → BybitStep r (record r { bybit = ping_once went r.bybit })

  pub data BybitReach (r : RunningBybit F) : RunningBybit F → Type 0 where
    at_first : BybitReach r r
    then_step : {t u : RunningBybit F} → BybitReach r t → BybitStep t u → BybitReach r u

  -- Without the ping task.
  abbrev pub forget : RunningBybit F → Running F
  forget r = record { shard = r.bybit.shard; phase = r.phase }

  abbrev pub protocol_of : RunningBybit F → List TopicTemplate
  protocol_of r = r.bybit.topic_templates

  same_templates : {r t : RunningBybit F} → BybitStep r t → protocol_of t ≡ protocol_of r
  unfolding connect_bybit open_bybit settle_bybit receive_bybit fail_bybit end_bybit update_bybit
      soften_bybit stop_bybit ping_once
  same_templates (connects r e n) = refl
  same_templates (is_open now r e) = refl
  same_templates (listens r e) = refl
  same_templates (hears now later r e) = refl
  same_templates (breaks error r e) = refl
  same_templates (closes error r e) = refl
  same_templates (changes added removed r) = refl
  same_templates (relaxes r n) = refl
  same_templates (halts r) = refl
  same_templates (pings true r e) = refl
  same_templates (pings false r e) = refl

  forget-BybitStep :
      {r t : RunningBybit F}
      → BybitStep r t
      → Step (bybit_protocol (protocol_of r)) delay (forget r) (forget t) ⊎ (forget t ≡ forget r)
  unfolding connect_bybit open_bybit settle_bybit receive_bybit fail_bybit end_bybit update_bybit
      soften_bybit stop_bybit ping_once
  forget-BybitStep (connects r e n) = inl (begins (forget r) e n)
  forget-BybitStep (is_open now r e) = inl (opens now (forget r) e)
  forget-BybitStep (listens r e) = inl (settles (forget r) e)
  forget-BybitStep (hears now later r e) = inl (receives now later (forget r) e)
  forget-BybitStep (breaks error r e) = inl (fails error (forget r) e)
  forget-BybitStep (closes error r e) = inl (ends error (forget r) e)
  forget-BybitStep (changes added removed r) = inl (updates added removed (forget r))
  forget-BybitStep (relaxes r n) = inl (softens (forget r) n)
  forget-BybitStep (halts r) = inl (stops (forget r))
  forget-BybitStep (pings true r e) = inr refl
  forget-BybitStep (pings false r e) = inr refl

  -- Pings go out only while the shard listens, and it does not listen without a ping task.
  pub record IsPinging (r : RunningBybit F) : Type 0 where
    pub only_listening : r.bybit.ping_task ≡ pinging → r.phase ≡ listening
    pub has_task : r.phase ≡ listening → r.bybit.ping_task ≢ absent

  BybitStep-IsPinging : {r t : RunningBybit F} → BybitStep r t → IsPinging r → IsPinging t
  unfolding connect_bybit open_bybit settle_bybit receive_bybit fail_bybit end_bybit update_bybit
      soften_bybit stop_bybit ping_once
  BybitStep-IsPinging (connects r e n) h = ground arith
  BybitStep-IsPinging (is_open now r e) h = ground arith
  BybitStep-IsPinging (listens r e) h = ground arith
  BybitStep-IsPinging (hears now later r e) h = ground arith
  BybitStep-IsPinging (breaks error r e) h = ground arith
  BybitStep-IsPinging (closes error r e) h = ground arith
  BybitStep-IsPinging (changes added removed r) h = ground arith
  BybitStep-IsPinging (relaxes r n) h = ground arith
  BybitStep-IsPinging (halts r) h = ground arith
  BybitStep-IsPinging (pings went r e) h = ground arith

  abbrev pub at_start :
      (shard_id : String) (templates : List TopicTemplate) (symbols : List String) → RunningBybit F
  at_start shard_id templates symbols = record {
    bybit = start_bybit symbols (new_bybit shard_id templates);
    phase = waiting;
  }

  extend :
      (templates : List TopicTemplate) {r s t : Running F}
      → Reach (bybit_protocol templates) delay r s
      → Step (bybit_protocol templates) delay s t ⊎ (t ≡ s)
      → Reach (bybit_protocol templates) delay r t
  extend templates {r} reached (inl step) = next reached step
  extend templates {r} reached (inr same) =
      subst (Reach (bybit_protocol templates) delay r) (sym same) reached

  -- The topics stay, and without its ping task the shard is one of the common model.
  pub BybitReach-forget :
      (shard_id : String) (templates : List TopicTemplate) (symbols : List String)
      {t : RunningBybit F}
      → BybitReach (at_start shard_id templates symbols) t
      → (protocol_of t ≡ templates)
        × Reach
            (bybit_protocol templates)
            delay
            (forget (at_start shard_id templates symbols))
            (forget t)
        × IsPinging t
  unfolding start_bybit
  BybitReach-forget shard_id templates symbols at_first = (refl, here, ground arith)
  BybitReach-forget shard_id templates symbols {t = u} (then_step {t} r s) =
      let (same, reached, h) = BybitReach-forget shard_id templates symbols r in
      (
        same_templates s ∙ same,
        extend templates reached (
            subst (λ q. Step (bybit_protocol q) delay (forget t) (forget u) ⊎ (forget u ≡ forget t))
              same (forget-BybitStep s)),
        BybitStep-IsPinging s h,
      )

  -- Whatever happens to a started shard of Bybit, in whatever order: its topics stay those it began
  -- with; its ping task runs only while it listens, and it never listens without a ping task having
  -- been started; if it listens it has a socket, if its state is HEALTHY it listens and has no
  -- failed attempt to count; and its task is done if it has been stopped, and otherwise only if the
  -- delay for its reconnect attempt raises.
  pub BybitReach-IsPinging :
      (shard_id : String) (templates : List TopicTemplate) (symbols : List String)
      {t : RunningBybit F}
      → BybitReach (at_start shard_id templates symbols) t
      → (protocol_of t ≡ templates)
        × IsPinging t
        × IsConsistent (bybit_protocol templates) delay (forget t)
  unfolding start_bybit
  BybitReach-IsPinging shard_id templates symbols r =
      let (same, reached, h) = BybitReach-forget shard_id templates symbols r in
      (same, h, Reach-IsConsistent (bybit_protocol templates) delay shard_id symbols reached)
