-- ===== src/Exchanges/Shard/Life.antt =====
-- The life of a shard: where its task `_run_forever` stands, and the steps of it and of the tasks
-- beside it, in any order.
use binance_momentu.Prelude.{
  ◌≡◌, ◌≢◌, refl, ℕ, ◌+◌, ◌⊎◌, Result, ◌||◌, ok, raise, Bool, true, false, if◌then◌else◌, none,
  some, List, String, arith, ◌<◌, subst, ◌∙◌, Bool-cases, inl, inr,
}
use binance_momentu.Float.{Float}
use binance_momentu.Domain.Enums.{subscribing, healthy}
use binance_momentu.Prelude.Sets.{union, difference}
use binance_momentu.Exchanges.Shard.Frames.{params_of, params-opened}
use binance_momentu.Exchanges.Shard.{
  topics_of, Protocol, Shard, Method, send_sub_message, send_some, new_shard, start, stop,
  update_subscriptions, begin_connect, opened, settled, receive, ended, after_connection,
  soft_reconnect,
}

-- Before `_connect_and_listen`, waiting for the connection, sending the subscription, listening,
-- or done.
pub data Phase : Type 0 where
  waiting opening sending listening finished : Phase

pub record Running (F : Type 0) : Type 0 where
  pub shard : Shard F
  pub phase : Phase

abbrev pub raises : {A : Type 0} → Result A → Bool
raises (ok a) = false
raises (raise e) = true

-- Where `_run_forever` goes on after a connection: it is done if the shard is stopping, or if the
-- delay for the next attempt raises, which it computes outside its `try`.
abbrev pub next_phase : {F : Type 0} → (ℕ → Result F) → Shard F → Phase
next_phase delay s =
    if s.is_stopping || raises (delay (s.reconnect_attempt + 1)) then finished else waiting

abbrev pub is_connecting : Phase → Bool
is_connecting opening = true
is_connecting sending = true
is_connecting listening = true
is_connecting _ = false

-- `delay` is `delay_for_attempt` of the shard's backoff policy.
module _ {F : Type 0} ⦃f : Float F⦄ (p : Protocol F) (delay : ℕ → Result F) where
  -- A message arrives; the connection fails anywhere, with the socket kept as it is, or ends, which
  -- raises too unless the shard is stopping. `stop` cancels the tasks.
  pub data Step : Running F → Running F → Type 0 where
    begins :
        (r : Running F)
        → r.phase ≡ waiting
        → r.shard.is_stopping ≡ false
        → Step r (record { shard = begin_connect p r.shard; phase = opening })
    opens :
        (now : F) (r : Running F)
        → r.phase ≡ opening
        → Step r (record { shard = opened p now r.shard; phase = sending })
    settles :
        (r : Running F)
        → r.phase ≡ sending
        → Step r (record { shard = settled p r.shard; phase = listening })
    receives :
        (now later : F) (r : Running F)
        → r.phase ≡ listening
        → Step r (record r { shard = (receive p now later r.shard).0 })
    fails :
        (error : String) (r : Running F)
        → is_connecting r.phase ≡ true
        → Step r (record {
          shard = after_connection p (some error) r.shard;
          phase = next_phase delay r.shard;
        })
    ends :
        (error : String) (r : Running F)
        → r.phase ≡ listening
        → Step r (record {
          shard =
              after_connection p
                (if r.shard.is_stopping then none else some error)
                (ended p r.shard);
          phase = next_phase delay r.shard;
        })
    updates :
        (added removed : List String) (r : Running F)
        → Step r (record r { shard = update_subscriptions p added removed r.shard })
    softens :
        (r : Running F)
        → r.shard.is_stopping ≡ false
        → Step r (record r { shard = soft_reconnect p r.shard })
    stops : (r : Running F) → Step r (record { shard = stop p r.shard; phase = finished })

  pub data Reach (r : Running F) : Running F → Type 0 where
    here : Reach r r
    next : {t u : Running F} → Reach r t → Step t u → Reach r u

  -- A shard that listens has a socket; one that is healthy listens, and has no failed attempt to
  -- count; and it is done if it has been stopped, and only then or if the delay of its attempt
  -- raises.
  pub record IsConsistent (r : Running F) : Type 0 where
    pub has_socket : r.phase ≡ sending → r.shard.has_ws ≡ true
    pub socket : r.phase ≡ listening → r.shard.has_ws ≡ true
    pub listens : r.shard.state ≡ healthy → (r.phase ≡ listening) × (r.shard.reconnect_attempt ≡ 0)
    pub stopped : r.shard.is_stopping ≡ true → r.phase ≡ finished
    pub done :
        r.phase ≡ finished
        → (r.shard.is_stopping ≡ true) ⊎ (raises (delay r.shard.reconnect_attempt) ≡ true)
    pub went_on :
        r.phase ≡ waiting
        → (r.shard.reconnect_attempt ≡ 0) ⊎ (raises (delay r.shard.reconnect_attempt) ≡ false)

  send_some_lem :
      (m : Method) (symbols : List String) (s : Shard F)
      → let s' = send_some p m symbols s in
        (s'.has_ws ≡ s.has_ws)
        × (s'.state ≡ s.state)
        × (s'.reconnect_attempt ≡ s.reconnect_attempt)
        × (s'.is_stopping ≡ s.is_stopping)
  unfolding send_some send_sub_message
  send_some_lem m symbols s = ground arith

  update_subscriptions_kept :
      (added removed : List String) (s : Shard F)
      → let s' = update_subscriptions p added removed s in
        (s'.has_ws ≡ s.has_ws)
        × (s'.state ≡ s.state)
        × (s'.reconnect_attempt ≡ s.reconnect_attempt)
        × (s'.is_stopping ≡ s.is_stopping)
  unfolding update_subscriptions send_some send_sub_message
  update_subscriptions_kept added removed s = ground arith

  opened_lem :
      (now : F) (s : Shard F)
      → let s' = opened p now s in
        (s'.has_ws ≡ true) × (s'.state ≡ subscribing) × (s'.is_stopping ≡ s.is_stopping)
  unfolding opened send_some send_sub_message
  opened_lem now s = ground arith

  Step-IsConsistent : {r t : Running F} → Step r t → IsConsistent r → IsConsistent t
  unfolding begin_connect settled receive ended after_connection soft_reconnect stop
  Step-IsConsistent (begins r e n) h = ground arith
  Step-IsConsistent (opens now r e) h = ground (arith, opened_lem now r.shard)
  Step-IsConsistent (settles r e) h = ground arith
  Step-IsConsistent (receives now later r e) h = ground arith
  Step-IsConsistent (fails error r e) h = ground arith
  Step-IsConsistent (ends error r e) h = ground arith
  Step-IsConsistent (updates added removed r) h =
      ground (arith, update_subscriptions_kept added removed r.shard)
  Step-IsConsistent (softens r n) h = ground arith
  Step-IsConsistent (stops r) h = ground arith

  -- Whatever happens to a started shard, and in whatever order: if it listens it has a socket, if
  -- its state is HEALTHY it listens and has no failed attempt to count; if it is stopped its task
  -- is done, and if its task is done the shard has been stopped or the delay for its reconnect
  -- attempt raises; and before an attempt after the first that delay has been computed.
  pub Reach-IsConsistent :
      (shard_id : String) (symbols : List String) {t : Running F}
      → Reach (record { shard = start p symbols (new_shard shard_id); phase = waiting }) t
      → IsConsistent t
  unfolding start
  Reach-IsConsistent shard_id symbols here = ground arith
  Reach-IsConsistent shard_id symbols (next r s) =
      Step-IsConsistent s (Reach-IsConsistent shard_id symbols r)

  -- What the next connection leads to.
  abbrev pub recovered : F → Shard F → Shard F
  recovered now s = settled p (opened p now (begin_connect p s))

  append_reach : {r t u : Running F} → Reach r t → Reach t u → Reach r u
  append_reach a here = a
  append_reach a (next b s) = next (append_reach a b) s

  from_waiting :
      (now : F) (r : Running F)
      → r.phase ≡ waiting
      → r.shard.is_stopping ≡ false
      → Reach r (record { shard = recovered now r.shard; phase = listening })
  from_waiting now r e n =
      next (next (next here (begins r e n)) (opens now _ refl)) (settles _ refl)

  kept_symbols : Shard F → List String
  kept_symbols s = difference (union s.symbols s.pending_add) s.pending_remove

  -- The steps back to a connection: a failure of the present one, if there is one.
  to_waiting :
      (error : String) (r : Running F)
      → r.phase ≢ finished
      → r.shard.is_stopping ≡ false
      → raises (delay (r.shard.reconnect_attempt + 1)) ≡ false
      → (s : Shard F) × Reach r (record { shard = s; phase = waiting })
        × (s.is_stopping ≡ false)
        × (kept_symbols s ≡ kept_symbols r.shard)
  unfolding kept_symbols
  to_waiting error r n go in_time =
      let on : next_phase delay r.shard ≡ waiting = ground (arith, go, in_time) in
      elim (Bool-cases (is_connecting r.phase)) [
        | inl busy ↦ (
          after_connection p (some error) r.shard,
          subst
              (λ q. Reach r (record { shard = after_connection p (some error) r.shard; phase = q }))
              on (next here (fails error r busy)),
          unfold after_connection in ground arith,
          unfold after_connection in ground arith,
        )
        | inr idle ↦
            let e : r.phase ≡ waiting = ground arith in
            (r.shard, subst (λ q. Reach r (record { shard = r.shard; phase = q })) e here, go, refl)
      ]

  -- If a subscription message has room for a topic: from wherever a shard stands whose task is not
  -- done and that has not been stopped, a failure of its connection included, if the delay for the
  -- next attempt does not raise, there are steps to a healthy connection with no failed attempt to
  -- count, that has subscribed exactly the topics of the symbols that the shard then owns, which
  -- are those it owned with its pending changes applied.
  pub recovers :
      (now : F) (error : String) (r : Running F)
      → 0 < p.max_params
      → r.phase ≢ finished
      → r.shard.is_stopping ≡ false
      → raises (delay (r.shard.reconnect_attempt + 1)) ≡ false
      → (t : Running F) × Reach r t
        × (t.phase ≡ listening)
        × (t.shard.state ≡ healthy)
        × (t.shard.reconnect_attempt ≡ 0)
        × (params_of t.shard.sent ≡ topics_of p t.shard.symbols)
        × (t.shard.symbols
            ≡ difference (union r.shard.symbols r.shard.pending_add) r.shard.pending_remove)
  unfolding settled begin_connect kept_symbols
  recovers now error r h n go in_time =
      let (s, back, go', same) = to_waiting error r n go in_time in
      let (named, symbols) = params-opened p now (begin_connect p s) h in
      (
        record { shard = recovered now s; phase = listening },
        append_reach back (from_waiting now (record { shard = s; phase = waiting }) refl go'),
        refl,
        refl,
        refl,
        named,
        symbols ∙ same,
      )
