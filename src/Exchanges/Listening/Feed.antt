-- ===== src/Exchanges/Listening/Feed.antt =====
-- What reaches the sink of a connection.
use binance_momentu.Prelude.{
  ◌+◌, ◌≡◌, refl, Option, none, some, List, [], ◌∷◌, ◌++◌, length, Result, if-cases, ap, sym, ◌∙◌,
  result-cases, ok, raise, arith,
}
use binance_momentu.Float.{Float}
use binance_momentu.Domain.Events.{Event}
use binance_momentu.Exchanges.Shard.{Protocol, Shard, receive}
use binance_momentu.Exchanges.Listening.{
  Arrival, Stop, closed, failed, Ear, push_some, push_all, unless_left, hear_all,
}

abbrev pub with_event : {F : Type 0} → Result (Option (Event F)) → List (Event F) → List (Event F)
with_event (ok (some e)) es = e ∷ es
with_event (ok none) es = es
with_event (raise e) es = es

module _ {F : Type 0} (event_of_message : Arrival F → Result (Option (Event F))) where
  -- The events that the messages bring, in order.
  unfoldable pub events_of : List (Arrival F) → List (Event F)
  events_of [] = []
  events_of (a ∷ more) = with_event (event_of_message a) (events_of more)

module _ {F S : Type 0} ⦃f : Float F⦄ (p : Protocol F)
    (event_of_message : Arrival F → Result (Option (Event F))) (push : Event F → S → S) where
  -- What was heard of the messages, when the loop was left.
  pub record Heard (s : Shard F) (sink : S) (all : List (Arrival F)) (end : Ear F S × Option Stop)
      : Type 0 where
    pub heard : List (Arrival F)
    pub rest : List (Arrival F)
    pub is_split : all ≡ heard ++ rest
    pub pushed : end.0.1 ≡ push_all push (events_of event_of_message heard) sink
    pub counted : end.0.0.messages_received ≡ s.messages_received + length heard
    pub same_shard :
        record (end.0.0) {
          messages_received = s.messages_received;
          last_message_at = s.last_message_at;
        }
        ≡ s
    pub finished : end.1 ≡ none → rest ≡ []

  push_all-with_event :
      (m : Result (Option (Event F))) (o : Option (Event F)) (es : List (Event F)) (sink : S)
      → m ≡ ok o
      → push_all push (with_event m es) sink ≡ push_all push es (push_some push o sink)
  unfolding push_all
  push_all-with_event m none es sink e = rw e refl
  push_all-with_event m (some x) es sink e = rw e refl

  -- The loop was left after the message.
  left-Heard :
      (a : Arrival F) (more : List (Arrival F)) (s : Shard F) (sink sink' : S) (stop : Stop)
      → sink' ≡ push_all push (events_of event_of_message (a ∷ [])) sink
      → Heard s sink (a ∷ more) (((receive p a.heard_at a.done_at s).0, sink'), some stop)
  unfolding receive
  left-Heard a more s sink sink' stop h = record {
    heard = a ∷ [];
    rest = more;
    is_split = refl;
    pushed = h;
    counted = omega arith;
    same_shard = refl;
    finished = λ e. cc;
  }

  -- The loop went on with the messages after it.
  went_on-Heard :
      (a : Arrival F) (more : List (Arrival F)) (s : Shard F) (sink : S) (o : Option (Event F))
      (end : Ear F S × Option Stop)
      → event_of_message a ≡ ok o
      → Heard (receive p a.heard_at a.done_at s).0 (push_some push o sink) more end
      → Heard s sink (a ∷ more) end
  unfolding receive events_of push_all
  went_on-Heard a more s sink o end e h = record {
    heard = a ∷ h.heard;
    rest = h.rest;
    is_split = ap (λ t. a ∷ t) h.is_split;
    pushed =
        h.pushed
        ∙ sym (
            push_all-with_event (event_of_message a) o (events_of event_of_message h.heard) sink e);
    counted = omega (arith, h.counted);
    same_shard =
        ap
          (λ (t : Shard F). record t {
            messages_received = s.messages_received;
            last_message_at = s.last_message_at;
          })
          h.same_shard;
    finished = h.finished;
  }

  -- The messages that a connection hears before the loop is left are a beginning of all that
  -- come, and all of them if no exception and no silence ended the loop. The sink gets exactly the
  -- events they bring, in order, each message is counted, and the shard keeps all else as it was.
  pub hear_all-Heard :
      (all : List (Arrival F)) (s : Shard F) (sink : S)
      → Heard s sink all (hear_all p event_of_message push all (s, sink))
  unfolding hear_all events_of push_all receive
  hear_all-Heard [] s sink = record {
    heard = [];
    rest = [];
    is_split = refl;
    pushed = refl;
    counted = ground arith;
    same_shard = refl;
    finished = λ e. refl;
  }
  hear_all-Heard (a ∷ more) s sink =
      let s' = (receive p a.heard_at a.done_at s).0 in
      result-cases
        (λ t. Heard s sink (a ∷ more) (unless_left t (hear_all p event_of_message push more)))
        (event_of_message a)
        (λ e h.
          left-Heard a more s sink sink (failed e)
            (ap (λ m. push_all push (with_event m []) sink) (sym h)))
        (λ o h.
          if-cases
            (λ stop. Heard s sink (a ∷ more) (
              unless_left ((s', push_some push o sink), stop)
                (hear_all p event_of_message push more)))
            (receive p a.heard_at a.done_at s).1
            (λ e.
              left-Heard a more s sink (push_some push o sink) closed
                (sym (push_all-with_event (event_of_message a) o [] sink h)))
            (λ e.
              went_on-Heard a more s sink o _ h (hear_all-Heard more s' (push_some push o sink))))
