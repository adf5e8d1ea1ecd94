-- ===== src/Tests/Streams.antt =====
-- The theorems on the messages of Bybit, applied to a minute, an answer and a broken text.
use binance_momentu.Prelude.{
  ℕ, Result, ◌≡◌, ◌≢◌, refl, true, inl, inr, none, some, List, [], ◌∷◌, ◌++◌, ok,
}
use binance_momentu.Float.Fixed.{Fixed, fixed_float}
use binance_momentu.Domain.Events.{Event}
use binance_momentu.Exchanges.Payload.{Json, null, number, text, object, Fields, end, field, find}
use binance_momentu.Exchanges.Shard.{Shard, new_shard, start}
use binance_momentu.Exchanges.Bybit.{bybit_protocol, default_topic_templates}
use binance_momentu.Exchanges.Bybit.Normalize.{normalize_message}
use binance_momentu.Exchanges.Bybit.Normalize.Published.{
  Published, minute, has_dot, message_of, event_of,
}
use binance_momentu.Exchanges.Bybit.Normalize.Roundtrip.{normalize_message-message_of}
use binance_momentu.Exchanges.Listening.{Arrival, bybit_event, push_all, hear_all}
use binance_momentu.Exchanges.Listening.Feed.{Heard, hear_all-Heard}
use binance_momentu.Exchanges.Listening.Market.{
  Delivery, arrivals, market_events, hear_all-market_events,
}
use binance_momentu.Exchanges.Shard.Life.{listening, IsConsistent}
use binance_momentu.Exchanges.Bybit.Pinging.{
  start_bybit, connect_bybit, open_bybit, settle_bybit, ping_once,
}
use binance_momentu.Exchanges.Bybit.Pinging.Steps.{
  RunningBybit, BybitReach, at_first, then_step, connects, is_open, listens, pings, forget,
  protocol_of, IsPinging, at_start, BybitReach-IsPinging,
}
use binance_momentu.Tests.Messages.{reader, writes_numbers}
use binance_momentu.Tests.Samples.{decimal}

abbrev delay : ℕ → Result Fixed
delay n = ok (decimal 1 0)

no_null : (x : Fixed) → ◌≢◌ {A = Json Fixed} (number x) null
no_null x = λ e. cc

abbrev pub traded : Published Fixed
traded =
    minute "SOLUSDT" 1000 0 59 (decimal 10 0) (decimal 12 0) (decimal 9 0) (decimal 11 0)
      (decimal 5 0) (decimal 50 0) true

normalize_message-message_of_example :
    normalize_message reader 1000 1005 (λ s. true) (message_of number traded)
    ≡ ok (some (event_of 1005 true traded))
unfolding has_dot
normalize_message-message_of_example =
    normalize_message-message_of reader number writes_numbers no_null (λ s. true) 1000 1005 traded
      refl

abbrev pong : Fields Fixed
pong = field "op" (text "pong") end

abbrev arrival : Fields Fixed → Arrival Fixed
arrival fs = record {
  message = some (object fs);
  wall = 1000;
  made = 1005;
  heard_at = decimal 1 0;
  done_at = decimal 1 0;
}

-- The minute between an answer and a message that does not decode.
abbrev deliveries : List (Delivery Fixed)
deliveries =
    (arrival pong, none)
    ∷ (arrival (message_of number traded), some traded)
    ∷ (record (arrival end) { message = none }, none)
    ∷ []

abbrev collected : Event Fixed → List (Event Fixed) → List (Event Fixed)
collected e es = es ++ e ∷ []

abbrev listener : Shard Fixed
listener = new_shard "bybit-0"

hear_all-market_events_example :
    let after =
      hear_all
        (bybit_protocol default_topic_templates)
        (bybit_event reader (λ s. true))
        collected
        (arrivals deliveries)
        (listener, []) in
    (after.0.1 ≡ push_all collected (market_events (λ s. true) deliveries) []) × (after.1 ≡ none)
unfolding find has_dot
hear_all-market_events_example =
    hear_all-market_events reader number writes_numbers no_null (λ s. true) collected
      default_topic_templates deliveries listener []
      (inr (pong, refl, refl), ((refl, refl), (inl refl, tt)))

-- A minute without its prices is an exception, and the pong after it is not heard.
abbrev spoilt : List (Arrival Fixed)
spoilt =
    arrival (field "topic" (text "kline.1.SOLUSDT") (field "data" (object pong) end))
    ∷ arrival pong
    ∷ []

hear_all-Heard_example :
    Heard
      (bybit_protocol default_topic_templates)
      (bybit_event reader (λ s. true))
      collected
      listener
      []
      spoilt
      (hear_all
        (bybit_protocol default_topic_templates)
        (bybit_event reader (λ s. true))
        collected
        spoilt
        (listener, []))
hear_all-Heard_example =
    hear_all-Heard (bybit_protocol default_topic_templates) (bybit_event reader (λ s. true))
      collected spoilt listener []

abbrev fresh : RunningBybit Fixed
fresh = at_start delay "bybit-0" default_topic_templates ("SOLUSDT" ∷ [])

-- Connected, and one ping sent.
abbrev pinged : RunningBybit Fixed
pinged = record {
  bybit = ping_once true (settle_bybit (open_bybit (decimal 1 0) (connect_bybit fresh.bybit)));
  phase = listening;
}

pinged-reached : BybitReach delay fresh pinged
unfolding start_bybit connect_bybit open_bybit settle_bybit ping_once start
pinged-reached =
    then_step
      (then_step
        (then_step (then_step at_first (connects fresh refl refl)) (is_open (decimal 1 0) _ refl))
        (listens _ refl))
      (pings true _ refl)

BybitReach-IsPinging_example :
    (protocol_of delay pinged ≡ default_topic_templates)
    × IsPinging delay pinged
    × IsConsistent (bybit_protocol default_topic_templates) delay (forget delay pinged)
BybitReach-IsPinging_example =
    BybitReach-IsPinging delay "bybit-0" default_topic_templates ("SOLUSDT" ∷ []) pinged-reached
