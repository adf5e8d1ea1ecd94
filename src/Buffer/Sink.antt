-- ===== src/Buffer/Sink.antt =====
-- app/buffer/sink.py: `RingBufferSink`, which keeps an overload out of the receive loop.
use binance_momentu.Prelude.{Bool, false}
use binance_momentu.Float.{Float}
use binance_momentu.Buffer.{RingBuffer, Prioritized, Outcome, returned, overload, push}

abbrev pub answer : Outcome → Bool
answer (returned accepted) = accepted
answer overload = false

module _ {F E : Type 0} ⦃f : Float F⦄ ⦃h : Prioritized E⦄ where
  pub sink_push : E → RingBuffer F E → RingBuffer F E × Bool
  sink_push e b = let (b', o) = push e b in (b', answer o)
