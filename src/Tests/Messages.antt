-- ===== src/Tests/Messages.antt =====
-- The theorems on the normaliser, applied to a closed minute.
use binance_momentu.Prelude.{ℕ, ◌≡◌, refl, true, none, some, Result, Error, ok, raise}
use binance_momentu.Float.Fixed.{Fixed, fixed_float}
use binance_momentu.Domain.Enums.{Exchange, EventType}
use binance_momentu.Domain.Events.{kline, KlineEvent}
use binance_momentu.Exchanges.Payload.{Json, number, integer, Reader}
use binance_momentu.Exchanges.Binance.Normalize.{normalize_message}
use binance_momentu.Exchanges.Binance.Normalize.Roundtrip.{
  IsWriter, sent_over, payload_of, base_of_message, normalize_message-payload_of,
}
use binance_momentu.Tests.Samples.{minute}

abbrev pub float_of : Json Fixed → Result Fixed
float_of (number x) = ok x
float_of _ = raise Error.type_error

abbrev pub int_of : Json Fixed → Result ℕ
int_of (integer n) = ok n
int_of _ = raise Error.type_error

abbrev pub reader : Reader Fixed
reader = record { to_float = float_of; to_int = int_of }

abbrev pub writes_numbers : IsWriter reader number
writes_numbers = record { float_back = λ x. refl; int_back = λ n. refl }

abbrev tested : KlineEvent Fixed
tested = minute Exchange.binance 10000 10400 9800 10000 100 50 10000

abbrev received : KlineEvent Fixed
received = record tested {
  base = base_of_message (λ s. true) 1005 EventType.kline true tested.base;
}

normalize_message-payload_of_example :
    normalize_message reader 1000 1005
      (λ s. true)
      (sent_over number none (payload_of number true (kline received)))
    ≡ ok (some (kline received))
normalize_message-payload_of_example =
    normalize_message-payload_of reader number writes_numbers true (λ s. true) 1000 1005 none
      (kline received) refl
