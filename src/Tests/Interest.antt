-- ===== src/Tests/Interest.antt =====
-- The theorems on the open interest, applied.
use binance_momentu.Prelude.{
  ◌≡◌, refl, inl, inr, false, none, List, [], ◌∷◌, String, Result, Error, ok, raise, arith,
}
use binance_momentu.Prelude.Sets.{contains, difference}
use binance_momentu.Float.Fixed.{Fixed, fixed_float}
use binance_momentu.Domain.Enums.{Exchange, binance}
use binance_momentu.Features.Store.{empty_store}
use binance_momentu.Features.OiPoller.{
  has_task, sync_tasks, sync_exchange, existing, start_tasks, cancel_tasks, pop_task,
}
use binance_momentu.Features.OiPoller.Tasks.{
  Polling, Turn, polled, synced, poll_turn, poll_turns, IsDead, poll_turns-IsDead, sync, poll,
  sync_running, running_wanted,
}
use binance_momentu.Exchanges.Payload.{Json, number, integer, object, field, end, find}
use binance_momentu.Exchanges.OpenInterest.{fetch_open_interest, read_binance}
use binance_momentu.Exchanges.OpenInterest.Replies.{IsPython}
use binance_momentu.Tests.Samples.{decimal}
use binance_momentu.Tests.Messages.{reader, float_of, int_of}

float_refused : (v : Json Fixed) (e : Error) → float_of v ≡ raise e → e ≡ Error.type_error
float_refused (number x) e h = absurd (ground arith)
float_refused v e h = ground arith

int_refused : (v : Json Fixed) (e : Error) → int_of v ≡ raise e → e ≡ Error.type_error
int_refused v e h = ground arith

abbrev python : IsPython reader
python = record {
  float_raises = λ v e h. inl (inr (float_refused v e h));
  int_raises = λ v e h. inl (inr (int_refused v e h));
}

-- The connection broke in the middle of the answer.
abbrev broken : Result (Json Fixed)
broken = raise Error.other_error

broken_raises :
    fetch_open_interest reader 1000 1005 "SOLUSDT" binance broken ≡ raise Error.other_error
unfolding fetch_open_interest
broken_raises = refl

-- The reply of Binance.
abbrev told : Json Fixed
told = object (field "openInterest" (number (decimal 31 0)) (field "time" (integer 990) end))

abbrev solana_wanted : Exchange → List String
solana_wanted x = "SOLUSDT" ∷ []

abbrev polling : Polling Fixed
polling = record {
  poller = record { tasks = []; is_stopping = false };
  running = [];
  store = empty_store 10;
}

-- A task is started, and its request ends in an exception.
abbrev fatal : List (Turn Fixed)
fatal = synced solana_wanted ∷ polled (binance, "SOLUSDT") broken ∷ []

fatal-IsDead :
    IsDead reader 1000 1005 (binance, "SOLUSDT") (poll_turns reader 1000 1005 fatal polling)
unfolding poll_turns poll_turn sync poll sync_tasks sync_exchange sync_running existing start_tasks
    cancel_tasks has_task pop_task difference contains fetch_open_interest
fatal-IsDead = record { kept = refl; ended = refl }

poll_turns-IsDead_example :
    IsDead reader 1000 1005
      (binance, "SOLUSDT")
      (poll_turns reader 1000 1005
        (synced solana_wanted ∷ synced solana_wanted ∷ [])
        (poll_turns reader 1000 1005 fatal polling))
unfolding contains
poll_turns-IsDead_example =
    poll_turns-IsDead reader 1000 1005 (binance, "SOLUSDT")
      (synced solana_wanted ∷ synced solana_wanted ∷ []) (poll_turns reader 1000 1005 fatal polling)
      (refl, (refl, tt)) fatal-IsDead

-- A malformed answer ends no task.
malformed : fetch_open_interest reader 1000 1005 "SOLUSDT" binance (ok (object end)) ≡ ok none
unfolding fetch_open_interest read_binance find
malformed = refl

running_wanted_example :
    let s =
      poll_turn reader 1000 1005 (synced solana_wanted) (
        poll_turns reader 1000 1005 (polled (binance, "SOLUSDT") (ok (object end)) ∷ []) polling) in
    (has_task (binance, "SOLUSDT") s.running ≡ contains "SOLUSDT" (solana_wanted binance))
    × (s.poller.is_stopping ≡ false)
running_wanted_example =
    running_wanted reader 1000 1005 (polled (binance, "SOLUSDT") (ok (object end)) ∷ [])
      solana_wanted polling ((none, malformed), tt) (refl, λ key. refl) binance "SOLUSDT"
