-- ===== src/Features/OiPoller/Tasks.antt =====
-- app/features/oi_poller.py with the tasks that still run: `_poll_loop` ends on an exception that
-- its client does not catch, and `_tasks` keeps the key.
use binance_momentu.Prelude.{
  ℕ, ◌≡◌, refl, ◌∙◌, true, false, not, ◌&&◌, ◌||◌, if◌then◌else◌, Option, List, [], ◌∷◌, All,
  String, if-cases, result-cases, Result, ok, raise, arith,
}
use binance_momentu.Prelude.Sets.{contains, difference, contains-difference}
use binance_momentu.Float.{Float}
use binance_momentu.Domain.Enums.{Exchange, binance, bybit}
use binance_momentu.Features.Store.{FeatureStore, same_exchange}
use binance_momentu.Features.OiPoller.{
  OiPoller, TaskKey, has_task, existing, start_tasks, pop_task, cancel_tasks, sync_exchange,
  sync_tasks, poll_once, has_task-start_tasks, has_task-cancel_tasks, contains-existing,
  sync_tasks_lem, same_exchange_iff, has_task-pop_task, has_task-sync_exchange,
}
use binance_momentu.Domain.Events.{OiEvent}
use binance_momentu.Exchanges.Payload.{Json, Reader}
use binance_momentu.Exchanges.OpenInterest.{fetch_open_interest}

pub record Polling (F : Type 0) : Type 0 where
  pub poller : OiPoller
  pub running : List TaskKey
  pub store : FeatureStore F

-- What `sync_tasks` does to the running tasks of an exchange: it starts the new keys and cancels
-- the old ones, by the keys of `_tasks`.
unfoldable pub sync_running : Exchange → List String → (tasks running : List TaskKey) → List TaskKey
sync_running x wanted tasks running =
    let keys = existing x tasks in
    cancel_tasks x (difference keys wanted) (start_tasks x (difference wanted keys) running)

-- A turn of one task with the reply to its request, or a call of `sync_tasks`.
pub data Turn (F : Type 0) : Type 0 where
  polled : TaskKey → Result (Json F) → Turn F
  synced : (Exchange → List String) → Turn F

module _ {F : Type 0} ⦃f : Float F⦄ (r : Reader F) (now later : ℕ) where
  unfoldable pub poll : TaskKey → Result (Json F) → Polling F → Polling F
  poll key reply s = elim (fetch_open_interest r now later key.1 key.0 reply) [
    | ok o ↦ record s { store = poll_once o s.store }
    | raise e ↦ record s { running = pop_task key s.running }
  ]

  unfoldable pub sync : (Exchange → List String) → Polling F → Polling F
  sync wanted s =
      let first = sync_exchange binance (wanted binance) s.poller.tasks in
      record s {
        poller = sync_tasks wanted s.poller;
        running =
            sync_running bybit (wanted bybit) first
              (sync_running binance (wanted binance) s.poller.tasks s.running);
      }

  -- A turn of a task that does not run is none, and a stopped poller's task ends instead.
  unfoldable pub poll_turn : Turn F → Polling F → Polling F
  unfolding poll sync
  poll_turn (polled key reply) s =
      if has_task key s.running
      then if s.poller.is_stopping
        then record s { running = pop_task key s.running }
        else poll key reply s
      else s
  poll_turn (synced wanted) s = sync wanted s

  unfoldable pub poll_turns : List (Turn F) → Polling F → Polling F
  poll_turns [] s = s
  poll_turns (t ∷ ts) s = poll_turns ts (poll_turn t s)

  -- The symbol is wanted at each synchronisation.
  abbrev pub Wants : TaskKey → Turn F → Type 0
  Wants key (polled _ _) = true ≡ true
  Wants key (synced wanted) = contains key.1 (wanted key.0) ≡ true

  -- No request ends in an exception.
  abbrev pub Answers : Turn F → Type 0
  Answers (polled key reply) =
      (o : Option (OiEvent F)) × (fetch_open_interest r now later key.1 key.0 reply ≡ ok o)
  Answers (synced wanted) = true ≡ true

  -- The task has ended, and its key is still there.
  pub record IsDead (key : TaskKey) (s : Polling F) : Type 0 where
    pub kept : has_task key s.poller.tasks ≡ true
    pub ended : has_task key s.running ≡ false

has_task-sync_running :
    (x y : Exchange) (s : String) (wanted : List String) (ks rs : List TaskKey)
    → has_task (y, s) (sync_running x wanted ks rs) ≡ (
        if same_exchange x y
        then (has_task (y, s) rs || (contains s wanted && not (has_task (y, s) ks)))
          && not (has_task (y, s) ks && not (contains s wanted))
        else has_task (y, s) rs)
unfolding sync_running
has_task-sync_running x y s wanted ks rs =
    let keys = existing x ks in
    ground (
      arith,
      has_task-cancel_tasks x y s (difference keys wanted)
          (start_tasks x (difference wanted keys) rs),
      has_task-start_tasks x y s (difference wanted keys) rs,
      contains-difference s keys wanted,
      contains-difference s wanted keys,
      contains-existing x s ks,
      same_exchange_iff x y,
    )

module _ {F : Type 0} ⦃f : Float F⦄ (r : Reader F) (now later : ℕ) where
  -- What a synchronisation makes of a key, in `_tasks` and among the running tasks.
  has_task-sync :
      (wanted : Exchange → List String) (s : Polling F) (x : Exchange) (name : String)
      → let s' = sync r now later wanted s in
        let t = has_task (x, name) s.poller.tasks in
        (has_task (x, name) s'.poller.tasks ≡ contains name (wanted x))
        × (has_task (x, name) s'.running ≡ (
            (has_task (x, name) s.running || (contains name (wanted x) && not t))
            && not (t && not (contains name (wanted x)))))
  unfolding sync
  has_task-sync wanted s binance name =
      let first = sync_exchange binance (wanted binance) s.poller.tasks in
      let started = sync_running binance (wanted binance) s.poller.tasks s.running in
      (
        (sync_tasks_lem wanted s.poller).0 binance name,
        has_task-sync_running bybit binance name (wanted bybit) first started
            ∙ has_task-sync_running binance binance name (wanted binance) s.poller.tasks s.running,
      )
  has_task-sync wanted s bybit name =
      let first = sync_exchange binance (wanted binance) s.poller.tasks in
      let started = sync_running binance (wanted binance) s.poller.tasks s.running in
      (
        (sync_tasks_lem wanted s.poller).0 bybit name,
        ground (
          arith,
          has_task-sync_running bybit bybit name (wanted bybit) first started,
          has_task-sync_running binance bybit name (wanted binance) s.poller.tasks s.running,
          has_task-sync_exchange binance bybit name (wanted binance) s.poller.tasks,
        ),
      )

  poll_turn-IsDead :
      (key : TaskKey) (t : Turn F) (s : Polling F)
      → Wants r now later key t
      → IsDead r now later key s
      → IsDead r now later key (poll_turn r now later t s)
  unfolding poll_turn
  poll_turn-IsDead key (polled other reply) s w d =
      let popped : IsDead r now later key (record s { running = pop_task other s.running }) =
        record {
          kept = d.kept;
          ended = ground (arith, has_task-pop_task key other s.running, d.ended);
        } in
      if-cases (IsDead r now later key) (has_task other s.running)
        (λ _.
          if-cases (IsDead r now later key) s.poller.is_stopping (λ _. popped)
            (λ _.
              result-cases (IsDead r now later key)
                (fetch_open_interest r now later other.1 other.0 reply) (λ e _. popped)
                (λ o _. record { kept = d.kept; ended = d.ended })))
        (λ _. d)
  poll_turn-IsDead (x, name) (synced wanted) s w d =
      let (tasks, running) = has_task-sync wanted s x name in
      record { kept = tasks ∙ w; ended = ground (arith, running, d.kept, d.ended) }

  -- A task that an exception has ended is never started again while its symbol stays wanted: its
  -- key is still in `_tasks`, whatever the other tasks do and however often `sync_tasks` is called.
  pub poll_turns-IsDead :
      (key : TaskKey) (ts : List (Turn F)) (s : Polling F)
      → All (Wants r now later key) ts
      → IsDead r now later key s
      → IsDead r now later key (poll_turns r now later ts s)
  unfolding poll_turns
  poll_turns-IsDead key [] s w d = d
  poll_turns-IsDead key (t ∷ ts) s w d =
      poll_turns-IsDead key ts _ w.1 (poll_turn-IsDead key t s w.0 d)

  -- The poller is not stopped, and the tasks that run are those of `_tasks`.
  abbrev pub IsInStep : Polling F → Type 0
  IsInStep s =
      (s.poller.is_stopping ≡ false)
      × ((key : TaskKey) → has_task key s.running ≡ has_task key s.poller.tasks)

  in_step :
      (wanted : Exchange → List String) (s : Polling F) (key : TaskKey)
      → has_task key s.running ≡ has_task key s.poller.tasks
      → has_task key (sync r now later wanted s).running
        ≡ has_task key (sync r now later wanted s).poller.tasks
  in_step wanted s (x, name) h =
      let (tasks, running) = has_task-sync wanted s x name in ground (arith, tasks, running, h)

  poll_turn-IsInStep :
      (t : Turn F) (s : Polling F)
      → Answers r now later t
      → IsInStep s
      → IsInStep (poll_turn r now later t s)
  unfolding poll_turn
  poll_turn-IsInStep (polled other reply) s (o, e) h =
      if-cases IsInStep (has_task other s.running)
        (λ _.
          if-cases IsInStep s.poller.is_stopping (λ on. absurd (ground arith))
            (λ _. rw (poll, e) h))
        (λ _. h)
  poll_turn-IsInStep (synced wanted) s a h =
      (unfold sync in unfold sync_tasks in h.0, λ key. in_step wanted s key (h.1 key))

  poll_turns-IsInStep :
      (ts : List (Turn F)) (s : Polling F)
      → All (Answers r now later) ts
      → IsInStep s
      → IsInStep (poll_turns r now later ts s)
  unfolding poll_turns
  poll_turns-IsInStep [] s a h = h
  poll_turns-IsInStep (t ∷ ts) s a h = poll_turns-IsInStep ts _ a.1 (poll_turn-IsInStep t s a.0 h)

  -- If the poller is not stopped and its running tasks are those of `_tasks`, as long as no request
  -- ends in an exception: after each synchronisation exactly the wanted symbols of both exchanges
  -- have a running task, and the poller is not stopped.
  pub running_wanted :
      (ts : List (Turn F)) (wanted : Exchange → List String) (s : Polling F)
      → All (Answers r now later) ts
      → IsInStep s
      → (x : Exchange) (name : String)
      → let s' = poll_turn r now later (synced wanted) (poll_turns r now later ts s) in
        (has_task (x, name) s'.running ≡ contains name (wanted x)) × (s'.poller.is_stopping ≡ false)
  running_wanted ts wanted s a h x name =
      let s' = poll_turns r now later ts s in
      let (going, same) =
        poll_turn-IsInStep (synced wanted) s' refl (poll_turns-IsInStep ts s a h) in
      (same (x, name) ∙ unfold poll_turn in (has_task-sync wanted s' x name).0, going)
