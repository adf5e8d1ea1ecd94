-- ===== src/Features/OiPoller.antt =====
-- app/features/oi_poller.py: `OIPoller`, which tasks run. `_tasks` is the list of its keys, in the
-- order of insertion, since a task does nothing but poll for its key. What a fetch returned is an
-- argument.
pub mod Tasks
use binance_momentu.Prelude.{
  ◌≡◌, ◌↔◌, refl, sym, ap, ◌∙◌, Bool, true, false, not, ◌&&◌, ◌||◌, if◌then◌else◌, Option, none,
  some, List, [], ◌∷◌, ◌++◌, String, eq_iff, arith, if-cases,
}
use binance_momentu.Prelude.Sets.{contains, difference, contains-difference}
use binance_momentu.Domain.Enums.{Exchange, binance, bybit}
use binance_momentu.Domain.Events.{oi, OiEvent}
use binance_momentu.Features.Store.{
  FeatureStore, ingest, same_exchange, same_symbol, same_symbol_iff,
}

abbrev pub TaskKey : Type 0
TaskKey = Exchange × String

pub record OiPoller : Type 0 where
  pub tasks : List TaskKey
  pub is_stopping : Bool

unfoldable pub has_task : TaskKey → List TaskKey → Bool
has_task key [] = false
has_task key (k ∷ ks) = same_symbol k key || has_task key ks

-- The symbols that have a task on the exchange.
unfoldable pub existing : Exchange → List TaskKey → List String
existing x [] = []
existing x (k ∷ ks) = let rest = existing x ks in if same_exchange k.0 x then k.1 ∷ rest else rest

unfoldable pub start_tasks : Exchange → List String → List TaskKey → List TaskKey
start_tasks x [] tasks = tasks
start_tasks x (s ∷ ss) tasks = start_tasks x ss (tasks ++ (x, s) ∷ [])

unfoldable pub pop_task : TaskKey → List TaskKey → List TaskKey
pop_task key [] = []
pop_task key (k ∷ ks) = let rest = pop_task key ks in if same_symbol k key then rest else k ∷ rest

unfoldable pub cancel_tasks : Exchange → List String → List TaskKey → List TaskKey
cancel_tasks x [] tasks = tasks
cancel_tasks x (s ∷ ss) tasks = cancel_tasks x ss (pop_task (x, s) tasks)

-- One turn of the loop of `sync_tasks`.
unfoldable pub sync_exchange : Exchange → List String → List TaskKey → List TaskKey
sync_exchange x wanted tasks =
    let running = existing x tasks in
    cancel_tasks x (difference running wanted) (start_tasks x (difference wanted running) tasks)

-- `wanted` are the current candidates of each exchange.
unfoldable pub sync_tasks : (Exchange → List String) → OiPoller → OiPoller
sync_tasks wanted p = record p {
  tasks = sync_exchange bybit (wanted bybit) (sync_exchange binance (wanted binance) p.tasks);
}

abbrev pub stop_polling : OiPoller → OiPoller
stop_polling p = record { tasks = []; is_stopping = true }

-- One turn of `_poll_loop`, with what the fetch returned.
unfoldable pub poll_once : {F : Type 0} → Option (OiEvent F) → FeatureStore F → FeatureStore F
poll_once none store = store
poll_once (some e) store = ingest (oi e) store

pub contains-existing :
    (x : Exchange) (s : String) (ks : List TaskKey)
    → contains s (existing x ks) ≡ has_task (x, s) ks
unfolding contains existing has_task
contains-existing x s [] = refl
contains-existing x s (k ∷ ks) = ground (arith, contains-existing x s ks)

has_task-append :
    (key k : TaskKey) (ks : List TaskKey)
    → has_task key (ks ++ k ∷ []) ≡ (has_task key ks || same_symbol k key)
unfolding has_task
has_task-append key k [] = ground arith
has_task-append key k (j ∷ ks) = ground (arith, has_task-append key k ks)

pub has_task-start_tasks :
    (x y : Exchange) (s : String) (ss : List String) (ks : List TaskKey)
    → has_task (y, s) (start_tasks x ss ks)
      ≡ (has_task (y, s) ks || (same_exchange x y && contains s ss))
unfolding start_tasks contains
has_task-start_tasks x y s [] ks = ground arith
has_task-start_tasks x y s (t ∷ ss) ks =
    ground
      (arith, has_task-start_tasks x y s ss (ks ++ (x, t) ∷ []), has_task-append (y, s) (x, t) ks)

same_pair : (j k key : TaskKey) → same_symbol j k ≡ true → same_symbol j key ≡ same_symbol k key
same_pair j k key e = ap (λ a. same_symbol a key) ((same_symbol_iff j k).0 e)

same_as_key :
    (j k key : TaskKey)
    → same_symbol j key ≡ true
    → same_symbol k key ≡ true
    → same_symbol j k ≡ true
same_as_key j k key a b =
    (same_symbol_iff j k).1 ((same_symbol_iff j key).0 a ∙ sym ((same_symbol_iff k key).0 b))

pub has_task-pop_task :
    (key k : TaskKey) (ks : List TaskKey)
    → has_task key (pop_task k ks) ≡ (has_task key ks && not (same_symbol k key))
unfolding has_task pop_task
has_task-pop_task key k [] = refl
has_task-pop_task key k (j ∷ ks) =
    let goes_on = has_task-pop_task key k ks in
    if-cases
      (λ r. has_task key r ≡ ((same_symbol j key || has_task key ks) && not (same_symbol k key)))
      (same_symbol j k) (λ e. let same = same_pair j k key e in ground arith)
      (λ e. ground (arith, goes_on, same_as_key j k key))

pub has_task-cancel_tasks :
    (x y : Exchange) (s : String) (ss : List String) (ks : List TaskKey)
    → has_task (y, s) (cancel_tasks x ss ks)
      ≡ (has_task (y, s) ks && not (same_exchange x y && contains s ss))
unfolding cancel_tasks contains
has_task-cancel_tasks x y s [] ks = ground arith
has_task-cancel_tasks x y s (t ∷ ss) ks =
    ground (
      arith,
      has_task-cancel_tasks x y s ss (pop_task (x, t) ks),
      has_task-pop_task (y, s) (x, t) ks,
    )

pub same_exchange_iff : (x y : Exchange) → (same_exchange x y ≡ true) ↔ (x ≡ y)
same_exchange_iff x y = ground arith

pub has_task-sync_exchange :
    (x y : Exchange) (s : String) (wanted : List String) (ks : List TaskKey)
    → has_task (y, s) (sync_exchange x wanted ks)
      ≡ (if same_exchange x y then contains s wanted else has_task (y, s) ks)
unfolding sync_exchange
has_task-sync_exchange x y s wanted ks =
    let running = existing x ks in
    ground (
      arith,
      has_task-cancel_tasks x y s (difference running wanted)
          (start_tasks x (difference wanted running) ks),
      has_task-start_tasks x y s (difference wanted running) ks,
      contains-difference s running wanted,
      contains-difference s wanted running,
      contains-existing x s ks,
      same_exchange_iff x y,
    )

difference-nil :
    (xs ys : List String)
    → ((s : String) → contains s xs ≡ true → contains s ys ≡ true)
    → difference xs ys ≡ []
unfolding difference contains
difference-nil [] ys h = refl
difference-nil (x ∷ xs) ys h =
    rw (h x (ground (arith, eq_iff x x))) (difference-nil xs ys (λ s e. h s (ground arith)))

-- An exchange whose tasks are as wanted is left as it is.
sync_exchange_settled :
    (x : Exchange) (wanted : List String) (ks : List TaskKey)
    → ((s : String) → has_task (x, s) ks ≡ contains s wanted)
    → sync_exchange x wanted ks ≡ ks
unfolding sync_exchange start_tasks cancel_tasks
sync_exchange_settled x wanted ks h =
    let running = existing x ks in
    let none_new = difference-nil wanted running (λ s c. contains-existing x s ks ∙ h s ∙ c) in
    let none_old =
      difference-nil running wanted (λ s c. sym (h s) ∙ sym (contains-existing x s ks) ∙ c) in
    rw (none_new, none_old) refl

tasks_wanted :
    (wanted : Exchange → List String) (ks : List TaskKey) (x : Exchange) (s : String)
    → has_task
        (x, s)
        (sync_exchange bybit (wanted bybit) (sync_exchange binance (wanted binance) ks))
      ≡ contains s (wanted x)
tasks_wanted wanted ks binance s =
    has_task-sync_exchange bybit binance s (wanted bybit)
      (sync_exchange binance (wanted binance) ks)
    ∙ has_task-sync_exchange binance binance s (wanted binance) ks
tasks_wanted wanted ks bybit s =
    has_task-sync_exchange bybit bybit s (wanted bybit) (sync_exchange binance (wanted binance) ks)

-- After `sync_tasks` exactly the current candidates of each exchange have a polling task, and doing
-- it again changes nothing.
pub sync_tasks_lem :
    (wanted : Exchange → List String) (p : OiPoller)
    → let p' = sync_tasks wanted p in
      ((x : Exchange) (s : String) → has_task (x, s) p'.tasks ≡ contains s (wanted x))
      × (sync_tasks wanted p' ≡ p')
unfolding sync_tasks
sync_tasks_lem wanted p =
    let ks = sync_exchange bybit (wanted bybit) (sync_exchange binance (wanted binance) p.tasks) in
    let all = tasks_wanted wanted p.tasks in
    (
      all,
      ap (λ (t : List TaskKey). record p { tasks = t })
          (ap (sync_exchange bybit (wanted bybit))
              (sync_exchange_settled binance (wanted binance) ks (all binance))
            ∙ sync_exchange_settled bybit (wanted bybit) ks (all bybit)),
    )
