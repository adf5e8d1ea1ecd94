-- ===== src/Notifications.antt =====
-- app/notifications/bus.py: `NotificationBus`, a bounded list of notifications that suppresses the
-- repetitions within a window. The monotonic clock is an argument of `notify`; the dictionary that
-- a notification may carry is left out.
use Prim.Native.String.{◌++◌ as concat}
use binance_momentu.Prelude.{
  ℕ, ◌-◌, ◌≤◌, ◌≡◌, ◌≢◌, Bool, true, false, not, if◌then◌else◌, none, some, List, [], ◌∷◌, ◌++◌,
  String, eq_iff, length, length-drop, drop, arith, ◌==◌,
}
use binance_momentu.Prelude.Dict.{Dict, lookup, insert, string_key, lookup-insert}
use binance_momentu.Float.{Float, ◌⊖◌, ◌<?◌}
use binance_momentu.Features.Store.{append_bounded}

pub record Notification : Type 0 where
  pub kind : String
  pub symbol : String
  pub exchange : String
  pub message : String
  pub severity : String
  pub created_at_ms : ℕ

pub record NotificationBus (F : Type 0) : Type 0 where
  pub max_size : ℕ
  pub dedup_window_seconds : F
  pub items : List Notification
  pub last_sent : Dict String F

-- `f"{kind}:{exchange}:{symbol}"`
abbrev pub notification_key : Notification → String
notification_key n = concat n.kind (concat ":" (concat n.exchange (concat ":" n.symbol)))

module _ {F : Type 0} ⦃f : Float F⦄ where
  -- The last notification of the key is less than a window old.
  unfoldable pub is_repetition : Notification → F → NotificationBus F → Bool
  is_repetition n now b = elim (lookup (notification_key n) b.last_sent) [
    | none ↦ false
    | some last ↦ now ⊖ last <? b.dedup_window_seconds
  ]

  unfoldable pub notify : Notification → F → NotificationBus F → NotificationBus F × Bool
  notify n now b = if is_repetition n now b then (b, false) else (
    record b {
      last_sent = insert (notification_key n) now b.last_sent;
      items = append_bounded b.max_size b.items n;
    },
    true,
  )

  -- `items[-limit:]`, which at 0 is the whole list.
  unfoldable pub recent : ℕ → NotificationBus F → List Notification
  recent limit b = if limit == 0 then b.items else drop (length b.items - limit) b.items

  -- What came in, with the time of the clock.
  unfoldable pub notify_all : List (Notification × F) → NotificationBus F → NotificationBus F
  notify_all [] b = b
  notify_all ((n, now) ∷ ns) b = notify_all ns (notify n now b).0

  notify-IsBounded :
      (n : Notification) (now : F) (b : NotificationBus F)
      → length b.items ≤ b.max_size
      → let b' = (notify n now b).0 in (length b'.items ≤ b'.max_size) × (b'.max_size ≡ b.max_size)
  unfolding notify append_bounded
  notify-IsBounded n now b h =
      let all = b.items ++ n ∷ [] in ground (arith, length-drop (length all - b.max_size) all)

  -- From at most `max_size` notifications, however many come in, at most `max_size` are kept.
  pub length-notify_all-le :
      (ns : List (Notification × F)) (b : NotificationBus F)
      → length b.items ≤ b.max_size
      → length (notify_all ns b).items ≤ b.max_size
  unfolding notify_all
  length-notify_all-le [] b h = h
  length-notify_all-le ((n, now) ∷ ns) b h =
      ground (arith, notify-IsBounded n now b, length-notify_all-le ns (notify n now b).0)

  -- A suppressed notification changes nothing. After a recorded one, the next of the same key
  -- is recorded exactly if the window has passed, and one of another key is
  -- treated as before.
  pub notify-notify :
      (n m : Notification) (now later : F) (b : NotificationBus F)
      → let (b', recorded) = notify n now b in
        (recorded ≡ false → b' ≡ b)
        × (recorded ≡ true
            → notification_key n ≡ notification_key m
            → (notify m later b').1 ≡ not (later ⊖ now <? b.dedup_window_seconds))
        × (notification_key n ≢ notification_key m → (notify m later b').1 ≡ (notify m later b).1)
  unfolding notify is_repetition
  notify-notify n m now later b =
      let k = notification_key n in
      let j = notification_key m in ground (arith, lookup-insert k j now b.last_sent, eq_iff k j)
