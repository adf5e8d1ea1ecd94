-- ===== src/Tests/Notices.antt =====
-- The theorems on the notification bus, applied.
use binance_momentu.Prelude.{◌≡◌, refl, true, List, [], ◌∷◌, String}
use binance_momentu.Prelude.Dict.{lookup, string_key}
use binance_momentu.Float.Fixed.{Fixed, fixed_float}
use binance_momentu.Notifications.{Notification, NotificationBus, is_repetition, notify}
use binance_momentu.Tests.Samples.{decimal}

abbrev bus : NotificationBus Fixed
bus = record { max_size = 2; dedup_window_seconds = decimal 30 0; items = []; last_sent = [] }

abbrev notice : String → Notification
notice symbol = record {
  kind = "ENTRY_APPROVED";
  symbol = symbol;
  exchange = "binance";
  message = "";
  severity = "info";
  created_at_ms = 0;
}

abbrev notices : List (Notification × Fixed)
notices =
    (notice "SOLUSDT", decimal 1 0)
    ∷ (notice "SOLUSDT", decimal 2 0)
    ∷ (notice "ETHUSDT", decimal 3 0)
    ∷ (notice "BNBUSDT", decimal 4 0)
    ∷ []

first-recorded : (notify (notice "SOLUSDT") (decimal 1 0) bus).1 ≡ true
unfolding notify is_repetition lookup
first-recorded = refl
