-- ===== src/Domain/Priority.antt =====
-- app/ingestion/priority.py: the priority class of an event, chosen when it is normalised.
use binance_momentu.Prelude.{◌≡◌, Bool, true, ◌⊎◌, ◌↔◌, if◌then◌else◌, arith}
use binance_momentu.Domain.Enums.{EventType, EventPriority, p0, p1, p2, p3}

pub classify_priority : EventType → Bool → Bool → EventPriority
classify_priority EventType.kline is_candidate is_closed_kline =
    if is_closed_kline then p0 else if is_candidate then p1 else p2
classify_priority EventType.book_ticker is_candidate is_closed_kline = p0
classify_priority EventType.market_ticker is_candidate is_closed_kline =
    if is_candidate then p1 else p3
classify_priority EventType.open_interest is_candidate is_closed_kline =
    if is_candidate then p1 else p2
classify_priority EventType.trade is_candidate is_closed_kline = if is_candidate then p1 else p2
classify_priority EventType.execution is_candidate is_closed_kline = p0
classify_priority EventType.signal is_candidate is_closed_kline = p0
classify_priority EventType.system is_candidate is_closed_kline = p1
classify_priority EventType.economic is_candidate is_closed_kline = p2

-- The events that the buffer may never drop.
abbrev pub IsCritical : EventType → Bool → Type 0
IsCritical t is_closed_kline =
    ((t ≡ EventType.kline) × (is_closed_kline ≡ true))
    ⊎ ((t ≡ EventType.book_ticker) ⊎ ((t ≡ EventType.execution) ⊎ (t ≡ EventType.signal)))

-- An event is of class P0 exactly when it is a closed kline, a book ticker, an execution or a
-- signal event, whether or not its symbol is a candidate.
pub classify_priority-p0_iff :
    (t : EventType) (is_candidate is_closed_kline : Bool)
    → (classify_priority t is_candidate is_closed_kline ≡ p0) ↔ IsCritical t is_closed_kline
unfolding classify_priority
classify_priority-p0_iff t c k = ground arith
