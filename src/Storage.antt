-- ===== src/Storage.antt =====
-- app/storage/db.py: `Storage`, the bounded queue and its worker. The statements are SQLite's: what
-- one does to the database is the argument `execute`, which is `none` where it raises an
-- `sqlite3.Error`. The texts that `json.dumps` makes and the time of a row are arguments. The log
-- messages are left out, and `stop` waits until the worker has ended.
pub mod Worker
pub mod Queueing
use binance_momentu.Prelude.{
  ℕ, zero, suc, ◌+◌, Bool, true, false, not, ◌&&◌, ◌||◌, if◌then◌else◌, ltb, leb, Option, none,
  some, List, [], ◌∷◌, ◌++◌, length, is_empty, String, Result, Error, ok, raise, ◌>>=◌, str_eq,
}
use binance_momentu.Prelude.Sets.{contains}
use binance_momentu.Domain.Enums.{state_value}
use binance_momentu.Execution.Paper.{PaperPosition}
use binance_momentu.Signals.Engine.{AuditTrail}

pub record SignalRow (F : Type 0) : Type 0 where
  pub signal_id : String
  pub symbol : String
  pub exchange : String
  pub decision_timestamp : ℕ
  pub final_signal_state : String
  pub quant_score : Option F
  pub entry_price : Option F
  pub stop_loss : Option F
  pub take_profit : Option F
  pub final_position_size_usd : Option F
  pub real_friction_coverage : Option F
  pub reasons : String
  pub audit_trail_json : String
  pub created_at : ℕ

-- The columns that are null for an open position are left out.
pub record OpenRow (F : Type 0) : Type 0 where
  pub signal_id : String
  pub symbol : String
  pub exchange : String
  pub entry_price : F
  pub stop_loss : F
  pub take_profit : F
  pub size_usd : F
  pub opened_at : ℕ
  pub created_at : ℕ

pub record CloseRow (F : Type 0) : Type 0 where
  pub closed_at : Option ℕ
  pub exit_price : Option F
  pub final_state : String
  pub realized_pnl_usd : Option F
  pub signal_id : String

pub record DecisionRow (F : Type 0) : Type 0 where
  pub signal_id : String
  pub decision : String
  pub reasoning_json : String
  pub latency_ms : F
  pub created_at : ℕ

-- The dictionary of an experiment, with its dictionaries as JSON.
pub record Experiment : Type 0 where
  pub experiment_id : String
  pub parent_strategy_version : String
  pub configuration_version : String
  pub parameter_changes_json : String
  pub dataset : String
  pub date_range : String
  pub universe : String
  pub random_seed : Option ℕ
  pub backtest_method : String
  pub metrics_json : String
  pub observations : String
  pub status : String
  pub decision : Option String

-- The kinds of item with their rows.
pub data Item (F : Type 0) : Type 0 where
  signal : SignalRow F → Item F
  paper_trade_open : OpenRow F → Item F
  paper_trade_close : CloseRow F → Item F
  claude_decision : DecisionRow F → Item F
  system_health : (snapshot_json : String) → (created_at : ℕ) → Item F
  experiment : Experiment → (created_at : ℕ) → Item F

pub record Storage (F : Type 0) : Type 0 where
  pub queue_max_size : ℕ
  pub queue : List (Item F)
  pub is_stopping : Bool

abbrev pub batch_size : ℕ
batch_size = 200

module _ {F : Type 0} where
  abbrev pub new_storage : ℕ → Storage F
  new_storage queue_max_size = record {
    queue_max_size = queue_max_size;
    queue = [];
    is_stopping = false;
  }

  abbrev pub start : Storage F → Storage F
  start s = record s { is_stopping = false }

  abbrev pub stop : Storage F → Storage F
  stop s = record s { is_stopping = true }

  -- A `Queue` without a positive `maxsize` is never full.
  abbrev pub is_full : Storage F → Bool
  is_full s = ltb 0 s.queue_max_size && leb s.queue_max_size (length s.queue)

  unfoldable pub safe_put : Item F → Storage F → Storage F
  safe_put item s = if is_full s then s else record s { queue = s.queue ++ item ∷ [] }

  unfoldable pub enqueue_signal :
      (reasons_json audit_trail_json : String) → ℕ → AuditTrail F → Storage F → Storage F
  enqueue_signal reasons_json audit_trail_json now a = safe_put (
      signal (record {
        signal_id = a.signal_id;
        symbol = a.symbol;
        exchange = a.exchange;
        decision_timestamp = a.decision_timestamp;
        final_signal_state = a.final_signal_state;
        quant_score = a.quant_score;
        entry_price = a.entry_price;
        stop_loss = a.stop_loss;
        take_profit = a.take_profit;
        final_position_size_usd = a.final_position_size_usd;
        real_friction_coverage = a.real_friction_coverage;
        reasons = reasons_json;
        audit_trail_json = audit_trail_json;
        created_at = now;
      }))

  unfoldable pub enqueue_paper_trade_open : ℕ → PaperPosition F → Storage F → Storage F
  enqueue_paper_trade_open now p = safe_put (
      paper_trade_open (record {
        signal_id = p.signal_id;
        symbol = p.symbol;
        exchange = p.exchange;
        entry_price = p.entry_price;
        stop_loss = p.stop_loss;
        take_profit = p.take_profit;
        size_usd = p.size_usd;
        opened_at = p.opened_at_ms;
        created_at = now;
      }))

  unfoldable pub enqueue_paper_trade_close : PaperPosition F → Storage F → Storage F
  enqueue_paper_trade_close p = safe_put (
      paper_trade_close (record {
        closed_at = p.closed_at_ms;
        exit_price = p.exit_price;
        final_state = state_value p.state;
        realized_pnl_usd = p.realized_pnl_usd;
        signal_id = p.signal_id;
      }))

  unfoldable pub enqueue_claude_decision :
      (signal_id decision reasoning_json : String) → F → ℕ → Storage F → Storage F
  enqueue_claude_decision signal_id decision reasoning_json latency_ms now = safe_put (
      claude_decision (record {
        signal_id = signal_id;
        decision = decision;
        reasoning_json = reasoning_json;
        latency_ms = latency_ms;
        created_at = now;
      }))

  unfoldable pub enqueue_system_health : String → ℕ → Storage F → Storage F
  enqueue_system_health snapshot_json now = safe_put (system_health snapshot_json now)

  unfoldable pub enqueue_experiment : ℕ → Experiment → Storage F → Storage F
  enqueue_experiment now e = safe_put (experiment e now)

  -- `get_nowait` until the batch has `room` more items or the queue is empty.
  unfoldable pub drain_more : ℕ → List (Item F) → List (Item F) × List (Item F)
  drain_more zero queue = ([], queue)
  drain_more (suc room) [] = ([], [])
  drain_more (suc room) (x ∷ queue) = let (batch, rest) = drain_more room queue in (x ∷ batch, rest)

  -- The batch and the queue that it leaves; nothing where the wait for a first item times out.
  unfoldable pub drain_batch : ℕ → List (Item F) → List (Item F) × List (Item F)
  drain_batch max_items [] = ([], [])
  drain_batch zero (x ∷ queue) = (x ∷ [], queue)
  drain_batch (suc room) (x ∷ queue) =
      let (batch, rest) = drain_more room queue in (x ∷ batch, rest)

module _ {F Db : Type 0} (execute : Item F → Db → Option Db) where
  -- The statements of a batch, up to the first that raises.
  unfoldable pub execute_all : List (Item F) → Db → Option Db
  execute_all [] db = some db
  execute_all (x ∷ xs) db = elim (execute x db) [ none ↦ none | some db' ↦ execute_all xs db' ]

  -- Committed, or rolled back.
  unfoldable pub write_batch : List (Item F) → Db → Db
  write_batch batch db = elim (execute_all batch db) [ none ↦ db | some db' ↦ db' ]

  -- One turn of the worker's loop.
  unfoldable pub turn : Storage F → Db → Storage F × Db
  turn s db =
      let (batch, rest) = drain_batch batch_size s.queue in
      (record s { queue = rest }, if is_empty batch then db else write_batch batch db)

  -- The loop, on fuel, while nothing else happens: what it leaves, where it ends.
  unfoldable pub worker_loop : ℕ → Storage F → Db → Option (Storage F × Db)
  worker_loop zero s db = none
  worker_loop (suc fuel) s db =
      let next = (let (s', db') = turn s db in worker_loop fuel s' db') in
      if not s.is_stopping || not (is_empty s.queue) then next else some (s, db)

-- `purge_older_than`: `delete` removes the rows of a table before a time, and counts them.
unfoldable pub purge_older_than :
    {Db : Type 0} → (String → ℕ → String → Db → Db × ℕ) → String → ℕ → String → Db → Result (Db × ℕ)
purge_older_than delete table cutoff_ms timestamp_column db =
    if contains table ("signals" ∷ "paper_trades" ∷ "system_health" ∷ [])
    then ok (delete table cutoff_ms timestamp_column db)
    else raise Error.value_error
