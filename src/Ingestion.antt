-- ===== src/Ingestion.antt =====
-- app/ingestion/ingestion_manager.py: `IngestionManager`, with the bodies of its two loops as steps.
-- Creating and cancelling its tasks, its sleeping and its log lines are left out.
pub mod Recovery
use binance_momentu.Prelude.{
  ℕ, zero, suc, ◌+◌, Bool, true, false, if◌then◌else◌, Option, List, [], ◌∷◌, length, map, is_empty,
  String, Result, ok, raise, ◌>>=◌,
}
use binance_momentu.Float.{Float, of_int, divide}
use binance_momentu.Domain.Enums.{IngestionState, ConnectionState, lossy_mode, data_overload}
use binance_momentu.Buffer.{RingBuffer, BufferMetrics, acknowledge_recovery, pop_batch, metrics}
use binance_momentu.Exchanges.Base.{ConnectionMetrics, AdapterMetrics, is_healthy}
use binance_momentu.Exchanges.Adapter.{Adapter, start_adapter, stop_adapter, adapter_metrics}

pub record IngestionManager (F E : Type 0) : Type 0 where
  pub buffer : RingBuffer F E
  pub on_binance : Adapter F
  pub on_bybit : Adapter F
  pub events_consumed_total : ℕ
  pub events_consumed_last_interval : ℕ

-- `_adapter_snapshot`.
pub record AdapterSnapshot (F : Type 0) : Type 0 where
  pub exchange : String
  pub total_messages_received : ℕ
  pub total_reconnects : ℕ
  pub is_healthy : Bool
  pub connections : List (ConnectionMetrics F)

pub record Snapshot (F : Type 0) : Type 0 where
  pub buffer : BufferMetrics F
  pub on_binance : AdapterSnapshot F
  pub on_bybit : AdapterSnapshot F
  pub events_consumed_total : ℕ

abbrev pub consume_batch_size : ℕ
consume_batch_size = 500

abbrev pub needs_recovery : IngestionState → Bool
needs_recovery IngestionState.data_overload = true
needs_recovery IngestionState.lossy_mode = true
needs_recovery _ = false

abbrev pub adapter_snapshot : {F : Type 0} → AdapterMetrics F → AdapterSnapshot F
adapter_snapshot a = record {
  exchange = a.exchange;
  total_messages_received = a.total_messages_received;
  total_reconnects = a.total_reconnects;
  is_healthy = is_healthy a;
  connections = a.connections;
}

module _ {F E : Type 0} ⦃f : Float F⦄ where
  -- `start`; `name` gives the shards of each exchange their names.
  unfoldable pub start_ingestion :
      (name_binance name_bybit : ℕ → String)
      → List String
      → IngestionManager F E
      → IngestionManager F E
  start_ingestion name_binance name_bybit symbols m = record m {
    on_binance = start_adapter name_binance symbols m.on_binance;
    on_bybit = start_adapter name_bybit symbols m.on_bybit;
  }

  unfoldable pub stop_ingestion : IngestionManager F E → IngestionManager F E
  stop_ingestion m = record m {
    on_binance = stop_adapter m.on_binance;
    on_bybit = stop_adapter m.on_bybit;
  }

  -- One turn of `_consume_loop`, and whether it found the buffer empty.
  unfoldable pub consume_once : IngestionManager F E → IngestionManager F E × Bool
  consume_once m =
      let (b, batch) = pop_batch consume_batch_size m.buffer in
      (
        record m {
          buffer = b;
          events_consumed_total = m.events_consumed_total + length batch;
          events_consumed_last_interval = m.events_consumed_last_interval + length batch;
        },
        is_empty batch,
      )

  -- Turns of the loop, on fuel, up to the first that finds the buffer empty.
  unfoldable pub consume_loop : ℕ → IngestionManager F E → IngestionManager F E
  consume_loop zero m = m
  consume_loop (suc fuel) m =
      let (m', idle) = consume_once m in
      let rest = consume_loop fuel m' in if idle then m' else rest

  unfoldable pub maybe_recover_buffer : IngestionManager F E → IngestionManager F E
  maybe_recover_buffer m =
      if needs_recovery m.buffer.state
      then record m { buffer = acknowledge_recovery m.buffer }
      else m

  -- The events per second that `_log_metrics` logs.
  unfoldable pub log_metrics : F → IngestionManager F E → IngestionManager F E × Result F
  log_metrics interval_seconds m =
      elim (divide (of_int m.events_consumed_last_interval) interval_seconds) [
        | raise e ↦ (m, raise e)
        | ok rate ↦ (record m { events_consumed_last_interval = 0 }, ok rate)
      ]

  -- One turn of `_monitor_loop`.
  unfoldable pub monitor_once : F → IngestionManager F E → IngestionManager F E × Result F
  monitor_once interval_seconds m =
      let (m', r) = log_metrics interval_seconds m in
      (elim r [ raise e ↦ m' | ok rate ↦ maybe_recover_buffer m' ], r)

  unfoldable pub get_snapshot : F → IngestionManager F E → Snapshot F
  get_snapshot now m = record {
    buffer = metrics m.buffer;
    on_binance = adapter_snapshot (adapter_metrics now m.on_binance);
    on_bybit = adapter_snapshot (adapter_metrics now m.on_bybit);
    events_consumed_total = m.events_consumed_total;
  }
