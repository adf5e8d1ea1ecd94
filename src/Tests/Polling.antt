-- ===== src/Tests/Polling.antt =====
-- The theorems on the ingestion manager and on the turns of stage 1, applied.
use binance_momentu.Prelude.{◌≡◌, ◌≢◌, refl, true, false, none, [], ◌∷◌, String, arith}
use binance_momentu.Float.Fixed.{Fixed, fixed_float}
use binance_momentu.Domain.Enums.{binance, data_overload, lossy_mode}
use binance_momentu.Features.OiPoller.{OiPoller, has_task}
use binance_momentu.Prelude.Sets.{contains}
use binance_momentu.Signals.Candidates.{current_candidates, is_candidate}
use binance_momentu.Pipeline.Stage.{Followers, streamed, stage1_turn, stage1_turn_lem}
use binance_momentu.Tests.Requests.{watching}
use binance_momentu.Pipeline.{run_stage1_cycle}
use binance_momentu.Features.Engine.{rvol, median, trade_acceleration, dollar_volume_24h}
use binance_momentu.Features.Store.{all_states}
use binance_momentu.Signals.Candidates.{
  update, symbols_on, rank_and_promote, ranked, place, eligible_only, screen_stage1, screen_all,
  screen_symbol,
}
use binance_momentu.Buffer.{RingBuffer, all_at}
use binance_momentu.Buffer.Order.{contents}
use binance_momentu.Exchanges.Adapter.{Adapter}
use binance_momentu.Exchanges.Bybit.{
  bybit_protocol, default_topic_templates, candidate_topic_templates,
}
use binance_momentu.Ingestion.{IngestionManager, consume_loop, maybe_recover_buffer}
use binance_momentu.Ingestion.Recovery.{consume_loop-maybe_recover_buffer}
use binance_momentu.Tests.Samples.{decimal}

abbrev poller : OiPoller
poller = record { tasks = (binance, "ETHUSDT") ∷ (binance, "SOLUSDT") ∷ []; is_stopping = false }

abbrev adapter : String → Adapter Fixed
adapter name = record {
  exchange_name = name;
  protocol = bybit_protocol default_topic_templates;
  candidate_protocol = bybit_protocol candidate_topic_templates;
  limits = record { streams_per_symbol = 2; max_streams_per_connection = 4; max_connections = 0 };
  shards = [];
  has_sink = false;
  candidate_symbols = [];
  candidate_shard = none;
}

abbrev overloaded : RingBuffer Fixed String
overloaded = record {
  capacity = 2;
  high_watermark = decimal 8 1;
  p0_overload_watermark = decimal 9 1;
  recovery_watermark = decimal 5 1;
  queues = record (all_at []) { at0 = "a" ∷ "b" ∷ [] };
  state = data_overload;
  dropped_total = 0;
  dropped_by_priority = all_at 0;
  p0_protected_overflow_events = 1;
}

abbrev manager : IngestionManager Fixed String
manager = record {
  buffer = overloaded;
  on_binance = adapter "binance";
  on_bybit = adapter "bybit";
  events_consumed_total = 7;
  events_consumed_last_interval = 0;
}

consume_loop-maybe_recover_buffer_example :
    let m = maybe_recover_buffer (consume_loop 3 manager) in
    (contents m.buffer ≡ [])
    × (m.events_consumed_total ≡ 9)
    × (m.buffer.state ≢ data_overload)
    × (m.buffer.state ≢ lossy_mode)
consume_loop-maybe_recover_buffer_example =
    consume_loop-maybe_recover_buffer 3 manager (omega arith) refl

abbrev followers : Followers Fixed
followers = record {
  pipeline = watching;
  adapter_of = λ x. record (adapter "exchange") { has_sink = true };
  poller = poller;
}

-- The symbol passes the screen.
promoted :
    is_candidate binance "SOLUSDT"
      (stage1_turn (λ x. "candidates") followers).pipeline.candidate_manager
    ≡ true
unfolding is_candidate contains stage1_turn run_stage1_cycle update symbols_on rank_and_promote
    ranked place eligible_only screen_stage1 screen_all screen_symbol all_states rvol median
    trade_acceleration dollar_volume_24h
promoted = refl

stage1_turn_lem_example :
    let w = stage1_turn (λ x. "candidates") followers in
    (contains "SOLUSDT" (streamed (w.adapter_of binance))
      ≡ is_candidate binance "SOLUSDT" w.pipeline.candidate_manager)
    × ((w.adapter_of binance).candidate_symbols
        ≡ current_candidates binance w.pipeline.candidate_manager)
    × (has_task (binance, "SOLUSDT") w.poller.tasks
        ≡ is_candidate binance "SOLUSDT" w.pipeline.candidate_manager)
stage1_turn_lem_example = stage1_turn_lem (λ x. "candidates") followers binance "SOLUSDT" refl
