-- ===== src/Tests/Connections.antt =====
-- The theorems on the shards and the adapters, applied to a shard with two symbols.
use binance_momentu.Prelude.{
  ℕ, Result, ok, ◌≤◌, ◌≡◌, refl, true, false, not, ◌&&◌, ◌||◌, none, List, [], ◌∷◌, ◌++◌, length,
  All, String, arith, inl,
}
use binance_momentu.Prelude.Sets.{contains}
use binance_momentu.Float.Fixed.{Fixed, fixed_float}
use binance_momentu.Domain.Enums.{binance, subscribing, healthy}
use binance_momentu.Exchanges.Shard.{
  Protocol, subscribe, Frame, Shard, new_shard, topics_of, send_sub_message, start, opened,
  begin_connect,
}
use binance_momentu.Exchanges.Shard.Offline.{Change, update_all, contains-opened}
use binance_momentu.Exchanges.Shard.Frames.{params_of, IsSeries, send_sub_message_lem}
use binance_momentu.Exchanges.Shard.Life.{
  waiting, opening, listening, Running, begins, Reach, here, next, IsConsistent, Reach-IsConsistent,
  recovers,
}
use binance_momentu.Exchanges.Adapter.{
  Limits, Adapter, compute_shard_count, shard_symbols, update_adapter,
}
use binance_momentu.Exchanges.Adapter.Buckets.{shard_symbols_lem}
use binance_momentu.Exchanges.Adapter.Routing.{owns, owns-update_adapter_diff}
use binance_momentu.Exchanges.Binance.{
  binance_protocol, default_stream_types, candidate_stream_types,
}
use binance_momentu.Exchanges.Bybit.{bybit_protocol, default_topic_templates}
use binance_momentu.Signals.Candidates.{CandidateStreamManager, is_candidate, update}
use binance_momentu.Tests.Samples.{decimal}

abbrev delay : ℕ → Result Fixed
delay n = ok (decimal 1 0)

abbrev on_binance : Protocol Fixed
on_binance = binance_protocol (λ s. s) default_stream_types (decimal 60 0)

abbrev on_bybit : Protocol Fixed
on_bybit = bybit_protocol default_topic_templates

abbrev two : List String
two = "BTCUSDT" ∷ "ETHUSDT" ∷ []

abbrev shard : Shard Fixed
shard = record (new_shard "binance-0") { symbols = two }

-- Bitcoin is removed and added again.
abbrev changes : List Change
changes = ([], "BTCUSDT" ∷ []) ∷ ("BTCUSDT" ∷ [], []) ∷ []

contains-opened_example :
    contains "BTCUSDT"
      (opened on_binance (decimal 5 0) (update_all on_binance changes shard)).symbols
    ≡ false
unfolding contains
contains-opened_example =
    contains-opened on_binance "BTCUSDT" changes (decimal 5 0) shard refl refl refl

abbrev connected_shard : Shard Fixed
connected_shard = record shard { state = subscribing; has_ws = true }

send_sub_message_lem_example :
    let s = send_sub_message on_bybit subscribe two connected_shard in
    (frames : List Frame) × (s.sent ≡ [] ++ frames)
    × (params_of frames ≡ topics_of on_bybit two)
    × IsSeries subscribe 10 false 1 frames
    × (s.sub_id_counter ≡ 1)
send_sub_message_lem_example =
    (send_sub_message_lem on_bybit subscribe two connected_shard (omega arith)).0 refl

abbrev started : Running Fixed
started = record { shard = start on_binance two (new_shard "binance-0"); phase = waiting }

abbrev connecting_run : Running Fixed
connecting_run = record { shard = begin_connect on_binance started.shard; phase = opening }

begun : Reach on_binance delay started connecting_run
unfolding start
begun = next here (begins started refl refl)

Reach-IsConsistent_example : IsConsistent on_binance delay connecting_run
Reach-IsConsistent_example = Reach-IsConsistent on_binance delay "binance-0" two begun

recovers_example :
    (t : Running Fixed) × Reach on_binance delay started t
    × (t.phase ≡ listening)
    × (t.shard.state ≡ healthy)
unfolding start
recovers_example =
    let r =
      recovers on_binance delay (decimal 5 0) "refused" started (omega arith) (λ e. cc) refl refl in
    (r.0, r.1, r.2, r.3)

abbrev limits : Limits
limits = record { streams_per_symbol = 2; max_streams_per_connection = 4; max_connections = 0 }

abbrev five : List String
five = "BTCUSDT" ∷ "ETHUSDT" ∷ "SOLUSDT" ∷ "XRPUSDT" ∷ "BNBUSDT" ∷ []

shard_symbols_lem_example :
    All (λ b. length b ≤ 2) (shard_symbols five (compute_shard_count limits (length five)))
shard_symbols_lem_example =
    (shard_symbols_lem limits five 2 (omega arith) (omega arith) refl (inl refl)).0

abbrev adapter : Adapter Fixed
adapter = record {
  exchange_name = "binance";
  protocol = on_binance;
  candidate_protocol = binance_protocol (λ s. s) candidate_stream_types (decimal 60 0);
  limits = limits;
  shards = shard ∷ [];
  has_sink = true;
  candidate_symbols = "BTCUSDT" ∷ [];
  candidate_shard = none;
}

abbrev manager : CandidateStreamManager
manager = record { binance_symbols = "BTCUSDT" ∷ []; bybit_symbols = [] }

-- Bitcoin is a candidate no more.
owns-update_adapter_diff_example :
    let (m, diffs) = update {F = Fixed} [] manager in
    owns "BTCUSDT" (update_adapter (diffs binance).added (diffs binance).removed adapter).shards ≡ (
      owns "BTCUSDT" adapter.shards
      && (not (is_candidate binance "BTCUSDT" manager) || is_candidate binance "BTCUSDT" m))
unfolding is_candidate contains
owns-update_adapter_diff_example =
    owns-update_adapter_diff "BTCUSDT" binance [] manager adapter (λ e. refl)
