-- ===== src/Exchanges/Adapter.antt =====
-- app/exchanges/binance/adapter.py and app/exchanges/bybit/adapter.py: the shards of one exchange.
-- The two classes are one model, over the protocol of the shards, and the candidates' own shard
-- has a protocol of its own. A set is gone through in the order of its list. The quotient that
-- `math.ceil` rounds is taken to be exact.
pub mod Buckets
pub mod Routing
use binance_momentu.Prelude.{
  ℕ, zero, suc, ◌+◌, ◌-◌, ◌*◌, ◌/◌, ◌%◌, Bool, true, false, ◌&&◌, ◌||◌, if◌then◌else◌, ltb, ◌==◌,
  Option, none, some, List, [], ◌∷◌, ◌++◌, length, map, is_empty, String,
}
use binance_momentu.Prelude.Sets.{union, difference, meet}
use binance_momentu.Float.{Float}
use binance_momentu.Exchanges.Base.{ConnectionMetrics, AdapterMetrics}
use binance_momentu.Exchanges.Shard.{
  Protocol, Shard, new_shard, start, stop, update_subscriptions, get_metrics,
}

-- How many streams a symbol has, and the limits of the exchange's configuration.
pub record Limits : Type 0 where
  pub streams_per_symbol : ℕ
  pub max_streams_per_connection : ℕ
  pub max_connections : ℕ

pub record Adapter (F : Type 0) : Type 0 where
  pub exchange_name : String
  pub protocol : Protocol F
  pub candidate_protocol : Protocol F
  pub limits : Limits
  pub shards : List (Shard F)
  pub has_sink : Bool
  pub candidate_symbols : List String
  pub candidate_shard : Option (Shard F)

abbrev pub max_ℕ : ℕ → ℕ → ℕ
max_ℕ a b = if ltb a b then b else a

-- `math.ceil(a / b)`.
abbrev pub ceil_div : ℕ → ℕ → ℕ
ceil_div a b = (a + b - 1) / b

unfoldable pub compute_shard_count : Limits → ℕ → ℕ
compute_shard_count l symbol_count =
    let needed =
      max_ℕ 1
        (ceil_div (symbol_count * l.streams_per_symbol) (max_ℕ 1 l.max_streams_per_connection)) in
    if ltb 0 l.max_connections
    then (if ltb l.max_connections needed then l.max_connections else needed)
    else needed

unfoldable pub append_at : ℕ → String → List (List String) → List (List String)
append_at i x [] = []
append_at zero x (b ∷ bs) = (b ++ x ∷ []) ∷ bs
append_at (suc i) x (b ∷ bs) = b ∷ append_at i x bs

-- The loop of `_shard_symbols`, from the symbol with index `i` on.
unfoldable pub deal : ℕ → ℕ → List String → List (List String) → List (List String)
deal i shard_count [] buckets = buckets
deal i shard_count (x ∷ xs) buckets =
    deal (i + 1) shard_count xs (append_at (i % shard_count) x buckets)

abbrev pub empty_buckets : ℕ → List (List String)
empty_buckets zero = []
empty_buckets (suc n) = [] ∷ empty_buckets n

unfoldable pub drop_empty : List (List String) → List (List String)
drop_empty [] = []
drop_empty (b ∷ bs) = if is_empty b then drop_empty bs else b ∷ drop_empty bs

unfoldable pub shard_symbols : List String → ℕ → List (List String)
shard_symbols symbols shard_count =
    drop_empty (deal 0 shard_count symbols (empty_buckets shard_count))

-- The symbols that a shard may own.
unfoldable pub max_symbols_per_shard : Limits → ℕ
max_symbols_per_shard l = max_ℕ 1 (l.max_streams_per_connection / max_ℕ 1 l.streams_per_symbol)

abbrev pub total_of : List ℕ → ℕ
total_of [] = 0
total_of (n ∷ ns) = n + total_of ns

module _ {F : Type 0} where
  -- One shard for each bucket, named by its index.
  unfoldable pub start_shards : (ℕ → String) → Protocol F → ℕ → List (List String) → List (Shard F)
  start_shards name p i [] = []
  start_shards name p i (b ∷ bs) =
      start p (union [] b) (new_shard (name i)) ∷ start_shards name p (i + 1) bs

  -- On an adapter without shards: a new one, or one that has been stopped.
  unfoldable pub start_adapter : (ℕ → String) → List String → Adapter F → Adapter F
  start_adapter name symbols a =
      let buckets = shard_symbols symbols (compute_shard_count a.limits (length symbols)) in
      record a { has_sink = true; shards = start_shards name a.protocol 0 buckets }

  unfoldable pub stop_adapter : Adapter F → Adapter F
  stop_adapter a = record a { shards = []; candidate_shard = none }

  -- The removals, each at the shards that own the symbol.
  unfoldable pub remove_owned : Protocol F → List String → List (Shard F) → List (Shard F)
  remove_owned p removed [] = []
  remove_owned p removed (s ∷ ss) =
      let owned = meet s.symbols removed in
      (if is_empty owned then s else update_subscriptions p [] owned s) ∷ remove_owned p removed ss

  -- The least number of symbols of a shard that has room.
  unfoldable pub least_load : ℕ → List (Shard F) → Option ℕ
  least_load room [] = none
  least_load room (s ∷ ss) =
      let n = length s.symbols in
      let rest = least_load room ss in
      if ltb n room then some (elim rest [ none ↦ n | some m ↦ if ltb m n then m else n ]) else rest

  -- `update_subscriptions` of the first shard with that load.
  unfoldable pub add_at_load : Protocol F → ℕ → String → List (Shard F) → List (Shard F)
  add_at_load p load x [] = []
  add_at_load p load x (s ∷ ss) =
      if length s.symbols == load
      then update_subscriptions p (x ∷ []) [] s ∷ ss
      else s ∷ add_at_load p load x ss

  -- The additions, each at the least loaded shard; without room a symbol is left out.
  unfoldable pub add_balanced : Protocol F → ℕ → List String → List (Shard F) → List (Shard F)
  add_balanced p room [] ss = ss
  add_balanced p room (x ∷ xs) ss =
      add_balanced p room xs
        (elim (least_load room ss) [ none ↦ ss | some load ↦ add_at_load p load x ss ])

  unfoldable pub update_adapter : (added removed : List String) → Adapter F → Adapter F
  update_adapter added removed a = record a {
    shards =
        add_balanced a.protocol (max_symbols_per_shard a.limits) added
          (remove_owned a.protocol removed a.shards);
  }

  unfoldable pub set_candidate_symbols : List String → Adapter F → Adapter F
  set_candidate_symbols symbols a = record a { candidate_symbols = symbols }

  unfoldable pub sync_shard : Protocol F → List String → Shard F → Shard F
  sync_shard p symbols s =
      let added = difference symbols s.symbols in
      let removed = difference s.symbols symbols in
      if is_empty added && is_empty removed then s else update_subscriptions p added removed s

  -- `sync_candidate_book_ticker_stream`; `name` is that of the candidates' shard.
  unfoldable pub sync_candidates : String → List String → Adapter F → Adapter F
  sync_candidates name symbols a =
      if a.has_sink
      then record a {
        candidate_shard = some (elim a.candidate_shard [
          | none ↦ start a.candidate_protocol symbols (new_shard name)
          | some s ↦ sync_shard a.candidate_protocol symbols s
        ]);
      }
      else a

  unfoldable pub adapter_metrics : ⦃f : Float F⦄ → F → Adapter F → AdapterMetrics F
  adapter_metrics now a =
      let connections = map (λ s. get_metrics a.protocol now s) a.shards in
      record {
        exchange = a.exchange_name;
        connections = connections;
        total_messages_received = total_of (map (λ c. c.messages_received) connections);
        total_reconnects = total_of (map (λ c. c.reconnect_count) connections);
      }
