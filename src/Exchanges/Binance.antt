-- ===== src/Exchanges/Binance.antt =====
-- app/exchanges/binance/shard.py and app/exchanges/binance/adapter.py: what is Binance's own in the
-- protocol of the shards. `lower` is `str.lower`.
pub mod Normalize
use binance_momentu.Prelude.{ℕ, true, some, List, [], ◌∷◌, String}
use Prim.Native.String.{◌++◌ as concat}
use binance_momentu.Exchanges.Shard.{Protocol}

abbrev pub default_stream_types : List String
default_stream_types = "miniTicker" ∷ "kline_1m" ∷ []

abbrev pub max_params_per_subscribe_msg : ℕ
max_params_per_subscribe_msg = 200

-- The stream types of the candidates' own shard.
abbrev pub candidate_stream_types : List String
candidate_stream_types = "bookTicker" ∷ []

unfoldable pub stream_names : (String → String) → List String → String → List String
stream_names lower [] symbol = []
stream_names lower (stream_type ∷ stream_types) symbol =
    concat (lower symbol) (concat "@" stream_type) ∷ stream_names lower stream_types symbol

abbrev pub binance_protocol : {F : Type 0} → (String → String) → List String → F → Protocol F
binance_protocol lower stream_types health_timeout_seconds = record {
  topics = stream_names lower stream_types;
  max_params = max_params_per_subscribe_msg;
  numbered = true;
  health_timeout_seconds = some health_timeout_seconds;
}
