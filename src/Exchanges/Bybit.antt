-- ===== src/Exchanges/Bybit.antt =====
-- app/exchanges/bybit/shard.py and app/exchanges/bybit/adapter.py: what is Bybit's own in the
-- protocol of the shards. A topic template is a function of the symbol.
pub mod Normalize
pub mod Pinging
use binance_momentu.Prelude.{ℕ, false, none, List, [], ◌∷◌, String}
use Prim.Native.String.{◌++◌ as concat}
use binance_momentu.Exchanges.Shard.{Protocol}

abbrev pub TopicTemplate : Type 0
TopicTemplate = String → String

abbrev pub default_topic_templates : List TopicTemplate
default_topic_templates = concat "kline.1." ∷ concat "tickers." ∷ []

abbrev pub max_args_per_subscribe_msg : ℕ
max_args_per_subscribe_msg = 10

-- The template of the candidates' own shard.
abbrev pub candidate_topic_templates : List TopicTemplate
candidate_topic_templates = concat "orderbook.1." ∷ []

unfoldable pub topics_for : List TopicTemplate → String → List String
topics_for [] symbol = []
topics_for (template ∷ templates) symbol = template symbol ∷ topics_for templates symbol

abbrev pub bybit_protocol : {F : Type 0} → List TopicTemplate → Protocol F
bybit_protocol templates = record {
  topics = topics_for templates;
  max_params = max_args_per_subscribe_msg;
  numbered = false;
  health_timeout_seconds = none;
}
