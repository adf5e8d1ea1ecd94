-- ===== src/Exchanges/Bybit/Pinging.antt =====
-- app/exchanges/bybit/shard.py: the class `BybitShard`, which has a ping task beside the shard's
-- two. `pings` is how many pings went out on the present connection. What a ping's send comes to,
-- and when the task is due, are arguments.
pub mod Steps
use binance_momentu.Prelude.{
  ℕ, ◌+◌, Bool, true, false, if◌then◌else◌, Option, none, some, List, String,
}
use binance_momentu.Float.{Float}
use binance_momentu.Exchanges.Base.{ConnectionMetrics}
use binance_momentu.Exchanges.Bybit.{TopicTemplate, bybit_protocol}
use binance_momentu.Exchanges.Shard.{
  Shard, new_shard, start, stop, update_subscriptions, begin_connect, opened, settled, receive,
  ended, after_connection, soft_reconnect, get_metrics,
}

-- `_ping_task`: none yet, one that runs, or one that has ended.
pub data PingTask : Type 0 where
  absent pinging gone : PingTask

-- `task.cancel()` of a task, if there is one.
abbrev pub cancel : PingTask → PingTask
cancel pinging = gone
cancel t = t

pub record BybitShard (F : Type 0) : Type 0 where
  pub shard : Shard F
  pub topic_templates : List TopicTemplate
  pub ping_task : PingTask
  pub pings : ℕ

module _ {F : Type 0} where
  abbrev pub new_bybit : String → List TopicTemplate → BybitShard F
  new_bybit shard_id templates = record {
    shard = new_shard shard_id;
    topic_templates = templates;
    ping_task = absent;
    pings = 0;
  }

  -- What the method does to the shard.
  abbrev pub on_shard : (Shard F → Shard F) → BybitShard F → BybitShard F
  on_shard g b = record b { shard = g b.shard }

  unfoldable pub start_bybit : List String → BybitShard F → BybitShard F
  start_bybit symbols b = on_shard (start (bybit_protocol b.topic_templates) symbols) b

  unfoldable pub stop_bybit : BybitShard F → BybitShard F
  stop_bybit b = record b {
    shard = stop (bybit_protocol b.topic_templates) b.shard;
    ping_task = cancel b.ping_task;
  }

  unfoldable pub update_bybit : (added removed : List String) → BybitShard F → BybitShard F
  update_bybit added removed b =
      on_shard (update_subscriptions (bybit_protocol b.topic_templates) added removed) b

  -- The stretches of `_connect_and_listen`.
  unfoldable pub connect_bybit : BybitShard F → BybitShard F
  connect_bybit b = on_shard (begin_connect (bybit_protocol b.topic_templates)) b

  unfoldable pub open_bybit : F → BybitShard F → BybitShard F
  open_bybit now b = record b {
    shard = opened (bybit_protocol b.topic_templates) now b.shard;
    pings = 0;
  }

  unfoldable pub settle_bybit : BybitShard F → BybitShard F
  settle_bybit b = record b {
    shard = settled (bybit_protocol b.topic_templates) b.shard;
    ping_task = pinging;
  }

  unfoldable pub receive_bybit : ⦃f : Float F⦄ → (now later : F) → BybitShard F → BybitShard F
  receive_bybit now later b =
      on_shard (λ s. (receive (bybit_protocol b.topic_templates) now later s).0) b

  -- An exception while connecting or listening, with the `finally` of the latter.
  unfoldable pub fail_bybit : String → BybitShard F → BybitShard F
  fail_bybit error b = record b {
    shard = after_connection (bybit_protocol b.topic_templates) (some error) b.shard;
    ping_task = cancel b.ping_task;
  }

  -- The connection ended.
  unfoldable pub end_bybit : String → BybitShard F → BybitShard F
  end_bybit error b = record b {
    shard =
        after_connection (bybit_protocol b.topic_templates)
          (if b.shard.is_stopping then none else some error)
          (ended (bybit_protocol b.topic_templates) b.shard);
    ping_task = cancel b.ping_task;
  }

  unfoldable pub soften_bybit : BybitShard F → BybitShard F
  soften_bybit b = on_shard (soft_reconnect (bybit_protocol b.topic_templates)) b

  -- A turn of `_ping_loop`, whose send went through or raised.
  unfoldable pub ping_once : Bool → BybitShard F → BybitShard F
  ping_once went b =
      if went then record b { pings = b.pings + 1 } else record b { ping_task = gone }

  unfoldable pub bybit_metrics : ⦃f : Float F⦄ → F → BybitShard F → ConnectionMetrics F
  bybit_metrics now b = get_metrics (bybit_protocol b.topic_templates) now b.shard
