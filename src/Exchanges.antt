-- ===== src/Exchanges.antt =====
-- The exchange adapters and the shards, app/exchanges.
pub mod Base
pub mod Payload
pub mod Shard
pub mod Adapter
pub mod Binance
pub mod Bybit
pub mod Listening
pub mod OpenInterest
