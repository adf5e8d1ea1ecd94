-- ===== src/Tests.antt =====
-- Sample data, and the theorems applied to it.
pub mod Samples
pub mod Buffers
pub mod Entries
pub mod Trading
pub mod Screening
pub mod Pipelines
pub mod Notices
pub mod Connections
pub mod Stores
pub mod Replays
pub mod Messages
pub mod Polling
pub mod Streams
pub mod Interest
pub mod Variables
pub mod Requests
pub mod Verdicts
