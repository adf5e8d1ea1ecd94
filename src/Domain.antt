-- ===== src/Domain.antt =====
-- app/domain: the shared vocabulary and the typed events of the ingestion boundary.
pub mod Enums
pub mod Events
pub mod Priority
pub mod Backoff
