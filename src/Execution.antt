-- ===== src/Execution.antt =====
-- app/execution: paper trading.
pub mod Paper
