-- ===== src/Risk.antt =====
-- app/risk: position sizing and the risk engine.
pub mod Sizing
pub mod Engine
