-- ===== src/Features.antt =====
-- app/features: the rolling state of each symbol, and the feature functions over it.
pub mod Store
pub mod Engine
pub mod Btc
pub mod OiPoller
