-- ===== src/Signals.antt =====
-- app/signals: from the features of a symbol to a decision to enter.
pub mod Friction
pub mod ExitLevels
pub mod Quant
pub mod Breakout
pub mod Candidates
pub mod Engine
