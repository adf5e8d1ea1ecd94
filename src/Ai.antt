-- ===== src/Ai.antt =====
-- app/ai: the context auditor.
pub mod Auditor
pub mod Answers
