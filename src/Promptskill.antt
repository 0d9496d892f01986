-- ===== src/Promptskill.antt =====
-- Prompt skills (internal/promptskill).
pub mod Matcher
