-- ===== src/Tool.antt =====
-- The built-in tools (internal/tool/builtin).
pub mod Todo
