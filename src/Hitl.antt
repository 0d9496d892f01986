-- ===== src/Hitl.antt =====
-- Human-in-the-loop assistance (internal/hitl).
pub mod Hub
