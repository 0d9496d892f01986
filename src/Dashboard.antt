-- ===== src/Dashboard.antt =====
-- The dashboard (internal/dashboard).
pub mod Activity
