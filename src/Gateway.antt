-- ===== src/Gateway.antt =====
-- The chat gateway (internal/gateway).
pub mod ChatStore
