-- ===== src/Llm.antt =====
-- The providers' resilience (internal/llm).
pub mod Circuit
pub mod Router
