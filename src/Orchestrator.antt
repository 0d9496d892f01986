-- ===== src/Orchestrator.antt =====
-- The orchestrator (internal/orchestrator).
pub mod Verify
pub mod RetryData
pub mod RetryTexts
pub mod Retry
pub mod Match
pub mod Resolve
