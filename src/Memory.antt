-- ===== src/Memory.antt =====
-- The memory tiers (internal/memory).
pub mod ShortTerm
pub mod Compactor
