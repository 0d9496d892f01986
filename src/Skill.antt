-- ===== src/Skill.antt =====
-- Skills that need no language model (internal/skill/builtin).
pub mod Barcodes
pub mod BigBase
pub mod Distance
pub mod Vin
