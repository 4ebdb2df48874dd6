-- ===== src/Linux.antt =====
-- The Linux platform layer.
pub mod Wrapper
pub mod Header
