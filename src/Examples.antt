-- ===== src/Examples.antt =====
-- The example allocators of examples/.
pub mod SimpleHeap
pub mod Hoard
pub mod DieHard
