-- ===== src/Heap.antt =====
-- The interface of an allocator: the concepts of include/alloc8/allocator_traits.h.
pub mod Contract
pub mod Moving
pub mod Resizing
pub mod Writes
pub mod Strings
pub mod Bounded
pub mod Aligning
pub mod Filling
pub mod Bump
use alloc.Base.{ℕ, Option}
use alloc.Machine.{Ptr, M}

-- What the class given to HeapRedirect provides. `realloc`, `thread_init` and `thread_cleanup` are
-- optional members. Each call may change the allocator's own state and any byte of memory.
pub record Allocator (H : Type 0) : Type 0 where
  pub malloc : ℕ → M H Ptr
  pub free : Ptr → M H (Unit {0})
  pub get_size : Ptr → M H ℕ
  pub memalign : ℕ → ℕ → M H Ptr
  pub lock : M H (Unit {0})
  pub unlock : M H (Unit {0})
  pub native_realloc : Option (Ptr → ℕ → M H Ptr)
  pub thread_init : Option (M H (Unit {0}))
  pub thread_cleanup : Option (M H (Unit {0}))
