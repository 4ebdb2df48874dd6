-- ===== src/Table.antt =====
-- include/alloc8/function_table.h: the table of function pointers, made from a HeapRedirect, and the
-- functions that call through the global pointer to it. A call through a null pointer is a crash.
pub mod Dispatch
use alloc.Base.{ℕ, Option, none, some}
use alloc.Machine.{Ptr, M, crash}
use alloc.Heap.{Allocator}
use alloc.Redirect

-- The context, which the code leaves null, has no field.
pub record AllocatorFunctionTable (H : Type 0) : Type 0 where
  pub malloc : ℕ → M H Ptr
  pub free : Ptr → M H (Unit {0})
  pub realloc : Ptr → ℕ → M H Ptr
  pub calloc : ℕ → ℕ → M H Ptr
  pub memalign : ℕ → ℕ → M H Ptr
  pub malloc_usable_size : Ptr → M H ℕ
  pub lock : M H (Unit {0})
  pub unlock : M H (Unit {0})

module _ {H : Type 0} where
  pub make_allocator_table : Allocator H → AllocatorFunctionTable H
  unfolding Redirect.malloc Redirect.free Redirect.realloc Redirect.calloc Redirect.memalign
      Redirect.get_size Redirect.lock Redirect.unlock
  make_allocator_table A = record {
    malloc = Redirect.malloc A;
    free = Redirect.free A;
    realloc = Redirect.realloc A;
    calloc = Redirect.calloc A;
    memalign = Redirect.memalign A;
    malloc_usable_size = Redirect.get_size A;
    lock = Redirect.lock A;
    unlock = Redirect.unlock A;
  }

  -- `table` is g_allocator_table.
  pub rt_malloc : Option (AllocatorFunctionTable H) → ℕ → M H Ptr
  rt_malloc none sz = λ m. crash
  rt_malloc (some t) sz = t.malloc sz

  pub rt_free : Option (AllocatorFunctionTable H) → Ptr → M H (Unit {0})
  rt_free none ptr = λ m. crash
  rt_free (some t) ptr = t.free ptr

  pub rt_realloc : Option (AllocatorFunctionTable H) → Ptr → ℕ → M H Ptr
  rt_realloc none ptr sz = λ m. crash
  rt_realloc (some t) ptr sz = t.realloc ptr sz

  pub rt_calloc : Option (AllocatorFunctionTable H) → ℕ → ℕ → M H Ptr
  rt_calloc none count sz = λ m. crash
  rt_calloc (some t) count sz = t.calloc count sz

  pub rt_memalign : Option (AllocatorFunctionTable H) → ℕ → ℕ → M H Ptr
  rt_memalign none alignment sz = λ m. crash
  rt_memalign (some t) alignment sz = t.memalign alignment sz

  pub rt_malloc_usable_size : Option (AllocatorFunctionTable H) → Ptr → M H ℕ
  rt_malloc_usable_size none ptr = λ m. crash
  rt_malloc_usable_size (some t) ptr = t.malloc_usable_size ptr
