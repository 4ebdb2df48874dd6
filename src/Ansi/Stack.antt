-- ===== src/Ansi/Stack.antt =====
-- ANSIWrapper as the allocator under HeapRedirect: the stack that include/alloc8/ansi_wrapper.h is for.
use alloc.Base.{
  ℕ, ◌+◌, ◌-◌, ◌^◌, ◌<◌, ◌≡◌, Option, some, arith, size_mod, ne→==, pow2_bounds, some-injective,
  sym,
}
use alloc.Machine.{Ptr, null, Machine, M}
use alloc.Machine.Yields.{Yields}
use alloc.Heap.{Allocator}
use alloc.Heap.Contract.{WellFormed, IsBlock, Freed, Reallocated, IsAllocator, IsAllocatorUpTo}
use alloc.Ansi.{ansi_wrapper, ansi_free, ansi_realloc}
use alloc.Ansi.Allocation.{ansi_malloc-Allocated, ansi_realloc-Reallocated}
use alloc.Ansi.Aligning.{ansi_memalign-AllocatedAt}

-- The sizes that its realloc takes are below this.
abbrev pub realloc_limit : ℕ → ℕ
realloc_limit k = size_mod + 1 - 2 ^ k

module _ {H : Type 0} (live : H → Ptr → Option ℕ) (A : Allocator H) (k : ℕ) (k_fits : k < 63)
    (is : IsAllocator live A) where
  ansi_free-Freed :
      (p : Ptr) (n : ℕ) (m : Machine H)
      → WellFormed live m
      → live m.heap p ≡ some n
      → Yields (Freed live p m) (ansi_free A (2 ^ k) p m)
  unfolding ansi_free
  ansi_free-Freed p n m w own =
      rw (ne→== p null (λ e. ground (arith, w.null_free))) (is.free-Freed p n m w own)

  native_lem :
      (f : Ptr → ℕ → M H Ptr) (p : Ptr) (sz : ℕ) (m : Machine H)
      → some (ansi_realloc A (2 ^ k)) ≡ some f
      → sz < realloc_limit k
      → WellFormed live m
      → IsBlock live p m
      → Yields (Reallocated live p sz m) (f p sz m)
  native_lem f p sz m e small w b = rw (sym (some-injective e)) (
      ansi_realloc-Reallocated live A is k k_fits p sz m
        (omega (arith, pow2_bounds k (omega arith))) w b)

  -- Where MinAlignment is a power of two below 2^63, over a heap that keeps its contract
  -- ANSIWrapper is an allocator that keeps its own, its realloc for the sizes that together with
  -- MinAlignment do not pass the address space.
  pub ansi_wrapper-IsAllocatorUpTo : IsAllocatorUpTo live (realloc_limit k) (ansi_wrapper A (2 ^ k))
  unfolding ansi_wrapper
  ansi_wrapper-IsAllocatorUpTo = record {
    malloc-Allocated = ansi_malloc-Allocated live A is k k_fits;
    memalign-AllocatedAt = ansi_memalign-AllocatedAt live A is k k_fits;
    free-Freed = ansi_free-Freed;
    get_size-live = is.get_size-live;
    native_realloc-Reallocated = native_lem;
  }
