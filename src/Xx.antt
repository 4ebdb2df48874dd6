-- ===== src/Xx.antt =====
-- The xxmalloc interface of include/alloc8/alloc8.h, which every platform wrapper calls, and what it
-- promises of an allocator that meets the contract of Heap/Contract.antt.
use alloc.Base.{ℕ, ◌≡◌, ◌<◌, Option, some, size_mod, IsPow2}
use alloc.Machine.{Ptr, null, Machine, M, ok}
use alloc.Machine.Yields.{Yields}
use alloc.Heap.Contract.{
  WellFormed, IsBlock, Allocated, AllocatedAt, Freed, Reallocated, ZeroedProduct,
}

-- The extern "C" functions; a thread hook that is not defined is a weak symbol, null.
pub record Xx (H : Type 0) : Type 0 where
  pub xxmalloc : ℕ → M H Ptr
  pub xxfree : Ptr → M H (Unit {0})
  pub xxmemalign : ℕ → ℕ → M H Ptr
  pub xxmalloc_usable_size : Ptr → M H ℕ
  pub xxmalloc_lock : M H (Unit {0})
  pub xxmalloc_unlock : M H (Unit {0})
  pub xxrealloc : Ptr → ℕ → M H Ptr
  pub xxcalloc : ℕ → ℕ → M H Ptr

module _ {H : Type 0} (live : H → Ptr → Option ℕ) where
  -- xxrealloc is asked only for sizes below `limit`.
  pub record IsXxUpTo (limit : ℕ) (X : Xx H) : Type 0 where
    pub xxmalloc-Allocated :
        (sz : ℕ) (m : Machine H)
        → sz < size_mod
        → WellFormed live m
        → Yields (Allocated live sz m) (X.xxmalloc sz m)
    pub xxmemalign-AllocatedAt :
        (al sz : ℕ) (m : Machine H)
        → IsPow2 al
        → al < size_mod
        → sz < size_mod
        → WellFormed live m
        → Yields (AllocatedAt live al sz m) (X.xxmemalign al sz m)
    pub xxfree-Freed :
        (p : Ptr) (n : ℕ) (m : Machine H)
        → WellFormed live m
        → live m.heap p ≡ some n
        → Yields (Freed live p m) (X.xxfree p m)
    pub xxfree-null : (m : Machine H) → X.xxfree null m ≡ ok tt m
    pub usable_size-live :
        (p : Ptr) (n : ℕ) (m : Machine H)
        → WellFormed live m
        → live m.heap p ≡ some n
        → X.xxmalloc_usable_size p m ≡ ok n m
    pub usable_size-null : (m : Machine H) → X.xxmalloc_usable_size null m ≡ ok 0 m
    pub xxrealloc-Reallocated :
        (p : Ptr) (sz : ℕ) (m : Machine H)
        → sz < limit
        → WellFormed live m
        → IsBlock live p m
        → Yields (Reallocated live p sz m) (X.xxrealloc p sz m)
    pub xxcalloc-ZeroedProduct :
        (count size : ℕ) (m : Machine H)
        → WellFormed live m
        → Yields (ZeroedProduct live count size m) (X.xxcalloc count size m)

  abbrev pub IsXx : Xx H → Type 0
  IsXx = IsXxUpTo size_mod
