-- ===== src/NewDelete.antt =====
-- src/common/new_delete.cpp (and new_delete.inc, its copy for inclusion): operator new and delete over
-- the xxmalloc interface. The array forms, and the forms of delete with a size, an alignment or
-- nothrow, have the same bodies.
pub mod Throws
use alloc.Base.{ℕ, ◌==◌, if◌then◌else◌}
use alloc.Machine.{Ptr, null, M, pure, skip, ◌>>=◌, throw_bad_alloc}
use alloc.Xx.{Xx}

module _ {H : Type 0} (X : Xx H) where
  unfoldable pub operator_new : ℕ → M H Ptr
  operator_new sz = do ptr ← X.xxmalloc sz; if ptr == null then throw_bad_alloc else pure ptr

  unfoldable pub operator_new_array : ℕ → M H Ptr
  operator_new_array sz = do ptr ← X.xxmalloc sz; if ptr == null then throw_bad_alloc else pure ptr

  unfoldable pub operator_new_nothrow : ℕ → M H Ptr
  operator_new_nothrow sz = X.xxmalloc sz

  unfoldable pub operator_delete : Ptr → M H (Unit {0})
  operator_delete ptr = if ptr == null then skip else X.xxfree ptr

  unfoldable pub operator_delete_sized : Ptr → ℕ → M H (Unit {0})
  operator_delete_sized ptr sz = if ptr == null then skip else X.xxfree ptr

  unfoldable pub operator_new_aligned : ℕ → ℕ → M H Ptr
  operator_new_aligned sz al = do
    ptr ← X.xxmemalign al sz
    if ptr == null then throw_bad_alloc else pure ptr

  unfoldable pub operator_new_aligned_nothrow : ℕ → ℕ → M H Ptr
  operator_new_aligned_nothrow sz al = X.xxmemalign al sz

  unfoldable pub operator_delete_aligned : Ptr → ℕ → M H (Unit {0})
  operator_delete_aligned ptr al = if ptr == null then skip else X.xxfree ptr
