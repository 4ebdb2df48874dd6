-- ===== src/Linux/Wrapper.antt =====
-- src/platform/linux/gnu_wrapper.cpp: the functions that replace those of libc, over the xxmalloc
-- interface. `__getcwd` of glibc is a parameter.
pub mod Allocation
pub mod Directory
use alloc.Base.{
  ℕ, ◌+◌, ◌%◌, ◌||◌, not, ◌==◌, if◌then◌else◌, add_size, mul_size, product_exceeds, is_pow2_or_zero,
  round_up,
}
use alloc.Machine.{Ptr, null, M, pure, skip, ◌>>=◌, ◌>>◌, set_errno, memcpy, store, strlen, strnlen}
use alloc.Xx.{Xx}
use alloc.Errno.{einval, enomem, sizeof_ptr, page_size, path_max}

module _ {H : Type 0} (X : Xx H) where
  unfoldable pub custom_malloc : ℕ → M H Ptr
  custom_malloc sz = X.xxmalloc sz

  unfoldable pub custom_free : Ptr → M H (Unit {0})
  custom_free ptr = if ptr == null then skip else X.xxfree ptr

  unfoldable pub custom_calloc : ℕ → ℕ → M H Ptr
  custom_calloc nelem elsize = X.xxcalloc nelem elsize

  unfoldable pub custom_realloc : Ptr → ℕ → M H Ptr
  custom_realloc ptr sz = X.xxrealloc ptr sz

  unfoldable pub custom_reallocarray : Ptr → ℕ → ℕ → M H Ptr
  custom_reallocarray ptr nmemb size =
      if product_exceeds nmemb size
      then (do set_errno enomem; pure null)
      else X.xxrealloc ptr (mul_size nmemb size)

  unfoldable pub custom_memalign : ℕ → ℕ → M H Ptr
  custom_memalign alignment size = X.xxmemalign alignment size

  -- The result, and what `*memptr` holds then.
  unfoldable pub custom_posix_memalign : ℕ → ℕ → M H (ℕ × Ptr)
  custom_posix_memalign alignment size =
      if alignment == 0 || (not (alignment % sizeof_ptr == 0) || not (is_pow2_or_zero alignment))
      then pure (einval, null)
      else do
        ptr ← X.xxmemalign alignment size
        if ptr == null then pure (enomem, null) else pure (0, ptr)

  unfoldable pub custom_aligned_alloc : ℕ → ℕ → M H Ptr
  custom_aligned_alloc alignment size =
      if alignment == 0 || not (size % alignment == 0)
      then pure null
      else X.xxmemalign alignment size

  unfoldable pub custom_malloc_usable_size : Ptr → M H ℕ
  custom_malloc_usable_size ptr = X.xxmalloc_usable_size ptr

  unfoldable pub custom_cfree : Ptr → M H (Unit {0})
  custom_cfree ptr = if ptr == null then skip else X.xxfree ptr

  unfoldable pub custom_strdup : Ptr → M H Ptr
  custom_strdup s = if s == null then pure null else do
    n ← strlen s
    let len = add_size n 1
    new_str ← X.xxmalloc len
    if new_str == null then pure new_str else do memcpy new_str s len; pure new_str

  unfoldable pub custom_strndup : Ptr → ℕ → M H Ptr
  custom_strndup s n = if s == null then pure null else do
    len ← strnlen n s
    new_str ← X.xxmalloc (add_size len 1)
    if new_str == null
        then pure new_str
        else do memcpy new_str s len; store (new_str + len) 0; pure new_str

  unfoldable pub custom_valloc : ℕ → M H Ptr
  custom_valloc sz = X.xxmemalign page_size sz

  unfoldable pub custom_pvalloc : ℕ → M H Ptr
  custom_pvalloc sz = X.xxmemalign page_size (round_up sz page_size)

  unfoldable pub custom_mallopt : ℕ → ℕ → M H ℕ
  custom_mallopt param value = pure 1

  unfoldable pub custom_malloc_trim : ℕ → M H ℕ
  custom_malloc_trim pad = pure 0

  unfoldable pub custom_getcwd : (Ptr → ℕ → M H Ptr) → Ptr → ℕ → M H Ptr
  custom_getcwd real_getcwd buf size =
      if buf == null
      then (do
        let size' = if size == 0 then path_max else size
        buf' ← X.xxmalloc size'
        real_getcwd buf' size')
      else real_getcwd buf size

  unfoldable pub libc_malloc : ℕ → M H Ptr
  libc_malloc n = X.xxmalloc n

  unfoldable pub libc_free : Ptr → M H (Unit {0})
  libc_free p = if p == null then skip else X.xxfree p

  unfoldable pub libc_calloc : ℕ → ℕ → M H Ptr
  libc_calloc a b = X.xxcalloc a b

  unfoldable pub libc_realloc : Ptr → ℕ → M H Ptr
  libc_realloc p n = X.xxrealloc p n

  unfoldable pub libc_memalign : ℕ → ℕ → M H Ptr
  libc_memalign m n = X.xxmemalign m n

  unfoldable pub fork_prepare : M H (Unit {0})
  fork_prepare = X.xxmalloc_lock

  unfoldable pub fork_parent : M H (Unit {0})
  fork_parent = X.xxmalloc_unlock

  unfoldable pub fork_child : M H (Unit {0})
  fork_child = X.xxmalloc_unlock
