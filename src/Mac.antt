-- ===== src/Mac.antt =====
-- src/platform/macos/mac_wrapper.cpp: the functions that macOS programs get in the place of malloc and
-- the rest, over the xxmalloc interface. dyld, which binds the names of the interposition table to
-- them, is not modelled. `Mac.Zones` is mac_zones.cpp, which this file includes.
pub mod Zones
pub mod Allocation
pub mod Threads
use alloc.Base.{
  ℕ, ◌/◌, ◌%◌, ◌||◌, ◌&&◌, not, ◌==◌, if◌then◌else◌, ltb, leb, add_size, is_pow2_or_zero,
}
use alloc.Machine.{Ptr, null, M, pure, skip, ◌>>=◌, ◌>>◌, memcpy, strlen}
use alloc.Xx.{Xx}
use alloc.Errno.{einval, enomem, sizeof_ptr}

module _ {H : Type 0} (X : Xx H) where
  unfoldable pub replace_malloc : ℕ → M H Ptr
  replace_malloc sz = X.xxmalloc sz

  unfoldable pub replace_free : Ptr → M H (Unit {0})
  replace_free ptr = X.xxfree ptr

  pub replace_malloc_usable_size : Ptr → M H ℕ
  replace_malloc_usable_size ptr = if ptr == null then pure 0 else X.xxmalloc_usable_size ptr

  pub replace_realloc : Ptr → ℕ → M H Ptr
  replace_realloc ptr sz =
      if ptr == null then X.xxmalloc sz else if sz == 0 then (do X.xxfree ptr; X.xxmalloc 1) else do
        old_size ← X.xxmalloc_usable_size ptr
        if ltb (old_size / 2) sz && leb sz old_size then pure ptr else do
          new_ptr ← X.xxmalloc sz
          if new_ptr == null then pure new_ptr else do
            let copy_size = if ltb old_size sz then old_size else sz
            memcpy new_ptr ptr copy_size
            X.xxfree ptr
            pure new_ptr

  -- Frees the block also where memory ran out.
  pub replace_reallocf : Ptr → ℕ → M H Ptr
  replace_reallocf ptr sz =
      if ptr == null then X.xxmalloc sz else if sz == 0 then (do X.xxfree ptr; X.xxmalloc 1) else do
        old_size ← X.xxmalloc_usable_size ptr
        if ltb (old_size / 2) sz && leb sz old_size then pure ptr else do
          new_ptr ← X.xxmalloc sz
          if new_ptr == null
              then skip
              else memcpy new_ptr ptr (if ltb old_size sz then old_size else sz)
          X.xxfree ptr
          pure new_ptr

  unfoldable pub replace_calloc : ℕ → ℕ → M H Ptr
  replace_calloc count size = X.xxcalloc count size

  pub replace_strdup : Ptr → M H Ptr
  replace_strdup s = if s == null then pure null else do
    n ← strlen s
    let len = add_size n 1
    new_str ← X.xxmalloc len
    if new_str == null then pure new_str else do memcpy new_str s len; pure new_str

  pub replace_memalign : ℕ → ℕ → M H Ptr
  replace_memalign alignment size = X.xxmemalign alignment size

  replace_aligned_alloc : ℕ → ℕ → M H Ptr
  replace_aligned_alloc alignment size =
      if alignment == 0 || not (size % alignment == 0)
      then pure null
      else X.xxmemalign alignment size

  -- The result, and what `*memptr` holds then.
  pub replace_posix_memalign : ℕ → ℕ → M H (ℕ × Ptr)
  replace_posix_memalign alignment size =
      if alignment == 0 || (not (alignment % sizeof_ptr == 0) || not (is_pow2_or_zero alignment))
      then pure (einval, null)
      else do
        ptr ← X.xxmemalign alignment size
        if (ptr == null) && not (size == 0) then pure (enomem, null) else pure (0, ptr)

  -- `page` is ALLOC8_PAGE_SIZE.
  pub replace_valloc : (page : ℕ) → ℕ → M H Ptr
  replace_valloc page sz = X.xxmemalign page sz

  replace_vfree : Ptr → M H (Unit {0})
  replace_vfree ptr = X.xxfree ptr

  unfoldable pub replace_malloc_fork_prepare : M H (Unit {0})
  replace_malloc_fork_prepare = X.xxmalloc_lock

  unfoldable pub replace_malloc_fork_parent : M H (Unit {0})
  replace_malloc_fork_parent = X.xxmalloc_unlock

  unfoldable pub replace_malloc_fork_child : M H (Unit {0})
  replace_malloc_fork_child = X.xxmalloc_unlock

replace_malloc_good_size : ℕ → ℕ
replace_malloc_good_size sz = if sz == 0 then 1 else sz

replace_malloc_printf : {H : Type 0} → M H (Unit {0})
replace_malloc_printf = skip
