-- ===== src/Detours.antt =====
-- src/platform/windows/win_wrapper_detours.cpp: the functions that Detours puts in the place of those
-- of the C runtime. `ours` says of a heap and an address whether xxmalloc_usable_size can be asked
-- about it: at any other ("foreign") address it raises an access violation, which __except catches.
pub mod Attach
pub mod Foreign
pub mod Recalloc
pub mod Entries
use alloc.Base.{
  ℕ, ◌/◌, ◌+◌, ◌-◌, Bool, true, ◌&&◌, ◌==◌, if◌then◌else◌, ltb, leb, add_size, mul_size,
}
use alloc.Machine.{Ptr, null, M, pure, skip, ◌>>=◌, ◌>>◌, memcpy, memset, strlen}
use alloc.Xx.{Xx}

module _ {H : Type 0} (X : Xx H) (ours : H → Ptr → Bool) where
  pub safe_get_alloc_size : Ptr → M H ℕ
  safe_get_alloc_size ptr m =
      if ptr == null
      then pure 0 m
      else if ours m.heap ptr
      then X.xxmalloc_usable_size ptr m
      else pure 0 m

  -- `init_complete` is g_initComplete.
  pub is_our_pointer : (init_complete : Bool) → Ptr → M H Bool
  unfolding safe_get_alloc_size
  is_our_pointer init_complete ptr =
      if init_complete then pure true else do size ← safe_get_alloc_size ptr; pure (ltb 0 size)

  unfoldable pub detour_malloc : ℕ → M H Ptr
  detour_malloc sz = X.xxmalloc sz

  unfoldable pub detour_free : (init_complete : Bool) → Ptr → M H (Unit {0})
  unfolding is_our_pointer
  detour_free init_complete ptr =
      if ptr == null
      then skip
      else do o ← is_our_pointer init_complete ptr; if o then X.xxfree ptr else skip

  unfoldable pub detour_calloc : ℕ → ℕ → M H Ptr
  detour_calloc num size = X.xxcalloc num size

  pub detour_realloc : (init_complete : Bool) → Ptr → ℕ → M H Ptr
  unfolding safe_get_alloc_size is_our_pointer
  detour_realloc init_complete ptr sz =
      if ptr == null
      then X.xxmalloc sz
      else if sz == 0
      then (do o ← is_our_pointer init_complete ptr; if o then X.xxfree ptr else skip; X.xxmalloc 1)
      else do
        original_size ← safe_get_alloc_size ptr
        if original_size == 0
            then (do
              buf ← X.xxmalloc sz
              if buf == null then pure buf else do memcpy buf ptr sz; pure buf)
            else if ltb (original_size / 2) sz && leb sz original_size
            then pure ptr
            else do
              buf ← X.xxmalloc sz
              if buf == null then pure buf else do
                let min_size = if ltb original_size sz then original_size else sz
                memcpy buf ptr min_size
                X.xxfree ptr
                pure buf

  pub detour_msize : Ptr → M H ℕ
  unfolding safe_get_alloc_size
  detour_msize ptr = safe_get_alloc_size ptr

  pub detour_expand : Ptr → ℕ → M H Ptr
  detour_expand memblock size = pure null

  pub detour_recalloc : (init_complete : Bool) → Ptr → ℕ → ℕ → M H Ptr
  unfolding detour_realloc safe_get_alloc_size
  detour_recalloc init_complete memblock num size =
      let requested_size = mul_size num size in
      do
        ptr ← detour_realloc init_complete memblock requested_size
        if ptr == null then pure ptr else do
          actual_size ← safe_get_alloc_size ptr
          if ltb requested_size actual_size
              then memset (ptr + requested_size) 0 (actual_size - requested_size)
              else skip
          pure ptr

  pub detour_strdup : Ptr → M H Ptr
  detour_strdup s = if s == null then pure null else do
    n ← strlen s
    let len = add_size n 1
    new_str ← X.xxmalloc len
    if new_str == null then pure new_str else do memcpy new_str s len; pure new_str

  -- The debug variants, but for the arguments that they ignore.
  pub detour_malloc_dbg : ℕ → M H Ptr
  detour_malloc_dbg size = X.xxmalloc size

  pub detour_free_dbg : (init_complete : Bool) → Ptr → M H (Unit {0})
  unfolding detour_free
  detour_free_dbg init_complete ptr = detour_free init_complete ptr

  pub detour_realloc_dbg : (init_complete : Bool) → Ptr → ℕ → M H Ptr
  unfolding detour_realloc
  detour_realloc_dbg init_complete ptr sz = detour_realloc init_complete ptr sz

  pub detour_calloc_dbg : ℕ → ℕ → M H Ptr
  unfolding detour_calloc
  detour_calloc_dbg num size = detour_calloc num size

  pub detour_msize_dbg : Ptr → M H ℕ
  unfolding detour_msize
  detour_msize_dbg ptr = detour_msize ptr
