-- ===== src/Ansi.antt =====
-- ANSIWrapper<SuperHeap, MinAlignment> of include/alloc8/ansi_wrapper.h. `A` is the heap below, and
-- `alignment` the second template argument, a power of two that is at least sizeof(void*).
pub mod Allocation
pub mod Aligning
pub mod Stack
use alloc.Base.{
  ℕ, ◌+◌, ◌-◌, ◌%◌, ◌||◌, ◌&&◌, not, ◌==◌, if◌then◌else◌, ltb, leb, some, size_max, mul_size,
  product_exceeds, is_pow2_or_zero, round_up,
}
use alloc.Machine.{Ptr, null, M, pure, skip, ◌>>=◌, ◌>>◌, memcpy, memset}
use alloc.Heap.{Allocator}
use alloc.Errno.{einval, enomem, sizeof_ptr}

module _ {H : Type 0} (A : Allocator H) (alignment : ℕ) where
  pub ansi_malloc : ℕ → M H Ptr
  ansi_malloc sz =
      let sz' = if ltb sz alignment then alignment else sz in
      if ltb (size_max - alignment + 1) sz' then pure null else A.malloc (round_up sz' alignment)

  pub ansi_free : Ptr → M H (Unit {0})
  ansi_free ptr = if ptr == null then skip else A.free ptr

  pub ansi_realloc : Ptr → ℕ → M H Ptr
  unfolding ansi_malloc ansi_free
  ansi_realloc ptr sz =
      if ptr == null then ansi_malloc sz else if sz == 0 then (do ansi_free ptr; pure null) else do
        let sz' = round_up (if ltb sz alignment then alignment else sz) alignment
        current_size ← A.get_size ptr
        if leb sz' current_size then pure ptr else do
          new_ptr ← A.malloc sz'
          if new_ptr == null
              then pure null
              else do memcpy new_ptr ptr current_size; A.free ptr; pure new_ptr

  pub ansi_calloc : ℕ → ℕ → M H Ptr
  unfolding ansi_malloc
  ansi_calloc count size = if product_exceeds count size then pure null else do
    let total_size = mul_size count size
    ptr ← ansi_malloc total_size
    if ptr == null then pure ptr else do memset ptr 0 total_size; pure ptr

  pub ansi_memalign : ℕ → ℕ → M H Ptr
  ansi_memalign requested_alignment sz =
      let actual = if ltb alignment requested_alignment then requested_alignment else alignment in
      if not (is_pow2_or_zero actual) then pure null else A.memalign actual sz

  -- The result, and what `*memptr` holds then.
  pub ansi_posix_memalign : ℕ → ℕ → M H (ℕ × Ptr)
  unfolding ansi_memalign
  ansi_posix_memalign requested_alignment sz =
      if ltb requested_alignment sizeof_ptr || not (is_pow2_or_zero requested_alignment)
      then pure (einval, null)
      else do
        ptr ← ansi_memalign requested_alignment sz
        if (ptr == null) && not (sz == 0) then pure (enomem, null) else pure (0, ptr)

  ansi_aligned_alloc : ℕ → ℕ → M H Ptr
  unfolding ansi_memalign
  ansi_aligned_alloc requested_alignment sz =
      if requested_alignment == 0 || not (sz % requested_alignment == 0)
      then pure null
      else ansi_memalign requested_alignment sz

  -- The class: getSize, lock and unlock are those of the heap below.
  unfoldable pub ansi_wrapper : Allocator H
  unfolding ansi_malloc ansi_free ansi_realloc ansi_memalign
  ansi_wrapper = record {
    malloc = ansi_malloc;
    free = ansi_free;
    get_size = A.get_size;
    memalign = ansi_memalign;
    lock = A.lock;
    unlock = A.unlock;
    native_realloc = some ansi_realloc;
    thread_init = A.thread_init;
    thread_cleanup = A.thread_cleanup;
  }
