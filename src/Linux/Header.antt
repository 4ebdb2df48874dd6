-- ===== src/Linux/Header.antt =====
-- include/alloc8/gnu_wrapper.h: the same functions in a header, which call the heap of
-- getCustomHeap() with nothing between.
pub mod Agreement
use alloc.Base.{
  ℕ, ◌+◌, ◌%◌, ◌||◌, ◌&&◌, not, ◌==◌, if◌then◌else◌, ltb, add_size, mul_size, product_overflows,
  product_exceeds, is_pow2_or_zero, round_up,
}
use alloc.Machine.{
  Ptr, null, M, pure, skip, ◌>>=◌, ◌>>◌, set_errno, throw_bad_alloc, memcpy, memset, store, strlen,
  strnlen,
}
use alloc.Heap.{Allocator}
use alloc.Errno.{einval, enomem, sizeof_ptr, page_size}

module _ {H : Type 0} (A : Allocator H) where
  unfoldable pub do_malloc : ℕ → M H Ptr
  do_malloc sz = A.malloc sz

  unfoldable pub do_free : Ptr → M H (Unit {0})
  do_free ptr = A.free ptr

  unfoldable pub do_memalign : ℕ → ℕ → M H Ptr
  do_memalign alignment sz = A.memalign alignment sz

  unfoldable pub do_getsize : Ptr → M H ℕ
  do_getsize ptr = A.get_size ptr

  unfoldable pub malloc : ℕ → M H Ptr
  unfolding do_malloc
  malloc sz = do_malloc sz

  unfoldable pub free : Ptr → M H (Unit {0})
  unfolding do_free
  free ptr = if ptr == null then skip else do_free ptr

  unfoldable pub calloc : ℕ → ℕ → M H Ptr
  unfolding do_malloc
  calloc nelem elsize =
      let total = mul_size nelem elsize in
      if product_overflows nelem elsize then pure null else do
        ptr ← do_malloc total
        if ptr == null then pure ptr else do memset ptr 0 total; pure ptr

  unfoldable pub realloc : Ptr → ℕ → M H Ptr
  unfolding do_malloc do_free do_getsize
  realloc ptr sz =
      if ptr == null then do_malloc sz else if sz == 0 then (do do_free ptr; pure null) else do
        old_size ← do_getsize ptr
        new_ptr ← do_malloc sz
        if new_ptr == null then pure new_ptr else do
          let copy_size = if ltb old_size sz then old_size else sz
          memcpy new_ptr ptr copy_size
          do_free ptr
          pure new_ptr

  unfoldable pub reallocarray : Ptr → ℕ → ℕ → M H Ptr
  unfolding realloc
  reallocarray ptr nmemb size =
      if product_exceeds nmemb size
      then (do set_errno enomem; pure null)
      else realloc ptr (mul_size nmemb size)

  unfoldable pub memalign : ℕ → ℕ → M H Ptr
  unfolding do_memalign
  memalign alignment size = do_memalign alignment size

  -- The result, and what `*memptr` holds then.
  unfoldable pub posix_memalign : ℕ → ℕ → M H (ℕ × Ptr)
  unfolding do_memalign
  posix_memalign alignment size =
      if alignment == 0 || (not (alignment % sizeof_ptr == 0) || not (is_pow2_or_zero alignment))
      then pure (einval, null)
      else do
        ptr ← do_memalign alignment size
        if ptr == null then pure (enomem, null) else pure (0, ptr)

  unfoldable pub aligned_alloc : ℕ → ℕ → M H Ptr
  unfolding do_memalign
  aligned_alloc alignment size =
      if alignment == 0 || not (size % alignment == 0)
      then pure null
      else do_memalign alignment size

  unfoldable pub malloc_usable_size : Ptr → M H ℕ
  unfolding do_getsize
  malloc_usable_size ptr = do_getsize ptr

  unfoldable pub cfree : Ptr → M H (Unit {0})
  unfolding do_free
  cfree ptr = if ptr == null then skip else do_free ptr

  unfoldable pub strdup : Ptr → M H Ptr
  unfolding do_malloc
  strdup s = if s == null then pure null else do
    n ← strlen s
    let len = add_size n 1
    new_str ← do_malloc len
    if new_str == null then pure new_str else do memcpy new_str s len; pure new_str

  unfoldable pub strndup : Ptr → ℕ → M H Ptr
  unfolding do_malloc
  strndup s n = if s == null then pure null else do
    len ← strnlen n s
    new_str ← do_malloc (add_size len 1)
    if new_str == null
        then pure new_str
        else do memcpy new_str s len; store (new_str + len) 0; pure new_str

  unfoldable pub valloc : ℕ → M H Ptr
  unfolding do_memalign
  valloc sz = do_memalign page_size sz

  unfoldable pub pvalloc : ℕ → M H Ptr
  unfolding do_memalign
  pvalloc sz = do_memalign page_size (round_up sz page_size)

  unfoldable pub mallopt : ℕ → ℕ → M H ℕ
  mallopt param value = pure 1

  unfoldable pub malloc_trim : ℕ → M H ℕ
  malloc_trim pad = pure 0

  unfoldable pub libc_malloc : ℕ → M H Ptr
  unfolding do_malloc
  libc_malloc n = do_malloc n

  unfoldable pub libc_free : Ptr → M H (Unit {0})
  unfolding do_free
  libc_free p = if p == null then skip else do_free p

  unfoldable pub libc_calloc : ℕ → ℕ → M H Ptr
  unfolding calloc
  libc_calloc a b = calloc a b

  unfoldable pub libc_realloc : Ptr → ℕ → M H Ptr
  unfolding realloc
  libc_realloc p n = realloc p n

  unfoldable pub libc_memalign : ℕ → ℕ → M H Ptr
  unfolding do_memalign
  libc_memalign m n = do_memalign m n

  unfoldable pub alloc8_fork_prepare : M H (Unit {0})
  alloc8_fork_prepare = A.lock

  unfoldable pub alloc8_fork_parent : M H (Unit {0})
  alloc8_fork_parent = A.unlock

  unfoldable pub alloc8_fork_child : M H (Unit {0})
  alloc8_fork_child = A.unlock

  -- `operator new` and `operator new[]`
  unfoldable pub operator_new : ℕ → M H Ptr
  unfolding do_malloc
  operator_new sz = do
    ptr ← do_malloc sz
    if ptr == null && not (sz == 0) then throw_bad_alloc else pure ptr

  unfoldable pub operator_new_nothrow : ℕ → M H Ptr
  unfolding do_malloc
  operator_new_nothrow sz = do_malloc sz

  -- `operator delete` in all its forms: the size, the alignment and nothrow are not used.
  unfoldable pub operator_delete : Ptr → M H (Unit {0})
  unfolding do_free
  operator_delete ptr = if ptr == null then skip else do_free ptr

  unfoldable pub operator_new_aligned : ℕ → ℕ → M H Ptr
  unfolding do_memalign
  operator_new_aligned sz align = do
    ptr ← do_memalign align sz
    if ptr == null && not (sz == 0) then throw_bad_alloc else pure ptr

  unfoldable pub operator_new_aligned_nothrow : ℕ → ℕ → M H Ptr
  unfolding do_memalign
  operator_new_aligned_nothrow sz align = do_memalign align sz
