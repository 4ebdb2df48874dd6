-- ===== src/Common.antt =====
-- src/common/wrapper_common.cpp: implementations that the platform wrappers may share, over the
-- xxmalloc interface. The platform decides the page size, and whether realloc(p, 0) gives a small
-- block (__APPLE__).
pub mod Allocation
pub mod Bounded
use alloc.Base.{
  ℕ, zero, suc, ◌+◌, ◌/◌, ◌%◌, Bool, true, false, ◌&&◌, ◌||◌, not, none, some, ◌==◌, if◌then◌else◌,
  ltb, leb, add_size, mul_size, product_overflows, product_exceeds, is_pow2_or_zero, round_up,
}
use alloc.Machine.{
  Ptr, null, M, ok, crash, and_then, pure, ◌>>=◌, ◌>>◌, set_errno, memcpy, memset, store, strlen,
}
use alloc.Xx.{Xx}
use alloc.Errno.{einval, enomem, sizeof_ptr}

-- `while (len < n && s[len]) ++len;` with `left` rounds to go: the steps that it makes.
pub scan : {H : Type 0} → ℕ → Ptr → M H ℕ
scan zero s m = ok 0 m
scan (suc left) s m = elim (m.mem s) [
  | none ↦ crash
  | some c ↦ elim (c == 0) [
    | true ↦ ok 0 m
    | false ↦ and_then (scan left (s + 1) m) (λ k. ok (suc k))
  ]
]

module _ {H : Type 0} (X : Xx H) where
  pub common_calloc : ℕ → ℕ → M H Ptr
  common_calloc count size =
      let total = mul_size count size in
      if product_overflows count size then pure null else do
        ptr ← X.xxmalloc total
        if ptr == null then pure ptr else do memset ptr 0 total; pure ptr

  pub common_realloc : (apple : Bool) → Ptr → ℕ → M H Ptr
  common_realloc apple ptr sz =
      if ptr == null
      then X.xxmalloc sz
      else if sz == 0
      then (do X.xxfree ptr; if apple then X.xxmalloc 1 else pure null)
      else do
        old_size ← X.xxmalloc_usable_size ptr
        if ltb (old_size / 2) sz && leb sz old_size then pure ptr else do
          new_ptr ← X.xxmalloc sz
          if new_ptr == null then pure null else do
            let copy_size = if ltb old_size sz then old_size else sz
            memcpy new_ptr ptr copy_size
            X.xxfree ptr
            pure new_ptr

  -- The result, and what `*memptr` holds then.
  pub common_posix_memalign : ℕ → ℕ → M H (ℕ × Ptr)
  common_posix_memalign alignment size =
      if ltb alignment sizeof_ptr || not (is_pow2_or_zero alignment)
      then pure (einval, null)
      else do
        ptr ← X.xxmemalign alignment size
        if (ptr == null) && not (size == 0) then pure (enomem, null) else pure (0, ptr)

  common_aligned_alloc : ℕ → ℕ → M H Ptr
  common_aligned_alloc alignment size =
      if alignment == 0 || not (size % alignment == 0)
      then pure null
      else X.xxmemalign alignment size

  common_valloc : (page : ℕ) → ℕ → M H Ptr
  common_valloc page sz = X.xxmemalign page sz

  common_pvalloc : (page : ℕ) → ℕ → M H Ptr
  common_pvalloc page sz = X.xxmemalign page (round_up sz page)

  pub common_strdup : Ptr → M H Ptr
  common_strdup s = if s == null then pure null else do
    n ← strlen s
    let len = add_size n 1
    new_str ← X.xxmalloc len
    if new_str == null then pure new_str else do memcpy new_str s len; pure new_str

  pub common_strndup : Ptr → ℕ → M H Ptr
  unfolding scan
  common_strndup s n = if s == null then pure null else do
    len ← scan n s
    new_str ← X.xxmalloc (add_size len 1)
    if new_str == null
        then pure new_str
        else do memcpy new_str s len; store (new_str + len) 0; pure new_str

  pub common_reallocarray : (apple : Bool) → Ptr → ℕ → ℕ → M H Ptr
  unfolding common_realloc
  common_reallocarray apple ptr nmemb size =
      if product_exceeds nmemb size
      then (do set_errno enomem; pure null)
      else common_realloc apple ptr (mul_size nmemb size)
