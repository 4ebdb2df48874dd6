-- ===== src/Linux/Wrapper/Allocation.antt =====
-- What the functions of src/platform/linux/gnu_wrapper.cpp give, over an xxmalloc interface that keeps
-- its promises.
use alloc.Base.{
  ℕ, ◌+◌, ◌*◌, ◌%◌, ◌≤◌, ◌<◌, ◌≡◌, refl, ◌≢◌, ◌⊎◌, inl, inr, true, Option, arith, ◌==◌, size_mod,
  IsPow2, ne→==, ==→eq, ==→ne, round_up_wraps, Bool-cases, product_exceeds, product_exceeds_iff,
  round_up, round_up_bounds, gnu_rejects-eq-common_rejects, ap,
}
use native.Mathlib.Nat.{mod-eq_of_lt, one-le-pow}
use alloc.Machine.{Ptr, null, Machine, ok}
use alloc.Machine.Yields.{Yields, yields, weaken}
use alloc.Heap.Contract.{WellFormed, IsBlock, AllocatedAt, Reallocated, PosixAligned}
use alloc.Heap.Aligning.{posix_steps-PosixAligned}
use alloc.Heap.Strings.{IsString, InBlock, Duplicated, strlen-IsString, copy_steps-Duplicated}
use alloc.Xx.{Xx, IsXx}
use alloc.Errno.{enomem, page_size}
use alloc.Linux.Wrapper.{
  custom_reallocarray, custom_posix_memalign, custom_aligned_alloc, custom_strdup, custom_pvalloc,
}

module _ {H : Type 0} (live : H → Ptr → Option ℕ) (X : Xx H) (is : IsXx live X) where
  -- reallocarray is realloc of the product, or sets errno and leaves the block where it is too large.
  abbrev pub ReallocatedArray : Ptr → ℕ → ℕ → Machine H → Ptr → Machine H → Type 0
  ReallocatedArray p nmemb size m q m' =
      (nmemb * size < size_mod) × Reallocated live p (nmemb * size) m q m'
      ⊎ (size_mod ≤ nmemb * size) × (q ≡ null) × (m' ≡ record m { errno = enomem })

  -- At `nullptr` or a live block, reallocarray is realloc of the product where that fits a size_t; where it
  -- does not, the result is null, errno is ENOMEM, and nothing else changes.
  pub custom_reallocarray-ReallocatedArray :
      (p : Ptr) (nmemb size : ℕ) (m : Machine H)
      → WellFormed live m
      → IsBlock live p m
      → Yields (ReallocatedArray p nmemb size m) (custom_reallocarray X p nmemb size m)
  unfolding custom_reallocarray
  custom_reallocarray-ReallocatedArray p nmemb size m w b =
      let large = product_exceeds_iff nmemb size in
      elim (Bool-cases (product_exceeds nmemb size)) [
        | inl over ↦ rw over (yields (inr (large.0 over, refl, refl)))
        | inr fits ↦
            let small : nmemb * size < size_mod = ground (arith, large) in
            rw (fits, mod-eq_of_lt small)
              (weaken (is.xxrealloc-Reallocated p (nmemb * size) m small w b)
                λ q m' got. inl (small, got))
      ]

  -- posix_memalign gives EINVAL and does nothing unless the alignment is a power of two from 8 up; else it
  -- gives ENOMEM and no block, or 0 and a new block of the size at a multiple of the alignment.
  pub custom_posix_memalign-PosixAligned :
      (al sz : ℕ) (m : Machine H)
      → al < size_mod
      → sz < size_mod
      → WellFormed live m
      → Yields (PosixAligned live true al sz m) (custom_posix_memalign X al sz m)
  unfolding custom_posix_memalign
  custom_posix_memalign-PosixAligned al sz m small small' w =
      rw (gnu_rejects-eq-common_rejects al small) (
        posix_steps-PosixAligned live X.xxmemalign is.xxmemalign-AllocatedAt true al sz m small
          small' w)

  -- For an alignment that is a power of two, aligned_alloc gives null and does nothing where the size is no
  -- multiple of it, and else allocates a block of the size at a multiple of it, or fails.
  pub custom_aligned_alloc-AllocatedAt :
      (al sz : ℕ) (m : Machine H)
      → IsPow2 al
      → al < size_mod
      → sz < size_mod
      → WellFormed live m
      → (sz % al ≢ 0) × (custom_aligned_alloc X al sz m ≡ ok null m)
        ⊎ (sz % al ≡ 0) × Yields (AllocatedAt live al sz m) (custom_aligned_alloc X al sz m)
  unfolding custom_aligned_alloc
  custom_aligned_alloc-AllocatedAt al sz m pow small small' w =
      rw (ne→== al 0 (omega (arith, pow.1, one-le-pow pow.0 2 (omega arith))))
        (elim (Bool-cases (sz % al == 0)) [
          | inl whole ↦
              rw whole (
                inr (==→eq (sz % al) 0 whole, is.xxmemalign-AllocatedAt al sz m pow small small' w))
          | inr part ↦ rw part (inl (==→ne (sz % al) 0 part, refl))
        ])

  -- At a string of `n` characters in a live block, strdup fails or gives a new block that begins with the
  -- characters and the zero behind them.
  pub custom_strdup-Duplicated :
      (s : Ptr) (n : ℕ) (m : Machine H)
      → WellFormed live m
      → s ≢ null
      → IsString m.mem s n
      → InBlock live m s (n + 1)
      → Yields (Duplicated live s (n + 1) m) (custom_strdup X s m)
  unfolding custom_strdup
  custom_strdup-Duplicated s n m w ne str at =
      let small : n + 1 < size_mod = omega (arith, str.fits) in
      rw (ne→== s null ne, strlen-IsString s n m str, mod-eq_of_lt small)
        (copy_steps-Duplicated live X.xxmalloc s (n + 1) m (is.xxmalloc-Allocated (n + 1) m small w)
          at)

  -- Where size and page do not pass the address space, pvalloc allocates the next multiple of the page size,
  -- at a multiple of the page size.
  pub custom_pvalloc-AllocatedAt :
      (sz : ℕ) (m : Machine H)
      → sz + page_size ≤ size_mod
      → WellFormed live m
      → (r : ℕ) × (sz ≤ r)
        × (r < sz + page_size)
        × (r % page_size ≡ 0)
        × Yields (AllocatedAt live page_size r m) (custom_pvalloc X sz m)
  unfolding custom_pvalloc
  custom_pvalloc-AllocatedAt sz m room w =
      let (lo, hi, whole) = round_up_bounds sz 12 (omega arith) room in
      (
        round_up sz page_size,
        lo,
        hi,
        whole,
        is.xxmemalign-AllocatedAt page_size (round_up sz page_size) m (12, refl) (omega arith)
            (omega arith) w,
      )

-- For a size within a page of SIZE_MAX pvalloc allocates no bytes at all.
pub pvalloc_wraps :
    {H : Type 0} (X : Xx H) (sz : ℕ) (m : Machine H)
    → size_mod < sz + page_size
    → sz < size_mod
    → custom_pvalloc X sz m ≡ X.xxmemalign page_size 0 m
unfolding custom_pvalloc
pvalloc_wraps X sz m wraps small =
    ap (λ (r : ℕ). X.xxmemalign page_size r m) (round_up_wraps sz 12 (omega arith) wraps small)
