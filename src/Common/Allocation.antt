-- ===== src/Common/Allocation.antt =====
-- The contracts that the functions of src/common/wrapper_common.cpp keep over the xxmalloc interface.
use alloc.Base.{
  ℕ, ◌+◌, ◌*◌, ◌<◌, ◌≤◌, ◌≡◌, ◌⊎◌, product_exceeds, product_exceeds_iff, refl, ◌≢◌, inl, inr, Bool,
  true, false, Option, arith, size_mod, ne→==, Bool-cases, product_overflows, product_overflows_iff,
  lt_of_product_overflows,
}
use native.Mathlib.Nat.{mod-eq_of_lt}
use alloc.Machine.{Ptr, null, Machine, pure}
use alloc.Machine.Yields.{Yields, yields, weaken}
use alloc.Heap.Contract.{WellFormed, IsBlock, ZeroedProduct, PosixAligned}
use alloc.Heap.Resizing.{Resized, AfterFree, resize-Resized}
use alloc.Heap.Filling.{zero_fill-Zeroed}
use alloc.Heap.Aligning.{posix_steps-PosixAligned}
use alloc.Heap.Strings.{IsString, InBlock, Duplicated, copy_steps-Duplicated, strlen-IsString}
use alloc.Errno.{enomem}
use alloc.Xx.{Xx, IsXxUpTo}
use alloc.Common.{
  common_realloc, common_calloc, common_posix_memalign, common_strdup, common_reallocarray,
}

module _ {H : Type 0} {limit : ℕ} (live : H → Ptr → Option ℕ) (X : Xx H)
    (is : IsXxUpTo live limit X) where
  -- At nullptr realloc allocates. At a live block, the size 0 frees it and gives null, or on macOS
  -- what malloc(1) gives; another size gives a block with the same bytes as far as they fit, and the
  -- old one, if it is another, is gone; or null, with the block as it was.
  pub common_realloc-Resized :
      (apple : Bool) (p : Ptr) (sz : ℕ) (m : Machine H)
      → sz < size_mod
      → WellFormed live m
      → IsBlock live p m
      → Yields (Resized live apple p sz m) (common_realloc X apple p sz m)
  unfolding common_realloc AfterFree
  common_realloc-Resized true p sz m small w b =
      resize-Resized live X is (λ q. null) (λ q e. refl) true (X.xxmalloc 1)
        (λ m1 w1. is.xxmalloc-Allocated 1 m1 (omega arith) w1) p sz m small w b
  common_realloc-Resized false p sz m small w b =
      resize-Resized live X is (λ q. null) (λ q e. refl) false (pure null)
        (λ m1 w1. yields (refl, refl)) p sz m small w b

  -- reallocarray is realloc of the product, or sets errno and leaves the block where it is too large.
  abbrev pub ResizedArray : Bool → Ptr → ℕ → ℕ → Machine H → Ptr → Machine H → Type 0
  ResizedArray apple p nmemb size m q m' =
      (nmemb * size < size_mod) × Resized live apple p (nmemb * size) m q m'
      ⊎ (size_mod ≤ nmemb * size) × (q ≡ null) × (m' ≡ record m { errno = enomem })

  -- At nullptr or a live block, reallocarray is realloc of the product where that fits a size_t; where it
  -- does not, the result is null, errno is ENOMEM, and nothing else changes.
  common_reallocarray-ResizedArray :
      (apple : Bool) (p : Ptr) (nmemb size : ℕ) (m : Machine H)
      → WellFormed live m
      → IsBlock live p m
      → Yields (ResizedArray apple p nmemb size m) (common_reallocarray X apple p nmemb size m)
  unfolding common_reallocarray
  common_reallocarray-ResizedArray apple p nmemb size m w b =
      let large = product_exceeds_iff nmemb size in
      elim (Bool-cases (product_exceeds nmemb size)) [
        | inl over ↦ rw over (yields (inr (large.0 over, refl, refl)))
        | inr fits ↦
            let small : nmemb * size < size_mod = ground (arith, large) in
            rw (fits, mod-eq_of_lt small)
              (weaken (common_realloc-Resized apple p (nmemb * size) m small w b)
                λ q m' got. inl (small, got))
      ]

  -- calloc gives null and does nothing where the product needs more than a size_t, and else fails, or gives
  -- a new block of the product whose bytes are zero.
  pub common_calloc-ZeroedProduct :
      (count size : ℕ) (m : Machine H)
      → WellFormed live m
      → Yields (ZeroedProduct live count size m) (common_calloc X count size m)
  unfolding common_calloc
  common_calloc-ZeroedProduct count size m w = elim (Bool-cases (product_overflows count size)) [
    | inl over ↦
        let large = (product_overflows_iff count size).0 over in
        rw over (yields (inr (large, refl, refl)))
    | inr fits ↦
        let small : count * size < size_mod = lt_of_product_overflows count size fits in
        rw (fits, mod-eq_of_lt small)
          (weaken
            (zero_fill-Zeroed live X.xxmalloc (count * size) m
              (is.xxmalloc-Allocated (count * size) m small w))
            λ p m' z. inl (small, z))
  ]

  -- posix_memalign gives EINVAL and does nothing unless the alignment is a power of two from 8 up; else it
  -- gives ENOMEM and no block, or 0 and a new block of the size at a multiple of the alignment, or 0 and a
  -- null pointer for no bytes.
  pub common_posix_memalign-PosixAligned :
      (al sz : ℕ) (m : Machine H)
      → al < size_mod
      → sz < size_mod
      → WellFormed live m
      → Yields (PosixAligned live false al sz m) (common_posix_memalign X al sz m)
  unfolding common_posix_memalign
  common_posix_memalign-PosixAligned al sz m small small' w =
      posix_steps-PosixAligned live X.xxmemalign is.xxmemalign-AllocatedAt false al sz m small
        small' w

  -- At a string of `n` characters in a live block, strdup fails or gives a new block that begins with
  -- the characters and the zero behind them.
  pub common_strdup-Duplicated :
      (s : Ptr) (n : ℕ) (m : Machine H)
      → WellFormed live m
      → s ≢ null
      → IsString m.mem s n
      → InBlock live m s (n + 1)
      → Yields (Duplicated live s (n + 1) m) (common_strdup X s m)
  unfolding common_strdup
  common_strdup-Duplicated s n m w ne str at =
      let small : n + 1 < size_mod = omega (arith, str.fits) in
      rw (ne→== s null ne, strlen-IsString s n m str, mod-eq_of_lt small)
        (copy_steps-Duplicated live X.xxmalloc s (n + 1) m (is.xxmalloc-Allocated (n + 1) m small w)
          at)
