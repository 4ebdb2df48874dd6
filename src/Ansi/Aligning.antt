-- ===== src/Ansi/Aligning.antt =====
-- The contracts of calloc, memalign and posix_memalign of ANSIWrapper, over a heap that meets its own. `k`
-- is the binary logarithm of the template argument MinAlignment.
use alloc.Base.{
  ℕ, ◌*◌, ◌^◌, ◌<◌, refl, inl, inr, Option, arith, ltb, size_mod, Bool-cases, IsPow2,
  is_pow2_or_zero-pow2, is_pow2_or_zero-IsPow2, false, pow2_bounds, mod_pow2_of_le, product_exceeds,
  product_exceeds_iff,
}
use native.Mathlib.Nat.{mod-eq_of_lt}
use alloc.Machine.{Ptr, Machine}
use alloc.Machine.Yields.{Yields, yields, weaken}
use alloc.Heap.{Allocator}
use alloc.Heap.Contract.{WellFormed, AllocatedAt, ZeroedProduct, PosixAligned, IsAllocator}
use alloc.Heap.Aligning.{posix_steps-PosixAligned}
use alloc.Heap.Filling.{zero_fill-Zeroed}
use alloc.Ansi.{ansi_malloc, ansi_calloc, ansi_memalign, ansi_posix_memalign}
use alloc.Ansi.Allocation.{ansi_malloc-Allocated}

module _ {H : Type 0} (live : H → Ptr → Option ℕ) (A : Allocator H) (is : IsAllocator live A)
    (k : ℕ) (k_fits : k < 63) where
  -- calloc gives null and does nothing where the product needs more than a size_t, and else fails, or gives
  -- a new block of the product whose bytes are zero.
  pub ansi_calloc-ZeroedProduct :
      (count size : ℕ) (m : Machine H)
      → WellFormed live m
      → Yields (ZeroedProduct live count size m) (ansi_calloc A (2 ^ k) count size m)
  unfolding ansi_calloc
  ansi_calloc-ZeroedProduct count size m w = elim (Bool-cases (product_exceeds count size)) [
    | inl over ↦
        let large = (product_exceeds_iff count size).0 over in
        rw over (yields (inr (large, refl, refl)))
    | inr fits ↦
        let small : count * size < size_mod = ground (arith, product_exceeds_iff count size) in
        rw (fits, mod-eq_of_lt small)
          (weaken
            (zero_fill-Zeroed live (ansi_malloc A (2 ^ k)) (count * size) m
              (ansi_malloc-Allocated live A is k k_fits (count * size) m small w))
            λ p m' z. inl (small, z))
  ]

  -- memalign keeps its contract: an alignment below MinAlignment is raised to it, which it divides.
  pub ansi_memalign-AllocatedAt :
      (al sz : ℕ) (m : Machine H)
      → IsPow2 al
      → al < size_mod
      → sz < size_mod
      → WellFormed live m
      → Yields (AllocatedAt live al sz m) (ansi_memalign A (2 ^ k) al sz m)
  unfolding ansi_memalign
  ansi_memalign-AllocatedAt al sz m pow small small' w = elim (Bool-cases (ltb (2 ^ k) al)) [
    | inl more ↦
        rw (more, is_pow2_or_zero-IsPow2 al pow small)
          (is.memalign-AllocatedAt al sz m pow small small' w)
    | inr less ↦
        rw (less, is_pow2_or_zero-pow2 k (omega arith))
          (weaken
            (is.memalign-AllocatedAt (2 ^ k) sz m (k, refl)
              (omega (arith, pow2_bounds k (omega arith))) small' w)
            λ p m' got. elim got [
              | inl f ↦ inl f
              | inr (new, al0) ↦
                  inr (new, mod_pow2_of_le p al (2 ^ k) pow (k, refl) (ground arith) al0)
            ])
  ]

  -- posix_memalign gives EINVAL and does nothing unless the alignment is a power of two from 8 up; else it
  -- gives ENOMEM and no block, or 0 and a new block of the size at a multiple of the alignment, or 0 and a
  -- null pointer for no bytes.
  pub ansi_posix_memalign-PosixAligned :
      (al sz : ℕ) (m : Machine H)
      → al < size_mod
      → sz < size_mod
      → WellFormed live m
      → Yields (PosixAligned live false al sz m) (ansi_posix_memalign A (2 ^ k) al sz m)
  unfolding ansi_posix_memalign
  ansi_posix_memalign-PosixAligned al sz m small small' w =
      posix_steps-PosixAligned live (ansi_memalign A (2 ^ k)) ansi_memalign-AllocatedAt false al sz
        m small small' w
