-- ===== src/Mac/Allocation.antt =====
-- The contracts that the functions of src/platform/macos/mac_wrapper.cpp keep over the xxmalloc interface.
use alloc.Base.{
  ℕ, ◌+◌, ◌/◌, ◌<◌, ◌≡◌, ◌∙◌, ◌≢◌, inl, inr, true, false, ◌&&◌, Option, some, arith, ◌==◌, size_mod,
  eq→==, ne→==, ==→eq, ==→ne, Bool-cases, ltb, leb, gnu_rejects-eq-common_rejects, ◌⊎◌,
}
use native.Mathlib.Nat.{mod-eq_of_lt}
use alloc.Machine.{Ptr, null, Machine}
use alloc.Machine.Yields.{Yields, yields, weaken, sequence}
use alloc.Heap.Contract.{WellFormed, IsBlock, Allocated, Failed, Freed, Moved, PosixAligned}
use alloc.Heap.Moving.{in_place-Moved, move_copied}
use alloc.Heap.Resizing.{Resized, AfterFree, resize-Resized, fits_of, le_of_leb}
use alloc.Heap.Aligning.{posix_steps-PosixAligned}
use alloc.Heap.Strings.{IsString, InBlock, Duplicated, copy_steps-Duplicated, strlen-IsString}
use alloc.Xx.{Xx, IsXxUpTo}
use alloc.Mac.{replace_realloc, replace_reallocf, replace_posix_memalign, replace_strdup}

module _ {H : Type 0} {limit : ℕ} (live : H → Ptr → Option ℕ) (X : Xx H)
    (is : IsXxUpTo live limit X) where
  -- At nullptr realloc allocates. At a live block, the size 0 frees it and gives what malloc(1) gives;
  -- another size gives a block with the same bytes as far as they fit, and the old one, if it is
  -- another, is gone; or null, with the block as it was.
  pub replace_realloc-Resized :
      (p : Ptr) (sz : ℕ) (m : Machine H)
      → sz < size_mod
      → WellFormed live m
      → IsBlock live p m
      → Yields (Resized live true p sz m) (replace_realloc X p sz m)
  unfolding replace_realloc AfterFree
  replace_realloc-Resized p sz m small w b =
      resize-Resized live X is (λ q. q) (λ q e. e) true (X.xxmalloc 1)
        (λ m1 w1. is.xxmalloc-Allocated 1 m1 (omega arith) w1) p sz m small w b

  -- What reallocf gives at a live block and a size that is not 0: the block moved, or null, with the
  -- block gone.
  abbrev pub MovedOrFreed : Ptr → ℕ → ℕ → Machine H → Ptr → Machine H → Type 0
  MovedOrFreed p old sz m q m' = Moved live p old sz m q m' ⊎ (q ≡ null) × Freed live p m tt m'

  -- What reallocf gives, at each kind of argument.
  pub data ReallocatedOrFreed (p : Ptr) (sz : ℕ) (m : Machine H) (q : Ptr) (m' : Machine H)
      : Type 0 where
    allocated : p ≡ null → Allocated live sz m q m' → ReallocatedOrFreed p sz m q m'
    replaced :
        (m1 : Machine H)
        → p ≢ null
        → sz ≡ 0
        → Freed live p m tt m1
        → Allocated live 1 m1 q m'
        → ReallocatedOrFreed p sz m q m'
    resized :
        (old : ℕ)
        → live m.heap p ≡ some old
        → sz ≢ 0
        → MovedOrFreed p old sz m q m'
        → ReallocatedOrFreed p sz m q m'

  -- A failed allocation and then a free, as one step.
  Freed-after_fail :
      (p q : Ptr) (m m1 m2 : Machine H)
      → Failed live m q m1
      → Freed live p m1 tt m2
      → Freed live p m tt m2
  Freed-after_fail p q m m1 m2 f fr = record {
    gone = fr.gone;
    others = λ r ne. fr.others r ne ∙ f.same r;
    kept = λ r n a ne own lo hi. fr.kept r n a ne (f.same r ∙ own) lo hi ∙ f.kept r n a own lo hi;
    valid = fr.valid;
  }

  -- At nullptr reallocf allocates. At a live block, the size 0 frees it and gives what malloc(1) gives;
  -- another size gives a block with the same bytes as far as they fit, and the old one, if it is another,
  -- is gone; or null, and the block is gone too.
  pub replace_reallocf-ReallocatedOrFreed :
      (p : Ptr) (sz : ℕ) (m : Machine H)
      → sz < size_mod
      → WellFormed live m
      → IsBlock live p m
      → Yields (ReallocatedOrFreed p sz m) (replace_reallocf X p sz m)
  unfolding replace_reallocf
  replace_reallocf-ReallocatedOrFreed p sz m small w (inl e) =
      rw (eq→== p null e) (weaken (is.xxmalloc-Allocated sz m small w) λ q m' got. allocated e got)
  replace_reallocf-ReallocatedOrFreed p sz m small w (inr (old, own)) =
      let ne : p ≢ null = λ e. ground (arith, w.null_free) in
      rw (ne→== p null ne) (elim (Bool-cases (sz == 0)) [
        | inl z ↦ rw z (
            sequence (is.xxfree-Freed p old m w own) λ _ m1 fr.
              weaken (is.xxmalloc-Allocated 1 m1 (omega arith) fr.valid)
                λ q m' got. replaced m1 ne (==→eq sz 0 z) fr got)
        | inr nz ↦
            rw (nz, is.usable_size-live p old m w own)
              (elim (Bool-cases (ltb (old / 2) sz && leb sz old)) [
                | inl stays ↦ rw stays (
                    yields (
                      resized old own (==→ne sz 0 nz) (
                        inl (
                          in_place-Moved live p old sz m w own (
                            le_of_leb live sz old
                              (fits_of live (ltb (old / 2) sz) (leb sz old) stays))))))
                | inr moves ↦ rw moves (
                    sequence (is.xxmalloc-Allocated sz m small w) λ q m1 got. elim got [
                      | inl f ↦ rw (eq→== q null f.is_null) (
                          sequence (is.xxfree-Freed p old m1 f.valid (f.same p ∙ own)) λ _ m2 fr.
                            yields (
                              resized old own (==→ne sz 0 nz)
                                (inr (f.is_null, Freed-after_fail p q m m1 m2 f fr))))
                      | inr new ↦ rw (ne→== q null new.nonnull) (
                          weaken
                            (move_copied live X.xxmalloc X.xxfree (λ r. r) (λ r e. e)
                              is.xxmalloc-Allocated is.xxfree-Freed p old sz _ m m1 q own
                              (ground arith) (ground arith) (ground arith) new)
                            λ r m' moved. resized old own (==→ne sz 0 nz) (inl moved))
                    ])
              ])
      ])

  -- posix_memalign gives EINVAL and does nothing unless the alignment is a power of two from 8 up; else it
  -- gives ENOMEM and no block, or 0 and a new block of the size at a multiple of the alignment, or 0 and a
  -- null pointer for no bytes.
  pub replace_posix_memalign-PosixAligned :
      (al sz : ℕ) (m : Machine H)
      → al < size_mod
      → sz < size_mod
      → WellFormed live m
      → Yields (PosixAligned live false al sz m) (replace_posix_memalign X al sz m)
  unfolding replace_posix_memalign
  replace_posix_memalign-PosixAligned al sz m small small' w =
      rw (gnu_rejects-eq-common_rejects al small) (
        posix_steps-PosixAligned live X.xxmemalign is.xxmemalign-AllocatedAt false al sz m small
          small' w)

  -- At a string of `n` characters in a live block, strdup fails or gives a new block that begins with
  -- the characters and the zero behind them.
  pub replace_strdup-Duplicated :
      (s : Ptr) (n : ℕ) (m : Machine H)
      → WellFormed live m
      → s ≢ null
      → IsString m.mem s n
      → InBlock live m s (n + 1)
      → Yields (Duplicated live s (n + 1) m) (replace_strdup X s m)
  unfolding replace_strdup
  replace_strdup-Duplicated s n m w ne str at =
      let small : n + 1 < size_mod = omega (arith, str.fits) in
      rw (ne→== s null ne, strlen-IsString s n m str, mod-eq_of_lt small)
        (copy_steps-Duplicated live X.xxmalloc s (n + 1) m (is.xxmalloc-Allocated (n + 1) m small w)
          at)
