-- ===== src/Heap/Aligning.antt =====
-- The steps that every posix_memalign and aligned_alloc shares.
use alloc.Base.{
  ℕ, ◌≤◌, ◌<◌, refl, ap, inl, inr, Bool, true, false, ◌&&◌, not, Option, ◌==◌, if◌then◌else◌,
  size_mod, IsPow2, eq→==, ne→==, ==→eq, Bool-cases, common_rejects, IsPow2-of_common_rejects,
  common_rejects_of_pow2,
}
use alloc.Machine.{Ptr, null, Machine, M, pure, ◌>>=◌}
use alloc.Machine.Yields.{Yields, yields, sequence}
use alloc.Heap.Contract.{
  WellFormed, AllocatedAt, PosixAligned, invalid, exhausted, aligned, nothing, Failed-null,
}
use alloc.Errno.{einval, enomem}

-- Whether a result counts as out of memory.
abbrev pub reports : (strict : Bool) → ℕ → Ptr → Bool
reports true sz ptr = ptr == null
reports false sz ptr = (ptr == null) && not (sz == 0)

abbrev pub posix_steps :
    {H : Type 0} → (ℕ → ℕ → M H Ptr) → (strict rejects : Bool) → ℕ → ℕ → M H (ℕ × Ptr)
posix_steps memalign strict rejects al sz = if rejects then pure (einval, null) else do
  ptr ← memalign al sz
  if reports strict sz ptr then pure (enomem, null) else pure (0, ptr)

module _ {H : Type 0} (live : H → Ptr → Option ℕ) (memalign : ℕ → ℕ → M H Ptr)
    (memalign-AllocatedAt : (al sz : ℕ) (m : Machine H)
      → IsPow2 al
      → al < size_mod
      → sz < size_mod
      → WellFormed live m
      → Yields (AllocatedAt live al sz m) (memalign al sz m)) where
  finish :
      (strict : Bool) (al sz : ℕ) (m m' : Machine H) (ptr : Ptr)
      → IsPow2 al × (8 ≤ al)
      → AllocatedAt live al sz m ptr m'
      → Yields
          (PosixAligned live strict al sz m)
          ((if reports strict sz ptr then pure (enomem, null) else pure (0, ptr)) m')
  finish true al sz m m' ptr ok (inl f) =
      rw (eq→== ptr null f.is_null) (yields (exhausted ok refl (Failed-null live f)))
  finish true al sz m m' ptr ok (inr (new, al0)) =
      rw (ne→== ptr null new.nonnull) (yields (aligned ok refl new al0))
  finish false al sz m m' ptr ok (inr (new, al0)) =
      rw (ne→== ptr null new.nonnull) (yields (aligned ok refl new al0))
  finish false al sz m m' ptr ok (inl f) = elim (Bool-cases (sz == 0)) [
    | inl zero_size ↦
        rw (eq→== ptr null f.is_null, zero_size)
          (yields (
            nothing refl (==→eq sz 0 zero_size) ok (ap (λ (t : ℕ). (0, t)) f.is_null)
              (Failed-null live f)))
    | inr sized ↦
        rw (eq→== ptr null f.is_null, sized) (yields (exhausted ok refl (Failed-null live f)))
  ]

  pub posix_steps-PosixAligned :
      (strict : Bool) (al sz : ℕ) (m : Machine H)
      → al < size_mod
      → sz < size_mod
      → WellFormed live m
      → Yields
          (PosixAligned live strict al sz m)
          (posix_steps memalign strict (common_rejects al) al sz m)
  posix_steps-PosixAligned strict al sz m small small' w = elim (Bool-cases (common_rejects al)) [
    | inl bad ↦
        rw bad
          (yields (invalid (λ ok. cc (bad, common_rejects_of_pow2 al small ok.0 ok.1)) refl refl))
    | inr good ↦
        let ok = IsPow2-of_common_rejects al small good in
        rw good (
          sequence (memalign-AllocatedAt al sz m ok.0 small small' w)
            λ ptr m' got. finish strict al sz m m' ptr ok got)
  ]
