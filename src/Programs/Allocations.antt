-- ===== src/Programs/Allocations.antt =====
-- The statements that call malloc, calloc, realloc and free.
use alloc.Base.{
  ℕ, ◌*◌, ◌<◌, ◌≡◌, refl, ◌⊎◌, inl, inr, Bool, Option, some, List, ◌==◌, ◌∙◌, ==→eq, ==→ne,
  Bool-cases, size_mod,
}
use alloc.Machine.{Ptr, null, Machine}
use alloc.Machine.Yields.{Yields, yields, sequence, weaken}
use alloc.Heap.Contract.{WellFormed, Allocated, ZeroedProduct}
use alloc.Programs.{Variables, Libc, IsLibc, put, Command, exec, mallocs, callocs, frees}
use alloc.Programs.Arrays.{Step, Absent, OfSize}
use alloc.Programs.Owners.{
  Owned, Replaced, Owned-put, Others-put, put-Absent, put-OfSize, put-bytes, arrays,
}
use alloc.Programs.Replacing.{
  Replaced-Freed, Replaced-nothing, Replaced-Failed, Replaced-Fresh, Replaced-trans, put-Allocated,
}

module _ {H : Type 0} (live : H → Ptr → Option ℕ) (limit : ℕ) (one : Bool) (C : Libc H)
    (is : IsLibc live limit one C) (c : Variables) (m : Machine H) (o : Owned live c m)
    (i : ℕ) where
  abbrev pub Steps : Command → Variables × List ℕ → Machine H → Type 0
  Steps x r m' = Owned live r.0 m' × Step x (arrays c m) r.1 (arrays r.0 m')

  frees-Replaced : Yields (λ _ m1. Replaced live (c.pointer i) null 0 m m1) (C.free (c.pointer i) m)
  frees-Replaced = elim (Bool-cases (c.pointer i == null)) [
    | inl z ↦
        let at = ==→eq (c.pointer i) null z in
        rw (at, is.free-null m) (yields (Replaced-nothing live m o.valid))
    | inr z ↦
        let (b, own, le) = o.block i (==→ne (c.pointer i) null z) in
        weaken (is.free-Freed (c.pointer i) b m o.valid own)
          λ _ m1 fr. Replaced-Freed live (c.pointer i) m m1 fr
  ]

  pub frees-Step : Yields (Steps (frees i)) (exec C (frees i) c m)
  unfolding exec Step
  frees-Step = sequence frees-Replaced λ _ m1 r. yields (
    Owned-put live c m m1 i null 0 o r,
    (refl, Others-put live c m m1 i null 0 o r, put-Absent c m1 i null 0 refl),
  )

  -- After the free, an allocation of `n` bytes.
  then_Replaced :
      (n : ℕ) (m1 m' : Machine H) (q : Ptr)
      → Replaced live (c.pointer i) null 0 m m1
      → Allocated live n m1 q m'
      → Replaced live (c.pointer i) q n m m'
  then_Replaced n m1 m' q r (inl f) =
      Replaced-trans live (c.pointer i) q 0 n m m1 m' o.valid r (Replaced-Failed live q n m1 m' f)
  then_Replaced n m1 m' q r (inr new) =
      Replaced-trans live (c.pointer i) q 0 n m m1 m' o.valid r (Replaced-Fresh live q n m1 m' new)

  pub mallocs-Step :
      (n : ℕ) → n < size_mod → Yields (Steps (mallocs i n)) (exec C (mallocs i n) c m)
  unfolding exec Step
  mallocs-Step n small = sequence frees-Replaced λ _ m1 r.
      sequence (is.malloc-Allocated n m1 small r.valid) λ q m' got.
        let s = then_Replaced n m1 m' q r got in
        yields (
          Owned-put live c m m' i q n o s,
          (refl, Others-put live c m m' i q n o s, put-Allocated live c i n m1 m' q got),
        )

  put-Zeroed :
      (n size : ℕ) (m1 m' : Machine H) (q : Ptr)
      → WellFormed live m1
      → ZeroedProduct live n size m1 q m'
      → Allocated live (n * size) m1 q m'
        × (Absent (arrays (put i q (n * size) c) m' i)
            ⊎ (n * size < size_mod)
              × OfSize (n * size) (arrays (put i q (n * size) c) m' i)
              × ((j : ℕ) → j < n * size → (arrays (put i q (n * size) c) m' i).bytes j ≡ some 0))
  put-Zeroed n size m1 m' q w (inl (small, inl f)) =
      (inl f, inl (put-Absent c m' i q (n * size) f.is_null))
  put-Zeroed n size m1 m' q w (inl (small, inr (new, zeros))) = (
    inr new,
    inr (
      small,
      put-OfSize c m' i q (n * size) new.nonnull,
      λ j lt. put-bytes c m' i q (n * size) j ∙ zeros j lt,
    ),
  )
  put-Zeroed n size m1 m' q w (inr (large, z, same)) = (
    inl (rw same (record { is_null = z; same = λ _. refl; kept = λ _ _ _ _ _ _. refl; valid = w })),
    inl (put-Absent c m' i q (n * size) z),
  )

  pub callocs-Step :
      (n size : ℕ) → Yields (Steps (callocs i n size)) (exec C (callocs i n size) c m)
  unfolding exec Step
  callocs-Step n size = sequence frees-Replaced λ _ m1 r.
      sequence (is.calloc-ZeroedProduct n size m1 r.valid) λ q m' got.
        let (alloc, at) = put-Zeroed n size m1 m' q r.valid got in
        let s = then_Replaced (n * size) m1 m' q r alloc in
        yields (
          Owned-put live c m m' i q (n * size) o s,
          (refl, Others-put live c m m' i q (n * size) o s, at),
        )
