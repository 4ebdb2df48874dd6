-- ===== src/Programs/Reallocations.antt =====
-- The statement that calls realloc.
use alloc.Base.{
  ℕ, ◌<◌, ◌≡◌, refl, ◌≢◌, ◌⊎◌, inl, inr, Bool, true, false, ◌&&◌, not, Option, some, some-injective,
  arith, ◌==◌, ◌∙◌, sym, ap, eq→==, ne→==, ==→eq, ==→ne, Bool-cases,
}
use alloc.Machine.{Ptr, null, Machine}
use alloc.Machine.Yields.{Yields, yields, sequence}
use alloc.Heap.Contract.{IsBlock, Failed, Freed}
use alloc.Heap.Resizing.{Resized, allocated, replaced, resized, AfterFree}
use alloc.Heap.Filling.{Fresh-of_le}
use alloc.Programs.{Variables, Libc, IsLibc, exec, put, reallocs}
use alloc.Programs.Arrays.{Step, Resizes, as_malloc, emptied, refused, moved}
use alloc.Programs.Owners.{
  Owned, Replaced, Owned-put, Others-put, put-OfSize, put-empty, put-bytes, arrays,
}
use alloc.Programs.Replacing.{
  Replaced-Freed, Replaced-nothing, Replaced-Failed, Replaced-Fresh, Replaced-Moved, Replaced-trans,
  Owned-Failed, SameArray-Failed, put-Allocated,
}
use alloc.Programs.Allocations.{Steps}

module _ {H : Type 0} (live : H → Ptr → Option ℕ) (one : Bool) (c : Variables) (m : Machine H)
    (o : Owned live c m) (i n : ℕ) (q : Ptr) (m' : Machine H)
    (got : Resized live one (c.pointer i) n m q m') where
  -- A null result for a size that is not zero is a failure.
  Failed-of_null : q ≡ null → n ≢ 0 → Failed live m q m'
  Failed-of_null z nz = go got
    where
      go : Resized live one (c.pointer i) n m q m' → Failed live m q m'
      go (allocated _ (inl f)) = f
      go (allocated _ (inr new)) = absurd (new.nonnull z)
      go (replaced _ _ zero_size _ _) = absurd (nz zero_size)
      go (resized _ _ _ (inl f)) = f
      go (resized _ _ _ (inr mv)) = absurd (mv.nonnull z)

  -- Then the variable keeps what it had.
  refused_Resizes : q ≡ null → n ≢ 0 → Resizes n (arrays c m i) (arrays c m' i)
  refused_Resizes z nz = elim (Bool-cases (c.pointer i == null)) [
    | inl e ↦ as_malloc (rw e refl) (inl (rw e refl, o.empty i (==→eq (c.pointer i) null e)))
    | inr e ↦ refused (rw e refl) nz (SameArray-Failed live c q m m' o (Failed-of_null z nz) i)
  ]

  Freed-Replaced :
      (b : Bool) (m1 : Machine H)
      → Freed live (c.pointer i) m tt m1
      → AfterFree live b m1 q m'
      → Replaced live (c.pointer i) q 0 m m'
  unfolding AfterFree
  Freed-Replaced b m1 fr after =
      Replaced-trans live (c.pointer i) q 0 0 m m1 m' o.valid
        (Replaced-Freed live (c.pointer i) m m1 fr) (go b after)
    where
      go : (b : Bool) → AfterFree live b m1 q m' → Replaced live null q 0 m1 m'
      go true (inl f) = Replaced-Failed live q 0 m1 m' f
      go true (inr new) =
          Replaced-Fresh live q 0 m1 m' (Fresh-of_le live 0 1 m1 m' q (omega arith) new)
      go false (z, same) = rw (z, same) (Replaced-nothing live m1 fr.valid)

  given_Replaced : (q ≢ null) ⊎ (n ≡ 0) → Replaced live (c.pointer i) q n m m'
  given_Replaced given = go got
    where
      go : Resized live one (c.pointer i) n m q m' → Replaced live (c.pointer i) q n m m'
      go (allocated z (inl f)) = rw z (Replaced-Failed live q n m m' f)
      go (allocated z (inr new)) = rw z (Replaced-Fresh live q n m m' new)
      go (replaced m1 _ zero_size fr after) = rw zero_size (Freed-Replaced one m1 fr after)
      go (resized _ _ nz (inl f)) = absurd (elim given [ inl ne ↦ ne f.is_null | inr e ↦ nz e ])
      go (resized old own _ (inr mv)) = Replaced-Moved live (c.pointer i) q old n m m' mv

  has_block : (old : ℕ) → live m.heap (c.pointer i) ≡ some old → c.pointer i ≢ null
  has_block old own z = cc (own, o.valid.null_free, ap (live m.heap) z)

  within : (old : ℕ) → live m.heap (c.pointer i) ≡ some old → (j : ℕ) → j < c.size i → j < old
  within old own j lt =
      let (b, own', le) = o.block i (has_block old own) in
      omega (arith, le, some-injective (sym own' ∙ own))

  given_Resizes : (q ≢ null) ⊎ (n ≡ 0) → Resizes n (arrays c m i) (arrays (put i q n c) m' i)
  given_Resizes given = go got
    where
      go :
          Resized live one (c.pointer i) n m q m'
          → Resizes n (arrays c m i) (arrays (put i q n c) m' i)
      go (allocated z a) =
          as_malloc (rw (eq→== (c.pointer i) null z) refl) (put-Allocated live c i n m m' q a)
      go (replaced m1 nn zero_size fr after) =
          emptied (rw (ne→== (c.pointer i) null nn) refl) zero_size (put-empty c m' i q n zero_size)
      go (resized _ _ nz (inl f)) = absurd (elim given [ inl ne ↦ ne f.is_null | inr e ↦ nz e ])
      go (resized old own nz (inr mv)) =
          moved (rw (ne→== (c.pointer i) null (has_block old own)) refl) nz
            (put-OfSize c m' i q n mv.nonnull)
            λ j lt lt'. put-bytes c m' i q n j ∙ mv.copied_bytes j (within old own j lt) lt'

module _ {H : Type 0} (live : H → Ptr → Option ℕ) (limit : ℕ) (one : Bool) (C : Libc H)
    (is : IsLibc live limit one C) (c : Variables) (m : Machine H) (o : Owned live c m) (i n : ℕ)
    (small : n < limit) where
  IsBlock-pointer : IsBlock live (c.pointer i) m
  IsBlock-pointer = elim (Bool-cases (c.pointer i == null)) [
    | inl z ↦ inl (==→eq (c.pointer i) null z)
    | inr z ↦ let (b, own, _) = o.block i (==→ne (c.pointer i) null z) in inr (b, own)
  ]

  null_test : (q : Ptr) → ((q == null) && not (n == 0)) ≡ true → q ≡ null
  null_test q e = ground arith

  nonzero_test : (q : Ptr) → ((q == null) && not (n == 0)) ≡ true → n ≢ 0
  nonzero_test q e z = ground arith

  given_test : (q : Ptr) → ((q == null) && not (n == 0)) ≡ false → (q ≢ null) ⊎ (n ≡ 0)
  given_test q e = ground arith

  pub reallocs-Step :
      Yields (Steps live limit one C is c m o i (reallocs i n)) (exec C (reallocs i n) c m)
  unfolding exec Step
  reallocs-Step =
      sequence (is.realloc-Resized (c.pointer i) n m small o.valid IsBlock-pointer) λ q m' got.
        elim (Bool-cases ((q == null) && not (n == 0))) [
          | inl e ↦
              let z = null_test q e in
              let nz = nonzero_test q e in
              let f = Failed-of_null live one c m o i n q m' got z nz in
              rw e (
                yields (
                  Owned-Failed live c q m m' o f,
                  (
                    refl,
                    λ k _. SameArray-Failed live c q m m' o f k,
                    refused_Resizes live one c m o i n q m' got z nz,
                  ),
                ))
          | inr e ↦
              let given = given_test q e in
              let r = given_Replaced live one c m o i n q m' got given in
              rw e (
                yields (
                  Owned-put live c m m' i q n o r,
                  (
                    refl,
                    Others-put live c m m' i q n o r,
                    given_Resizes live one c m o i n q m' got given,
                  ),
                ))
        ]
