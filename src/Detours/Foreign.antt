-- ===== src/Detours/Foreign.antt =====
-- How the Windows functions treat a "foreign" pointer, one that another allocator gave out before the
-- detours were installed, and the pointers of the allocator itself.
use alloc.Base.{
  ℕ, ◌<◌, ◌≡◌, refl, ◌≢◌, inl, inr, Bool, true, false, ap, ◌⊎◌, Option, some, arith, ◌==◌, size_mod,
  lt→ltb, eq→==, ne→==, Bool-cases,
}
use alloc.Machine.{Ptr, null, Machine, ok}
use alloc.Machine.Yields.{Yields, weaken}
use alloc.Heap.Contract.{WellFormed, Freed}
use alloc.Heap.Resizing.{Resized, allocated, AfterFree, resize-Resized}
use alloc.Xx.{Xx, IsXxUpTo}
use alloc.Detours.{detour_free, detour_realloc, safe_get_alloc_size, is_our_pointer, detour_msize}

module _ {H : Type 0} {limit : ℕ} (live : H → Ptr → Option ℕ) (X : Xx H)
    (is : IsXxUpTo live limit X) (ours : H → Ptr → Bool)
    (ours-live : (h : H) (p : Ptr) (n : ℕ) → live h p ≡ some n → ours h p ≡ true) where
  safe_size-foreign :
      (p : Ptr) (m : Machine H) → ours m.heap p ≡ false → safe_get_alloc_size X ours p m ≡ ok 0 m
  unfolding safe_get_alloc_size
  safe_size-foreign p m foreign = elim (Bool-cases (p == null)) [
    | inl z ↦ rw z refl
    | inr z ↦ rw (z, foreign) refl
  ]

  pub safe_size-live :
      (p : Ptr) (n : ℕ) (m : Machine H)
      → WellFormed live m
      → live m.heap p ≡ some n
      → safe_get_alloc_size X ours p m ≡ ok n m
  unfolding safe_get_alloc_size
  safe_size-live p n m w own =
      rw (ne→== p null (λ e. ground (arith, w.null_free)), ours-live m.heap p n own)
        (is.usable_size-live p n m w own)

  is_ours-live :
      (init_complete : Bool) (p : Ptr) (n : ℕ) (m : Machine H)
      → WellFormed live m
      → live m.heap p ≡ some n
      → 0 < n
      → is_our_pointer X ours init_complete p m ≡ ok true m
  unfolding is_our_pointer
  is_ours-live true p n m w own pos = refl
  is_ours-live false p n m w own pos =
      rw (safe_size-live p n m w own) (ap (λ (b : Bool). ok b m) (lt→ltb 0 n pos))

  -- During the start, free and _msize of a foreign pointer do nothing and say 0.
  pub foreign-ignored :
      (p : Ptr) (m : Machine H)
      → ours m.heap p ≡ false
      → (detour_free X ours false p m ≡ ok tt m) × (detour_msize X ours p m ≡ ok 0 m)
  unfolding detour_free detour_msize is_our_pointer
  foreign-ignored p m foreign = (free_foreign, safe_size-foreign p m foreign)
    where
      free_foreign : detour_free X ours false p m ≡ ok tt m
      free_foreign = elim (Bool-cases (p == null)) [
        | inl z ↦ rw z refl
        | inr z ↦ rw (z, safe_size-foreign p m foreign) refl
      ]

  -- At a live block of at least one byte free releases it, during the start and after it.
  pub detour_free-Freed :
      (init_complete : Bool) (p : Ptr) (n : ℕ) (m : Machine H)
      → WellFormed live m
      → live m.heap p ≡ some n
      → 0 < n
      → Yields (Freed live p m) (detour_free X ours init_complete p m)
  unfolding detour_free
  detour_free-Freed init_complete p n m w own pos =
      rw
        (
          ne→== p null (λ e. ground (arith, w.null_free)),
          is_ours-live init_complete p n m w own pos,
        )
        (is.xxfree-Freed p n m w own)

  -- At nullptr realloc allocates. At a live block of at least one byte, during the start and after it, the
  -- size 0 frees it and gives what malloc(1) gives; another size gives a block with the same bytes as far
  -- as they fit, and the old one, if it is another, is gone; or null, with the block as it was.
  pub detour_realloc-Resized :
      (init_complete : Bool) (p : Ptr) (sz : ℕ) (m : Machine H)
      → sz < size_mod
      → WellFormed live m
      → (p ≡ null) ⊎ ((n : ℕ) × (live m.heap p ≡ some n) × (0 < n))
      → Yields (Resized live true p sz m) (detour_realloc X ours init_complete p sz m)
  unfolding detour_realloc AfterFree
  detour_realloc-Resized init_complete p sz m small w (inl e) =
      rw (eq→== p null e) (weaken (is.xxmalloc-Allocated sz m small w) λ q m' got. allocated e got)
  detour_realloc-Resized init_complete p sz m small w (inr (old, own, pos)) =
      let ne : p ≢ null = λ e. ground (arith, w.null_free) in
      let steps =
        resize-Resized live X is (λ q. q) (λ q e. e) true (X.xxmalloc 1)
          (λ m1 w1. is.xxmalloc-Allocated 1 m1 (omega arith) w1) p sz m small w (inr (old, own)) in
      elim (Bool-cases (sz == 0)) [
        | inl z ↦
            rw (ne→== p null ne, z, is_ours-live init_complete p old m w own pos)
              (rw (ne→== p null ne, z) at steps)
        | inr nz ↦
            rw (ne→== p null ne, nz, safe_size-live p old m w own, ne→== old 0 (omega arith))
              (rw (ne→== p null ne, nz, is.usable_size-live p old m w own) at steps)
      ]
