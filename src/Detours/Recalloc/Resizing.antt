-- ===== src/Detours/Recalloc/Resizing.antt =====
-- Detour_recalloc against Detour_realloc: what it gives at nullptr and at a live block.
use alloc.Base.{
  ℕ, ◌+◌, ◌-◌, ◌*◌, ◌≤◌, ◌<◌, ◌≡◌, ◌≢◌, ◌⊎◌, inl, inr, Bool, true, Option, some, arith, ltb, ap,
  ◌∙◌, size_mod, eq→==, ne→==, Bool-cases,
}
use native.Mathlib.Nat.{mod-eq_of_lt}
use alloc.Machine.{Ptr, null, Machine, Memory}
use alloc.Machine.Memory.{memset-ok}
use alloc.Machine.Yields.{Yields, yields, sequence}
use alloc.Heap.Contract.{WellFormed, Moved}
use alloc.Heap.Filling.{write-Fresh}
use alloc.Heap.Resizing.{Resized, allocated, replaced, resized, AfterFree}
use alloc.Heap.Writes.{WritesIn, write-WellFormed, write-KeepsBut}
use alloc.Xx.{Xx, IsXx}
use alloc.Detours.{detour_recalloc}
use alloc.Detours.Foreign.{detour_realloc-Resized, safe_size-live}

module _ {H : Type 0} (live : H → Ptr → Option ℕ) where
  -- What Detour_recalloc gives: what Detour_realloc would, with zeros in the block behind the `sz` bytes asked
  -- for.
  pub Recalloced : (p : Ptr) (sz : ℕ) (m : Machine H) (q : Ptr) (m' : Machine H) → Type 0
  Recalloced p sz m q m' =
      Resized live true p sz m q m'
      × ((n i : ℕ) → q ≢ null → live m'.heap q ≡ some n → sz ≤ i → i < n → m'.mem (q + i) ≡ some 0)

  -- The block that a realloc gave, and that its bytes behind `sz` may be written.
  record Given (p : Ptr) (sz : ℕ) (m : Machine H) (q : Ptr) (m1 : Machine H) : Type 0 where
    size : ℕ
    nonnull : q ≢ null
    owned : live m1.heap q ≡ some size
    enough : sz ≤ size
    valid : WellFormed live m1
    rewritten :
        (mem' : Memory)
        → WritesIn q size m1.mem mem'
        → ((i : ℕ) → i < sz → mem' (q + i) ≡ m1.mem (q + i))
        → Resized live true p sz m q (record m1 { mem = mem' })

  write-Moved :
      (p : Ptr) (old sz : ℕ) (m m1 : Machine H) (q : Ptr) (mem' : Memory)
      (mv : Moved live p old sz m q m1)
      → WritesIn q mv.size m1.mem mem'
      → ((i : ℕ) → i < sz → mem' (q + i) ≡ m1.mem (q + i))
      → Moved live p old sz m q (record m1 { mem = mem' })
  write-Moved p old sz m m1 q mem' mv writes same = record {
    size = mv.size;
    nonnull = mv.nonnull;
    owned = mv.owned;
    enough = mv.enough;
    unused = mv.unused;
    gone = mv.gone;
    others = mv.others;
    copied_bytes = λ i lo lt. same i lt ∙ mv.copied_bytes i lo lt;
    kept = λ r n a ne own lo hi.
        let r-ne-q : r ≢ q = λ e. cc (mv.unused (λ f. ne (e ∙ f)), own, ap (live m.heap) e) in
        write-KeepsBut live m1 q mv.size mem' mv.valid writes mv.owned r n a r-ne-q
          (mv.others r ne r-ne-q ∙ own) lo hi
        ∙ mv.kept r n a ne own lo hi;
    valid = write-WellFormed live m1 q mv.size mem' mv.valid writes;
  }

  given :
      (p : Ptr) (sz : ℕ) (m : Machine H) (q : Ptr) (m1 : Machine H)
      → Resized live true p sz m q m1
      → (q ≡ null) ⊎ Given p sz m q m1
  unfolding AfterFree
  given p sz m q m1 (allocated e (inl f)) = inl f.is_null
  given p sz m q m1 (allocated e (inr new)) = inr record {
    size = new.size;
    nonnull = new.nonnull;
    owned = new.owned;
    enough = new.enough;
    valid = new.valid;
    rewritten = λ mem' writes same. allocated e (inr (write-Fresh live sz m m1 q mem' new writes));
  }
  given p sz m q m1 (replaced m0 ne z fr (inl f)) = inl f.is_null
  given p sz m q m1 (replaced m0 ne z fr (inr new)) = inr record {
    size = new.size;
    nonnull = new.nonnull;
    owned = new.owned;
    enough = omega (arith, z);
    valid = new.valid;
    rewritten =
        λ mem' writes same. replaced m0 ne z fr (inr (write-Fresh live 1 m0 m1 q mem' new writes));
  }
  given p sz m q m1 (resized old own nz (inl f)) = inl f.is_null
  given p sz m q m1 (resized old own nz (inr mv)) = inr record {
    size = mv.size;
    nonnull = mv.nonnull;
    owned = mv.owned;
    enough = mv.enough;
    valid = mv.valid;
    rewritten = λ mem' writes same.
        resized old own nz (inr (write-Moved p old sz m m1 q mem' mv writes same));
  }

  module _ (X : Xx H) (is : IsXx live X) (ours : H → Ptr → Bool)
      (ours-live : (h : H) (p : Ptr) (n : ℕ) → live h p ≡ some n → ours h p ≡ true) where
    -- At nullptr or a live block of at least one byte, and where the product fits a size_t, it is realloc of
    -- the product, with zeros behind it.
    pub recalloc-Recalloced :
        (init_complete : Bool) (p : Ptr) (num size : ℕ) (m : Machine H)
        → num * size < size_mod
        → WellFormed live m
        → (p ≡ null) ⊎ ((n : ℕ) × (live m.heap p ≡ some n) × (0 < n))
        → Yields (Recalloced p (num * size) m) (detour_recalloc X ours init_complete p num size m)
    unfolding detour_recalloc Recalloced
    recalloc-Recalloced init_complete p num size m small w b = rw (mod-eq_of_lt small) (
        sequence
          (detour_realloc-Resized live X is ours ours-live init_complete p (num * size) m small w b)
          λ q m1 got. elim (given p (num * size) m q m1 got) [
            | inl z ↦ rw (eq→== q null z) (yields (got, λ n i nn. absurd (nn z)))
            | inr g ↦
                let sz = num * size in
                let known = safe_size-live live X is ours ours-live q g.size m1 g.valid g.owned in
                elim (Bool-cases (ltb sz g.size)) [
                  | inr whole ↦
                      rw (ne→== q null g.nonnull, known, whole)
                        (yields (got, λ n i nn own lo hi. absurd (ground (arith, g.owned))))
                  | inl more ↦
                      rw
                        (
                          ne→== q null g.nonnull,
                          known,
                          more,
                          memset-ok m1 (q + sz) 0 (g.size - sz) λ a lo hi.
                              g.valid.blocks_mapped q g.size a g.owned (omega arith)
                                (omega (arith, g.enough)),
                        )
                        (yields (
                          g.rewritten _
                              (record {
                                outside = λ a out. ground arith;
                                mapped_still = λ a h. ground arith;
                              })
                              (λ i lt. ground arith),
                          λ n i nn own lo hi. ground (arith, g.owned),
                        ))
                ]
          ])
