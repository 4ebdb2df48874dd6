-- ===== src/Heap/Moving.antt =====
-- The steps that every realloc shares: allocate, copy, free.
use alloc.Base.{
  ℕ, ◌+◌, ◌-◌, ◌≤◌, ◌<◌, ◌≡◌, refl, ◌≢◌, ◌⊎◌, inl, inr, Option, some, arith, ltb, ◌==◌,
  if◌then◌else◌, size_mod, eq→==, ne→==, ◌∙◌, sym, ap,
}
use alloc.Machine.{Ptr, null, Machine, M, pure, ◌>>=◌, ◌>>◌, copied, memcpy}
use alloc.Machine.Memory.{Apart, IsMapped, memcpy-ok}
use alloc.Machine.Yields.{Yields, yields, sequence, weaken}
use alloc.Heap.Contract.{WellFormed, KeepsBut, Fresh, Allocated, Freed, Moved, MovedOrKept}
use alloc.Heap.Writes.{WritesIn, copied-WritesIn, write-WellFormed, write-KeepsBut}

-- `q = malloc(sz); if (q) { memcpy(q, ptr, min(old, sz)); free(ptr); } return q;`
-- `failed` is what is returned in place of a null `q`.
abbrev pub move :
    {H : Type 0} → (ℕ → M H Ptr) → (Ptr → M H (Unit {0})) → (Ptr → Ptr) → Ptr → ℕ → ℕ → M H Ptr
move malloc free failed ptr old sz = do
  q ← malloc sz
  if q == null
      then pure (failed q)
      else do memcpy q ptr (if ltb old sz then old else sz); free ptr; pure q

module _ {H : Type 0} (live : H → Ptr → Option ℕ) where
  -- A block that is large enough may be returned as it is.
  pub in_place-Moved :
      (p : Ptr) (old sz : ℕ) (m : Machine H)
      → WellFormed live m
      → live m.heap p ≡ some old
      → sz ≤ old
      → Moved live p old sz m p m
  in_place-Moved p old sz m w own fits = record {
    size = old;
    nonnull = λ e. ground (arith, w.null_free);
    owned = own;
    enough = fits;
    unused = λ ne. absurd (ne refl);
    gone = λ ne. absurd (ne refl);
    others = λ r _ _. refl;
    copied_bytes = λ i _ _. refl;
    kept = λ q n a _ _ _ _. refl;
    valid = w;
  }

  -- The facts after the allocation, and after the free.
  module _ (p : Ptr) (old sz k : ℕ) (m m1 : Machine H) (q : Ptr) (own : live m.heap p ≡ some old)
      (k-le-old : k ≤ old) (k-le-sz : k ≤ sz) (new : Fresh live sz m q m1) where
    q-ne-p : q ≢ p
    q-ne-p e = cc (new.unused, own, ap (live m.heap) e)

    own_still : live m1.heap p ≡ some old
    own_still = new.others p (λ e. q-ne-p (sym e)) ∙ own

    from : IsMapped m1.mem p k
    from a lo hi = new.valid.blocks_mapped p old a own_still lo (omega arith)

    to : IsMapped m1.mem q k
    to a lo hi = new.valid.blocks_mapped q new.size a new.owned lo (omega (arith, new.enough))

    apart : Apart q k p k
    apart =
        omega
          (arith, new.valid.blocks_apart q p new.size old new.owned own_still q-ne-p, new.enough)

    abbrev m2 : Machine H
    m2 = record m1 { mem = copied m1.mem q p k }

    writes : WritesIn q new.size m1.mem (copied m1.mem q p k)
    writes = copied-WritesIn m1.mem q p new.size k (omega (arith, new.enough)) from

    copied-WellFormed : WellFormed live m2
    copied-WellFormed = write-WellFormed live m1 q new.size _ new.valid writes

    moved_byte :
        (m3 : Machine H) (i : ℕ) → Freed live p m2 tt m3 → i < k → m3.mem (q + i) ≡ m.mem (p + i)
    moved_byte m3 i fr lt =
        fr.kept q new.size (q + i) q-ne-p new.owned (omega arith) (omega (arith, new.enough))
        ∙ here
        ∙ ap (λ (t : ℕ). m1.mem (p + t)) back
        ∙ new.kept p old (p + i) own (omega arith) (omega arith)
      where
        here : copied m1.mem q p k (q + i) ≡ m1.mem (p + (q + i - q))
        here = ground arith

        back : q + i - q ≡ i
        back = omega arith

    moved-KeepsBut : (m3 : Machine H) → Freed live p m2 tt m3 → KeepsBut live p m m3
    moved-KeepsBut m3 fr r n a ne o lo hi =
        let r-ne-q : r ≢ q = λ e. cc (new.unused, o, ap (live m.heap) e) in
        let o1 = new.others r r-ne-q ∙ o in
        fr.kept r n a ne o1 lo hi
        ∙ write-KeepsBut live m1 q new.size _ new.valid writes new.owned r n a r-ne-q o1 lo hi
        ∙ new.kept r n a o lo hi

    Moved-after_free :
        (m3 : Machine H) → (old ≤ k) ⊎ (sz ≤ k) → Freed live p m2 tt m3 → Moved live p old sz m q m3
    Moved-after_free m3 whole fr = record {
      size = new.size;
      nonnull = new.nonnull;
      owned = fr.others q q-ne-p ∙ new.owned;
      enough = new.enough;
      unused = λ _. new.unused;
      gone = λ _. fr.gone;
      others = λ r ne ne'. fr.others r ne ∙ new.others r ne';
      copied_bytes = λ i lo hi. moved_byte m3 i fr (omega arith);
      kept = moved-KeepsBut m3 fr;
      valid = fr.valid;
    }

  module _ (malloc : ℕ → M H Ptr) (free : Ptr → M H (Unit {0})) (failed : Ptr → Ptr)
      (failed-null : (q : Ptr) → q ≡ null → failed q ≡ null)
      (malloc-Allocated : (sz : ℕ) (m : Machine H)
        → sz < size_mod
        → WellFormed live m
        → Yields (Allocated live sz m) (malloc sz m))
      (free-Freed : (p : Ptr) (n : ℕ) (m : Machine H)
        → WellFormed live m
        → live m.heap p ≡ some n
        → Yields (Freed live p m) (free p m)) where
    pub move_copied :
        (p : Ptr) (old sz k : ℕ) (m m1 : Machine H) (q : Ptr)
        → live m.heap p ≡ some old
        → k ≤ old
        → k ≤ sz
        → (old ≤ k) ⊎ (sz ≤ k)
        → Fresh live sz m q m1
        → Yields (Moved live p old sz m) ((memcpy q p k >> (free p >> pure q)) m1)
    move_copied p old sz k m m1 q own k-le-old k-le-sz whole new =
        rw
          (memcpy-ok m1 q p k (from p old sz k m m1 q own k-le-old k-le-sz new)
            (to p old sz k m m1 q own k-le-old k-le-sz new)
            (apart p old sz k m m1 q own k-le-old k-le-sz new))
          (sequence
            (free-Freed p old _ (copied-WellFormed p old sz k m m1 q own k-le-old k-le-sz new)
              (own_still p old sz k m m1 q own k-le-old k-le-sz new))
            λ _ m3 fr.
              yields (Moved-after_free p old sz k m m1 q own k-le-old k-le-sz new m3 whole fr))

    -- The shared steps give the block moved, or as it was.
    pub move-MovedOrKept :
        (p : Ptr) (old sz : ℕ) (m : Machine H)
        → WellFormed live m
        → live m.heap p ≡ some old
        → sz < size_mod
        → Yields (MovedOrKept live p old sz m) (move malloc free failed p old sz m)
    move-MovedOrKept p old sz m w own small = sequence (malloc-Allocated sz m small w) λ q m1 got.
        elim got [
          | inl f ↦ rw (eq→== q null f.is_null) (
              yields (
                inl (record {
                  is_null = failed-null q f.is_null;
                  same = f.same;
                  kept = f.kept;
                  valid = f.valid;
                })))
          | inr new ↦ rw (ne→== q null new.nonnull) (
              weaken
                (move_copied p old sz _ m m1 q own (ground arith) (ground arith) (ground arith) new)
                λ r m' got. inr got)
        ]
