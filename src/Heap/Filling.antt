-- ===== src/Heap/Filling.antt =====
-- The steps that every calloc and strdup shares: allocate, and write into the new block.
use alloc.Base.{ℕ, ◌≤◌, ◌≢◌, inl, inr, Option, arith, ◌==◌, if◌then◌else◌, eq→==, ne→==, ◌∙◌, ap}
use alloc.Machine.{Ptr, null, Machine, Memory, M, pure, ◌>>=◌, ◌>>◌, memset}
use alloc.Machine.Memory.{IsMapped, memset-ok}
use alloc.Machine.Yields.{Yields, yields, sequence}
use alloc.Heap.Contract.{Fresh, Allocated, Zeroed}
use alloc.Heap.Writes.{WritesIn, filled-WritesIn, write-WellFormed, write-KeepsBut}

-- `p = malloc(total); if (p) memset(p, 0, total); return p;`
abbrev pub zero_fill : {H : Type 0} → (ℕ → M H Ptr) → ℕ → M H Ptr
zero_fill malloc total = do
  p ← malloc total
  if p == null then pure p else do memset p 0 total; pure p

module _ {H : Type 0} (live : H → Ptr → Option ℕ) where
  -- A new block is also one of fewer bytes.
  pub Fresh-of_le :
      (sz r : ℕ) (m m' : Machine H) (p : Ptr) → sz ≤ r → Fresh live r m p m' → Fresh live sz m p m'
  Fresh-of_le sz r m m' p le new = record {
    size = new.size;
    nonnull = new.nonnull;
    unused = new.unused;
    owned = new.owned;
    enough = omega (arith, new.enough);
    others = new.others;
    kept = new.kept;
    valid = new.valid;
  }

  -- A new block stays new when its bytes are written.
  pub write-Fresh :
      (sz : ℕ) (m m1 : Machine H) (p : Ptr) (mem' : Memory) (new : Fresh live sz m p m1)
      → WritesIn p new.size m1.mem mem'
      → Fresh live sz m p (record m1 { mem = mem' })
  write-Fresh sz m m1 p mem' new writes = record {
    size = new.size;
    nonnull = new.nonnull;
    unused = new.unused;
    owned = new.owned;
    enough = new.enough;
    others = new.others;
    kept = λ q n a own lo hi.
        let q-ne-p : q ≢ p = λ e. cc (new.unused, own, ap (live m.heap) e) in
        write-KeepsBut live m1 p new.size mem' new.valid writes new.owned q n a q-ne-p
          (new.others q q-ne-p ∙ own) lo hi
        ∙ new.kept q n a own lo hi;
    valid = write-WellFormed live m1 p new.size mem' new.valid writes;
  }

  pub Fresh-IsMapped :
      (sz k : ℕ) (m m1 : Machine H) (p : Ptr) → Fresh live sz m p m1 → k ≤ sz → IsMapped m1.mem p k
  Fresh-IsMapped sz k m m1 p new le a lo hi =
      new.valid.blocks_mapped p new.size a new.owned lo (omega (arith, new.enough))

  pub zero_fill-Zeroed :
      (malloc : ℕ → M H Ptr)
      → (total : ℕ) (m : Machine H) → Yields (Allocated live total m) (malloc total m)
      → Yields (Zeroed live total m) (zero_fill malloc total m)
  zero_fill-Zeroed malloc total m alloc = sequence alloc λ p m1 got. elim got [
    | inl f ↦ rw (eq→== p null f.is_null) (yields (inl f))
    | inr new ↦
        rw
          (
            ne→== p null new.nonnull,
            memset-ok m1 p 0 total (Fresh-IsMapped total total m m1 p new (omega arith)),
          )
          (yields (
            inr (
              write-Fresh total m m1 p _ new (filled-WritesIn m1.mem p 0 new.size total new.enough),
              λ i lt. ground arith,
            )))
  ]
