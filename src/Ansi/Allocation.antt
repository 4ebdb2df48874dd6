-- ===== src/Ansi/Allocation.antt =====
-- The contracts that ANSIWrapper keeps over a heap that meets its own. `k` is the binary logarithm of
-- the template argument MinAlignment.
use alloc.Base.{
  ℕ, ◌+◌, ◌-◌, ◌^◌, ◌≤◌, ◌<◌, ◌≡◌, refl, ◌≢◌, inl, inr, Option, some, arith, ◌==◌, ltb, leb,
  size_mod, size_max, round_up, if◌then◌else◌, eq→==, ne→==, ==→eq, ==→ne, Bool-cases,
  round_up_bounds, round_up_wraps, le→leb, pow2_bounds,
}
use alloc.Machine.{Ptr, null, Machine, ok, pure, memcpy, ◌>>=◌, ◌>>◌}
use alloc.Machine.Yields.{Yields, yields, sequence, weaken}
use alloc.Heap.{Allocator}
use alloc.Heap.Contract.{
  Failed-null, WellFormed, IsBlock, Allocated, Failed, Moved, MovedOrKept, Reallocated, allocated,
  released, resized, IsAllocator,
}
use alloc.Heap.Filling.{Fresh-of_le}
use alloc.Heap.Moving.{in_place-Moved, move_copied}
use alloc.Ansi.{ansi_malloc, ansi_free, ansi_realloc}

module _ {H : Type 0} (live : H → Ptr → Option ℕ) where
  Moved-of_le :
      (p q : Ptr) (old sz r : ℕ) (m m' : Machine H)
      → sz ≤ r
      → Moved live p old r m q m'
      → Moved live p old sz m q m'
  Moved-of_le p q old sz r m m' le mv = record {
    size = mv.size;
    nonnull = mv.nonnull;
    owned = mv.owned;
    enough = omega (arith, mv.enough);
    unused = mv.unused;
    gone = mv.gone;
    others = mv.others;
    copied_bytes = λ i lo hi. mv.copied_bytes i lo (omega arith);
    kept = mv.kept;
    valid = mv.valid;
  }

  nothing_done : (m : Machine H) → WellFormed live m → Failed live m null m
  nothing_done m w = record {
    is_null = refl;
    same = λ q. refl;
    kept = λ q n a _ _ _. refl;
    valid = w;
  }

  module _ (A : Allocator H) (is : IsAllocator live A) (k : ℕ) (k_fits : k < 63) where
    -- malloc fails, or gives a block of at least the size asked for, at every size: a size that cannot be
    -- rounded up to the alignment gives null.
    pub ansi_malloc-Allocated :
        (sz : ℕ) (m : Machine H)
        → sz < size_mod
        → WellFormed live m
        → Yields (Allocated live sz m) (ansi_malloc A (2 ^ k) sz m)
    unfolding ansi_malloc
    ansi_malloc-Allocated sz m small w = go (if ltb sz (2 ^ k) then 2 ^ k else sz) (ground arith)
      where
        go :
            (s : ℕ)
            → sz ≤ s
            → Yields (Allocated live sz m) (
                (if ltb (size_max - 2 ^ k + 1) s then pure null else A.malloc (round_up s (2 ^ k)))
                  m)
        go s le = elim (Bool-cases (ltb (size_max - 2 ^ k + 1) s)) [
          | inl big ↦ rw big (yields (inl (nothing_done m w)))
          | inr fits ↦
              let fit : s + 2 ^ k ≤ size_mod = ground (arith, pow2_bounds k (omega arith)) in
              let (lo, hi, whole) = round_up_bounds s k (omega arith) fit in
              rw fits (
                weaken (is.malloc-Allocated (round_up s (2 ^ k)) m (omega arith) w) λ p m' got.
                  elim got [
                    | inl f ↦ inl f
                    | inr new ↦
                        inr (Fresh-of_le live sz (round_up s (2 ^ k)) m m' p (omega arith) new)
                  ])
        ]

    -- Where size and alignment together do not pass the address space, realloc keeps its contract: at nullptr
    -- it allocates; at a live block, the size 0 frees it and gives null, and another size gives the block, or
    -- one with the same bytes, of at least that size, or null with the block as it was.
    pub ansi_realloc-Reallocated :
        (p : Ptr) (sz : ℕ) (m : Machine H)
        → sz + 2 ^ k ≤ size_mod
        → WellFormed live m
        → IsBlock live p m
        → Yields (Reallocated live p sz m) (ansi_realloc A (2 ^ k) p sz m)
    unfolding ansi_realloc ansi_free
    ansi_realloc-Reallocated p sz m fit w (inl e) = rw (eq→== p null e) (
        weaken (ansi_malloc-Allocated sz m (omega (arith, pow2_bounds k (omega arith))) w)
          λ q m' got. allocated e got)
    ansi_realloc-Reallocated p sz m fit w (inr (old, own)) =
        let ne : p ≢ null = λ e. ground (arith, w.null_free) in
        rw (ne→== p null ne) (elim (Bool-cases (sz == 0)) [
          | inl z ↦ rw z (
              sequence (is.free-Freed p old m w own)
                λ _ m1 fr. yields (released ne (==→eq sz 0 z) refl fr))
          | inr nz ↦
              rw (nz, is.get_size-live p old m w own)
                (weaken
                  (go (if ltb sz (2 ^ k) then 2 ^ k else sz) (ground arith)
                    (ground (arith, pow2_bounds k (omega arith))))
                  λ q m' got. resized old own (==→ne sz 0 nz) got)
        ])
      where
        go :
            (s : ℕ)
            → sz ≤ s
            → s + 2 ^ k ≤ size_mod
            → Yields (MovedOrKept live p old sz m) (
                (if leb (round_up s (2 ^ k)) old then pure p else do
                  q ← A.malloc (round_up s (2 ^ k))
                  if q == null then pure null else do memcpy q p old; A.free p; pure q)
                  m)
        go s le room =
            let (lo, hi, whole) = round_up_bounds s k (omega arith) room in
            elim (Bool-cases (leb (round_up s (2 ^ k)) old)) [
              | inl stays ↦
                  rw stays (yields (inr (in_place-Moved live p old sz m w own (ground arith))))
              | inr grows ↦ rw grows (
                  sequence (is.malloc-Allocated (round_up s (2 ^ k)) m (omega arith) w) λ q m1 got.
                    elim got [
                      | inl f ↦ rw (eq→== q null f.is_null) (yields (inl (Failed-null live f)))
                      | inr new ↦ rw (ne→== q null new.nonnull) (
                          weaken
                            (move_copied live A.malloc A.free (λ r. r) (λ r e. e)
                              is.malloc-Allocated is.free-Freed p old (round_up s (2 ^ k)) old m m1
                              q own (omega arith) (ground arith) (inl (omega arith)) new)
                            λ r m' mv.
                              inr
                                (Moved-of_le p r old sz (round_up s (2 ^ k)) m m' (omega arith) mv))
                    ])
            ]

    -- For a size within MinAlignment of SIZE_MAX realloc succeeds at once, with the block as it was,
    -- however small it is: the rounded size has wrapped to 0.
    pub ansi_realloc_wraps :
        (p : Ptr) (old sz : ℕ) (m : Machine H)
        → size_mod < sz + 2 ^ k
        → sz < size_mod
        → WellFormed live m
        → live m.heap p ≡ some old
        → ansi_realloc A (2 ^ k) p sz m ≡ ok p m
    unfolding ansi_realloc
    ansi_realloc_wraps p old sz m over small w own =
        let ne : p ≢ null = λ e. ground (arith, w.null_free) in
        let large : (if ltb sz (2 ^ k) then 2 ^ k else sz) ≡ sz =
          ground (arith, pow2_bounds k (omega arith)) in
        rw
          (
            ne→== p null ne,
            ne→== sz 0 (omega (arith, pow2_bounds k (omega arith))),
            is.get_size-live p old m w own,
            large,
            round_up_wraps sz k (omega arith) over small,
            le→leb 0 old (omega arith),
          )
          refl
