-- ===== src/Heap/Bump.antt =====
-- A small allocator that meets the contract: blocks one above the other, never used again. It shows
-- that the contract can be met, and runs in the tests.
use alloc.Base.{
  ℕ, ◌+◌, ◌*◌, ◌/◌, ◌%◌, ◌≤◌, ◌<◌, ◌≡◌, refl, inl, inr, ◌&&◌, Option, none, some, arith, leb, ltb,
  ◌==◌, if◌then◌else◌, size_mod, Bool-cases,
}
use native.Mathlib.Nat.{mul-mod_left, div-add-mod', mod-lt, one-le-pow}
use alloc.Machine.{Ptr, null, Machine, Memory, M, ok, crash, skip, filled}
use alloc.Machine.Yields.{Yields, yields, weaken}
use alloc.Heap.{Allocator}
use alloc.Heap.Contract.{WellFormed, Fresh, Freed, AllocatedAt, IsAllocator}

-- `blocks` holds the sizes, and counts only what ends at or below `next`.
pub record Arena : Type 0 where
  pub next : ℕ
  pub limit : ℕ
  pub blocks : Ptr → Option ℕ

abbrev pub below : ℕ → Ptr → Option ℕ → Option ℕ
below next p none = none
below next p (some n) = if leb (p + n) next && ltb p next then some n else none

unfoldable pub live : Arena → Ptr → Option ℕ
live h p = below h.next p (h.blocks p)

abbrev carved : Ptr → ℕ → Machine Arena → Machine Arena
carved q sz m = record m {
  heap = record m.heap {
    next = q + sz + 1;
    blocks = λ p. if p == q then some sz else live m.heap p;
  };
  mem = filled m.mem q 170 sz;
}

-- A block of `sz` bytes at `q`, which is above `next`.
carve : Ptr → ℕ → M Arena Ptr
carve q sz m =
    if leb (q + sz + 1) m.heap.limit && leb (q + sz + 1) size_mod
    then ok q (carved q sz m)
    else ok null m

abbrev released : Ptr → Machine Arena → Machine Arena
released p m = record m {
  heap = record m.heap { blocks = λ r. if r == p then none else live m.heap r };
}

release : Ptr → M Arena (Unit {0})
release p m = ok tt (released p m)

size_of : Ptr → M Arena ℕ
size_of p m = elim (live m.heap p) [ none ↦ crash | some n ↦ ok n m ]

above : ℕ → ℕ → ℕ
above al next = (next / al + 1) * al

unfoldable pub bump : Allocator Arena
unfolding carve release size_of above
bump = record {
  malloc = λ sz m. carve (above 16 m.heap.next) sz m;
  free = release;
  get_size = size_of;
  memalign = λ al sz m. carve (above al m.heap.next) sz m;
  lock = skip;
  unlock = skip;
  native_realloc = none;
  thread_init = none;
  thread_cleanup = none;
}

below-le : (next p n : ℕ) (o : Option ℕ) → below next p o ≡ some n → (p + n ≤ next) × (p < next)
below-le next p n none e = absurd (cc)
below-le next p n (some k) e = ground arith

live-le : (h : Arena) (p n : ℕ) → live h p ≡ some n → (p + n ≤ h.next) × (p < h.next)
unfolding live
live-le h p n e = below-le h.next p n (h.blocks p) e

below_mono : (next k p : ℕ) (o : Option ℕ) → next ≤ k → below k p (below next p o) ≡ below next p o
below_mono next k p none le = refl
below_mono next k p (some n) le = ground arith

below-none : (next p : ℕ) (o : Option ℕ) → next < p → below next p o ≡ none
below-none next p none h = refl
below-none next p (some n) h = ground arith

live-carved :
    (q sz : ℕ) (m : Machine Arena) (p : Ptr)
    → m.heap.next < q
    → live (carved q sz m).heap p ≡ (if p == q then some sz else live m.heap p)
unfolding live
live-carved q sz m p above = elim (Bool-cases (p == q)) [
  | inl same ↦ rw same (ground arith)
  | inr other ↦ rw other (below_mono m.heap.next (q + sz + 1) p (m.heap.blocks p) (omega arith))
]

live-released :
    (p : Ptr) (m : Machine Arena) (r : Ptr)
    → live (released p m).heap r ≡ (if r == p then none else live m.heap r)
unfolding live
live-released p m r = elim (Bool-cases (r == p)) [
  | inl same ↦ rw same
  | inr other ↦ rw other (below_mono m.heap.next m.heap.next r (m.heap.blocks r) (omega arith))
]

module _ (q sz : ℕ) (m : Machine Arena) (above : m.heap.next < q) (w : WellFormed live m) where
  carved-unused : live m.heap q ≡ none
  unfolding live
  carved-unused = below-none m.heap.next q (m.heap.blocks q) above

  carved-WellFormed : q + sz + 1 ≤ size_mod → WellFormed live (carved q sz m)
  carved-WellFormed fits = record {
    null_free = ground (arith, live-carved q sz m null above, w.null_free);
    blocks_mapped = λ p n a own lo hi.
        ground (arith, live-carved q sz m p above, w.blocks_mapped p n a, live-le m.heap p n);
    blocks_apart = λ p r n k own own' ne. ground (
      arith,
      live-carved q sz m p above,
      live-carved q sz m r above,
      w.blocks_apart p r n k,
      live-le m.heap p n,
      live-le m.heap r k,
    );
    blocks_fit = λ p n own. ground (arith, live-carved q sz m p above, w.blocks_fit p n);
  }

  carved-Fresh : q + sz + 1 ≤ size_mod → Fresh live sz m q (carved q sz m)
  carved-Fresh fits = record {
    size = sz;
    nonnull = λ e. omega arith;
    unused = carved-unused;
    owned = ground (arith, live-carved q sz m q above);
    enough = omega arith;
    others = λ p ne. ground (arith, live-carved q sz m p above);
    kept = λ p n a own lo hi. ground (arith, live-le m.heap p n own);
    valid = carved-WellFormed fits;
  }

  carve-AllocatedAt : (al : ℕ) → q % al ≡ 0 → Yields (AllocatedAt live al sz m) (carve q sz m)
  unfolding carve
  carve-AllocatedAt al e =
      elim (Bool-cases (leb (q + sz + 1) m.heap.limit && leb (q + sz + 1) size_mod)) [
        | inl room ↦ rw room (yields (inr (carved-Fresh (ground arith), e)))
        | inr full ↦ rw full (
            yields (
              inl (record {
                is_null = refl;
                same = λ _. refl;
                kept = λ _ _ _ _ _ _. refl;
                valid = w;
              })))
      ]

above-lt : (al next : ℕ) → 0 < al → (next < above al next) × (above al next % al ≡ 0)
unfolding above
above-lt al next pos = (omega (arith, div-add-mod' next al, mod-lt next pos), mul-mod_left _ _)

release-Freed :
    (p : Ptr) (n : ℕ) (m : Machine Arena)
    → WellFormed live m
    → live m.heap p ≡ some n
    → Yields (Freed live p m) (release p m)
unfolding release
release-Freed p n m w own = yields (record {
  gone = ground (arith, live-released p m p);
  others = λ q ne. ground (arith, live-released p m q);
  kept = λ _ _ _ _ _ _ _. refl;
  valid = record {
    null_free = ground (arith, live-released p m null, w.null_free);
    blocks_mapped = λ q k a o lo hi. ground (arith, live-released p m q, w.blocks_mapped q k a);
    blocks_apart = λ q r k j o o' ne.
        ground (arith, live-released p m q, live-released p m r, w.blocks_apart q r k j);
    blocks_fit = λ q k o. ground (arith, live-released p m q, w.blocks_fit q k);
  };
})

size_of-live :
    (p : Ptr) (n : ℕ) (m : Machine Arena)
    → WellFormed live m
    → live m.heap p ≡ some n
    → size_of p m ≡ ok n m
unfolding size_of
size_of-live p n m w own = rw (own, size_of)

pub bump-IsAllocator : IsAllocator live bump
unfolding bump
bump-IsAllocator = record {
  malloc-Allocated = λ sz m _ w.
      let up = above-lt 16 m.heap.next (omega arith) in
      weaken (carve-AllocatedAt _ sz m up.0 w 16 up.1)
        λ p m' got. elim got [ inl f ↦ inl f | inr new ↦ inr new.0 ];
  memalign-AllocatedAt = λ al sz m pow _ _ w.
      let up = above-lt al m.heap.next (omega (arith, pow.1, one-le-pow pow.0 2 (omega arith))) in
      carve-AllocatedAt _ sz m up.0 w al up.1;
  free-Freed = release-Freed;
  get_size-live = size_of-live;
  native_realloc-Reallocated = λ f p sz m e _ _ _. absurd (cc);
}

-- An arena with nothing in it, and all memory unmapped.
abbrev pub empty : Machine Arena
empty = record {
  heap = record { next = 15; limit = 0x10000; blocks = λ _. none };
  mem = λ _. none;
  errno = 0;
}

pub empty-WellFormed : WellFormed live empty
unfolding live
empty-WellFormed = record {
  null_free = refl;
  blocks_mapped = λ p n a e _ _. absurd (cc);
  blocks_apart = λ p q n k e _ _. absurd (cc);
  blocks_fit = λ p n e. absurd (cc);
}

pub nowhere-WellFormed :
    (mem : Memory) (e : ℕ) → WellFormed live (record { heap = empty.heap; mem = mem; errno = e })
unfolding live
nowhere-WellFormed mem e = record {
  null_free = refl;
  blocks_mapped = λ p n a e _ _. absurd (cc);
  blocks_apart = λ p q n k e _ _. absurd (cc);
  blocks_fit = λ p n e. absurd (cc);
}
