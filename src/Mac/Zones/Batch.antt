-- ===== src/Mac/Zones/Batch.antt =====
-- The batch functions of mac_zones.cpp: batch_malloc gives new blocks until one fails, and batch_free
-- gives them back.
use alloc.Base.{
  ℕ, zero, suc, ◌+◌, ◌≤◌, ◌<◌, ◌≡◌, refl, sym, ap, ◌∙◌, ◌≢◌, ◌⊎◌, inl, inr, List, [], ◌∷◌, Option,
  none, some, arith, ◌==◌, size_mod, Bool-cases, ==→eq, ==→ne, eq→==, ne→==, none≢some,
}
use alloc.Machine.{Ptr, null, Machine}
use alloc.Machine.Yields.{Yields, yields, sequence, weaken}
use alloc.Heap.Contract.{WellFormed, Keeps, Fresh}
use alloc.Xx.{Xx, IsXx}
use alloc.Mac.{replace_malloc}
use alloc.Mac.Zones.{
  batch_malloc_loop, replace_malloc_zone_batch_malloc, replace_malloc_zone_batch_free,
}

-- The first `k` entries: what a caller passes on that has `k` blocks in the array.
unfoldable pub first : ℕ → List Ptr → List Ptr
first zero ps = []
first (suc k) [] = []
first (suc k) (p ∷ ps) = p ∷ first k ps

pub NotIn : Ptr → List Ptr → Type 0
NotIn q [] = Unit
NotIn q (p ∷ ps) = (q ≢ p) × NotIn q ps

In : Ptr → List Ptr → Type 0
In q [] = ⊥
In q (p ∷ ps) = (q ≡ p) ⊎ In q ps

In-or_not : (q : Ptr) (ps : List Ptr) → In q ps ⊎ NotIn q ps
unfolding In NotIn
In-or_not q [] = inr tt
In-or_not q (p ∷ ps) = elim (Bool-cases (q == p)) [
  | inl b ↦ inl (inl (==→eq q p b))
  | inr b ↦ elim (In-or_not q ps) [ inl i ↦ inl (inr i) | inr n ↦ inr (==→ne q p b, n) ]
]

module _ {H : Type 0} (live : H → Ptr → Option ℕ) where
  -- Distinct live blocks.
  pub Blocks : H → List Ptr → Type 0
  unfolding NotIn
  Blocks h [] = Unit
  Blocks h (p ∷ ps) = ((n : ℕ) × (live h p ≡ some n)) × NotIn p ps × Blocks h ps

  -- Addresses at which no block is live.
  pub Unused : H → List Ptr → Type 0
  Unused h [] = Unit
  Unused h (p ∷ ps) = (live h p ≡ none) × Unused h ps

  Unused-at : (h : H) (ps : List Ptr) (q : Ptr) → Unused h ps → In q ps → live h q ≡ none
  unfolding Unused In
  Unused-at h [] q u i = absurd i
  Unused-at h (p ∷ ps) q (u, us) (inl e) = ap (live h) e ∙ u
  Unused-at h (p ∷ ps) q (u, us) (inr i) = Unused-at h ps q us i

  -- The blocks are still there where the state changed at another address only.
  Blocks-move :
      (h h' : H) (p : Ptr) (ps : List Ptr)
      → ((q : Ptr) → q ≢ p → live h' q ≡ live h q)
      → NotIn p ps
      → Blocks h ps
      → Blocks h' ps
  unfolding Blocks NotIn
  Blocks-move h h' p [] same out b = tt
  Blocks-move h h' p (x ∷ xs) same (ne, out) ((n, own), nx, b) =
      ((n, same x (λ e. ne (sym e)) ∙ own), nx, Blocks-move h h' p xs same out b)

  -- What a batch gives: `k` new blocks of at least `size` bytes, at the first entries.
  pub record Filled (size : ℕ) (m : Machine H) (k : ℕ) (ps : List Ptr) (m' : Machine H)
      : Type 0 where
    pub blocks : Blocks m'.heap (first k ps)
    pub new : Unused m.heap (first k ps)
    pub others : (q : Ptr) → NotIn q (first k ps) → live m'.heap q ≡ live m.heap q
    pub kept : Keeps live m m'
    pub valid : WellFormed live m'

  -- A block that was there is none of the new ones.
  live-NotIn :
      (h : H) (ps : List Ptr) (q : Ptr) (n : ℕ) → Unused h ps → live h q ≡ some n → NotIn q ps
  live-NotIn h ps q n u own = elim (In-or_not q ps) [
    | inl i ↦ absurd (none≢some (sym (Unused-at h ps q u i) ∙ own))
    | inr out ↦ out
  ]

  Unused-back :
      (h h1 : H) (p : Ptr) (ps : List Ptr)
      → ((q : Ptr) → q ≢ p → live h1 q ≡ live h q)
      → NotIn p ps
      → Unused h1 ps
      → Unused h ps
  unfolding Unused NotIn
  Unused-back h h1 p [] same out u = tt
  Unused-back h h1 p (x ∷ xs) same (ne, out) (e, u) =
      (sym (same x (λ d. ne (sym d))) ∙ e, Unused-back h h1 p xs same out u)

  Filled-cons :
      (size k : ℕ) (m m1 m' : Machine H) (p : Ptr) (ps : List Ptr)
      → Fresh live size m p m1
      → Filled size m1 k ps m'
      → Filled size m (suc k) (p ∷ ps) m'
  unfolding first Blocks Unused NotIn
  Filled-cons size k m m1 m' p ps new rest =
      let out = live-NotIn m1.heap (first k ps) p new.size rest.new new.owned in
      record {
        blocks = ((new.size, rest.others p out ∙ new.owned), out, rest.blocks);
        new = (new.unused, Unused-back m.heap m1.heap p (first k ps) new.others out rest.new);
        others = λ q (ne, away). rest.others q away ∙ new.others q ne;
        kept = λ q n a own lo hi.
            rest.kept q n a
              (new.others q (λ e. none≢some (sym new.unused ∙ (ap (live m.heap) (sym e) ∙ own)))
                ∙ own)
              lo hi
            ∙ new.kept q n a own lo hi;
        valid = rest.valid;
      }

  module _ (X : Xx H) (is : IsXx live X) where
    loop-Filled :
        (size n : ℕ) (m : Machine H)
        → size < size_mod
        → WellFormed live m
        → Yields (λ r m'. Filled size m r.0 r.1 m' × (r.0 ≤ n)) (batch_malloc_loop X size n m)
    unfolding batch_malloc_loop replace_malloc first Blocks Unused NotIn
    loop-Filled size zero m small w = yields (
      record { blocks = tt; new = tt; others = λ q _. refl; kept = λ q n a _ _ _. refl; valid = w },
      omega arith,
    )
    loop-Filled size (suc n) m small w = sequence (is.xxmalloc-Allocated size m small w) λ p m1 got.
        elim got [
          | inl f ↦ rw (eq→== p null f.is_null) (
              yields (
                record {
                  blocks = tt;
                  new = tt;
                  others = λ q _. f.same q;
                  kept = f.kept;
                  valid = f.valid;
                },
                omega arith,
              ))
          | inr new ↦ rw (ne→== p null new.nonnull) (
              sequence (loop-Filled size n m1 small new.valid) λ r m' (fill, le).
                yields (Filled-cons size r.0 m m1 m' p r.1 new fill, omega arith))
        ]

    -- The blocks are gone, and the others as they were.
    record Released (ps : List Ptr) (m : Machine H) (u : Unit {0}) (m' : Machine H) : Type 0 where
      gone : (q : Ptr) → In q ps → live m'.heap q ≡ none
      others : (q : Ptr) → NotIn q ps → live m'.heap q ≡ live m.heap q
      kept :
          (q : Ptr) (n : ℕ) (a : Ptr)
          → NotIn q ps
          → live m.heap q ≡ some n
          → q ≤ a
          → a < q + n
          → m'.mem a ≡ m.mem a

    NotIn-of_eq : (p q : Ptr) (ps : List Ptr) → q ≡ p → NotIn p ps → NotIn q ps
    NotIn-of_eq p q ps e out = rw e out

    batch_free-Released :
        (z : Ptr) (ps : List Ptr) (m : Machine H)
        → WellFormed live m
        → Blocks m.heap ps
        → Yields (Released ps m) (replace_malloc_zone_batch_free X z ps m)
    unfolding replace_malloc_zone_batch_free Blocks In NotIn
    batch_free-Released z [] m w b =
        yields
          (record { gone = λ q i. absurd i; others = λ q _. refl; kept = λ q n a _ _ _ _. refl })
    batch_free-Released z (p ∷ ps) m w ((n, own), out, b) =
        sequence (is.xxfree-Freed p n m w own) λ _ m1 fr.
          weaken
            (batch_free-Released z ps m1 fr.valid (Blocks-move m.heap m1.heap p ps fr.others out b))
            λ _ m' rest. record {
              gone = λ q i. elim i [
                | inl e ↦ rest.others q (NotIn-of_eq p q ps e out) ∙ (ap (live m1.heap) e ∙ fr.gone)
                | inr j ↦ rest.gone q j
              ];
              others = λ q (ne, away). rest.others q away ∙ fr.others q ne;
              kept = λ q k a (ne, away) o lo hi.
                  rest.kept q k a away (fr.others q ne ∙ o) lo hi ∙ fr.kept q k a ne o lo hi;
            }

    -- batch_malloc succeeds with at most as many blocks as asked for, and a batch_free of those that it gave
    -- succeeds and leaves exactly the blocks that were live before, with the bytes that they had.
    pub batch_free-batch_malloc :
        (z : Ptr) (size num : ℕ) (m : Machine H)
        → size < size_mod
        → WellFormed live m
        → Yields
            (λ r m'.
              (r.0 ≤ num)
              × Yields
                  (λ _ m''. ((q : Ptr) → live m''.heap q ≡ live m.heap q) × Keeps live m m'')
                  (replace_malloc_zone_batch_free X z (first r.0 r.1) m'))
            (replace_malloc_zone_batch_malloc X z size num m)
    unfolding replace_malloc_zone_batch_malloc
    batch_free-batch_malloc z size num m small w =
        weaken (loop-Filled size num m small w) λ r m' (fill, le). (
          le,
          weaken (batch_free-Released z (first r.0 r.1) m' fill.valid fill.blocks) λ _ m'' rel. (
            (λ q. elim (In-or_not q (first r.0 r.1)) [
              | inl i ↦ rel.gone q i ∙ sym (Unused-at m.heap (first r.0 r.1) q fill.new i)
              | inr out ↦ rel.others q out ∙ fill.others q out
            ]),
            λ q n a own lo hi.
                let out = live-NotIn m.heap (first r.0 r.1) q n fill.new own in
                rel.kept q n a out (fill.others q out ∙ own) lo hi ∙ fill.kept q n a own lo hi,
          ),
        )
