-- ===== src/Programs/Owners.antt =====
-- Which variable has which block: the link between a program's variables and the heap.
use alloc.Base.{
  ℕ, ◌+◌, ◌≤◌, ◌<◌, ◌≡◌, refl, ◌≢◌, inl, inr, not, Option, none, some, arith, ◌==◌, if◌then◌else◌,
  ◌∙◌, sym, ap, eq→==, ne→==, ==→eq, ==→ne, Bool-cases,
}
use alloc.Machine.{Ptr, null, Machine}
use alloc.Heap.Contract.{WellFormed, KeepsBut}
use alloc.Programs.{Variables, put}
use alloc.Programs.Arrays.{Arrays, Others, Absent, OfSize}

-- The arrays that a program's variables stand for.
abbrev pub arrays : {H : Type 0} → Variables → Machine H → Arrays
arrays c m k = record {
  present = not (c.pointer k == null);
  size = c.size k;
  bytes = λ j. m.mem (c.pointer k + j);
}

module _ {H : Type 0} (live : H → Ptr → Option ℕ) where
  -- Each variable that is not null has a block to itself, which is large enough; every block has a variable.
  pub record Owned (c : Variables) (m : Machine H) : Type 0 where
    pub valid : WellFormed live m
    pub block :
        (k : ℕ)
        → c.pointer k ≢ null
        → (b : ℕ) × (live m.heap (c.pointer k) ≡ some b) × (c.size k ≤ b)
    pub empty : (k : ℕ) → c.pointer k ≡ null → c.size k ≡ 0
    pub unshared : (j k : ℕ) → j ≢ k → c.pointer j ≡ c.pointer k → c.pointer j ≡ null
    pub no_leak : (p : Ptr) (b : ℕ) → live m.heap p ≡ some b → (k : ℕ) × (c.pointer k ≡ p)

  -- In the place of the block at `p` (none where `p` is null) there is one of `n` bytes at `q` (none
  -- where `q` is null).
  pub record Replaced (p q : Ptr) (n : ℕ) (m m' : Machine H) : Type 0 where
    pub owned : q ≢ null → (b : ℕ) × (live m'.heap q ≡ some b) × (n ≤ b)
    pub unused : q ≢ null → q ≢ p → live m.heap q ≡ none
    pub gone : p ≢ q → live m'.heap p ≡ none
    pub others : (r : Ptr) → r ≢ p → r ≢ q → live m'.heap r ≡ live m.heap r
    pub kept : KeepsBut live p m m'
    pub valid : WellFormed live m'

put-here : (i : ℕ) (q : Ptr) (n : ℕ) (c : Variables) → (put i q n c).pointer i ≡ q
unfolding put
put-here i q n c = rw (eq→== i i refl) refl

size-put-here :
    (i : ℕ) (q : Ptr) (n : ℕ) (c : Variables) → (put i q n c).size i ≡ (if q == null then 0 else n)
unfolding put
size-put-here i q n c = rw (eq→== i i refl) refl

put-there :
    (i k : ℕ) (q : Ptr) (n : ℕ) (c : Variables) → k ≢ i → (put i q n c).pointer k ≡ c.pointer k
unfolding put
put-there i k q n c ne = rw (ne→== k i ne) refl

size-put-there :
    (i k : ℕ) (q : Ptr) (n : ℕ) (c : Variables) → k ≢ i → (put i q n c).size k ≡ c.size k
unfolding put
size-put-there i k q n c ne = rw (ne→== k i ne) refl

module _ {H : Type 0} (live : H → Ptr → Option ℕ) (c : Variables) (m m' : Machine H) (i q n : ℕ)
    (o : Owned live c m) (r : Replaced live (c.pointer i) q n m m') where
  -- A block of another variable is where it was.
  apart_block :
      (k : ℕ) → k ≢ i → c.pointer k ≢ null → (c.pointer k ≢ c.pointer i) × (c.pointer k ≢ q)
  apart_block k ne nn = (
    λ e. nn (o.unshared k i ne e),
    λ e.
        let b = o.block k nn in
        cc (
          r.unused (λ z. nn (e ∙ z)) (λ z. nn (o.unshared k i ne (e ∙ z))),
          b.1,
          ap (live m.heap) e,
        ),
  )

  block-put :
      (k : ℕ)
      → (put i q n c).pointer k ≢ null
      → (b : ℕ) × (live m'.heap ((put i q n c).pointer k) ≡ some b) × ((put i q n c).size k ≤ b)
  block-put k nn = elim (Bool-cases (k == i)) [
    | inl e ↦
        let k-is : k ≡ i = ==→eq k i e in
        let here = ap (put i q n c).pointer k-is ∙ put-here i q n c in
        let q0 : q ≢ null = λ z. nn (here ∙ z) in
        let (b, own, le) = r.owned q0 in
        (
          b,
          ap (live m'.heap) here ∙ own,
          rw (ap (put i q n c).size k-is ∙ size-put-here i q n c, ne→== q null q0) le,
        )
    | inr e ↦
        let ne = ==→ne k i e in
        let there = put-there i k q n c ne in
        let nn0 : c.pointer k ≢ null = λ z. nn (there ∙ z) in
        let (b, own, le) = o.block k nn0 in
        let ap_ = apart_block k ne nn0 in
        (
          b,
          ap (live m'.heap) there ∙ r.others (c.pointer k) ap_.0 ap_.1 ∙ own,
          rw (size-put-there i k q n c ne) le,
        )
  ]

  empty-put : (k : ℕ) → (put i q n c).pointer k ≡ null → (put i q n c).size k ≡ 0
  empty-put k z = elim (Bool-cases (k == i)) [
    | inl e ↦
        let k-is : k ≡ i = ==→eq k i e in
        let q0 : q ≡ null = sym (put-here i q n c) ∙ ap (put i q n c).pointer (sym k-is) ∙ z in
        ap (put i q n c).size k-is ∙ size-put-here i q n c ∙ rw (eq→== q null q0) refl
    | inr e ↦
        let ne = ==→ne k i e in
        size-put-there i k q n c ne ∙ o.empty k (sym (put-there i k q n c ne) ∙ z)
  ]

  -- A variable that has the new block, but is not `i`, is null.
  null_of_shared : (k : ℕ) → k ≢ i → c.pointer k ≡ q → c.pointer k ≡ null
  null_of_shared k ne e = elim (Bool-cases (c.pointer k == null)) [
    | inl z ↦ ==→eq (c.pointer k) null z
    | inr nn ↦ absurd ((apart_block k ne (==→ne (c.pointer k) null nn)).1 e)
  ]

  unshared-put :
      (j k : ℕ)
      → j ≢ k
      → (put i q n c).pointer j ≡ (put i q n c).pointer k
      → (put i q n c).pointer j ≡ null
  unshared-put j k ne e = elim (Bool-cases (j == i)) [
    | inl a ↦
        let j-is : j ≡ i = ==→eq j i a in
        let ki : k ≢ i = λ z. ne (j-is ∙ sym z) in
        let at-k = put-there i k q n c ki in
        let at-j = ap (put i q n c).pointer j-is ∙ put-here i q n c in
        e ∙ at-k ∙ null_of_shared k ki (sym at-k ∙ sym e ∙ at-j)
    | inr a ↦ elim (Bool-cases (k == i)) [
      | inl b ↦
          let at-j = put-there i j q n c (==→ne j i a) in
          let at-k = ap (put i q n c).pointer (==→eq k i b) ∙ put-here i q n c in
          at-j ∙ null_of_shared j (==→ne j i a) (sym at-j ∙ e ∙ at-k)
      | inr b ↦
          let at-j = put-there i j q n c (==→ne j i a) in
          let at-k = put-there i k q n c (==→ne k i b) in
          at-j ∙ o.unshared j k ne (sym at-j ∙ e ∙ at-k)
    ]
  ]

  no_leak-put :
      (p : Ptr) (b : ℕ) → live m'.heap p ≡ some b → (k : ℕ) × ((put i q n c).pointer k ≡ p)
  no_leak-put p b own = elim (Bool-cases (p == q)) [
    | inl e ↦ (i, put-here i q n c ∙ sym (==→eq p q e))
    | inr e ↦ elim (Bool-cases (p == c.pointer i)) [
      | inl e' ↦
          let p-is = ==→eq p (c.pointer i) e' in
          absurd (cc (r.gone (λ z. ==→ne p q e (p-is ∙ z)), own, ap (live m'.heap) p-is))
      | inr e' ↦
          let before = sym (r.others p (==→ne p _ e') (==→ne p q e)) ∙ own in
          let (k, at) = o.no_leak p b before in
          (k, put-there i k q n c (λ z. ==→ne p _ e' (sym at ∙ ap c.pointer z)) ∙ at)
    ]
  ]

  pub Owned-put : Owned live (put i q n c) m'
  Owned-put = record {
    valid = r.valid;
    block = block-put;
    empty = empty-put;
    unshared = unshared-put;
    no_leak = no_leak-put;
  }

  same_bytes :
      (k : ℕ)
      → k ≢ i
      → (j : ℕ) → j < c.size k
      → m'.mem ((put i q n c).pointer k + j) ≡ m.mem (c.pointer k + j)
  same_bytes k ne j lt = elim (Bool-cases (c.pointer k == null)) [
    | inl z ↦ absurd (omega (arith, o.empty k (==→eq (c.pointer k) null z)))
    | inr nn ↦
        let nn0 = ==→ne (c.pointer k) null nn in
        let (b, own, le) = o.block k nn0 in
        ap (λ (t : Ptr). m'.mem (t + j)) (put-there i k q n c ne)
        ∙ r.kept (c.pointer k) b (c.pointer k + j) (apart_block k ne nn0).0 own (omega arith)
            (omega (arith, le))
  ]

  pub Others-put : Others i (arrays c m) (arrays (put i q n c) m')
  Others-put k ne =
      let there = put-there i k q n c ne in
      record {
        present = ap (λ (t : Ptr). not (t == null)) there;
        size = size-put-there i k q n c ne;
        bytes = λ j lt. same_bytes k ne j lt;
      }

-- What the variable `i` has after the change.
module _ {H : Type 0} (c : Variables) (m : Machine H) (i q n : ℕ) where
  pub put-Absent : q ≡ null → Absent (arrays (put i q n c) m i)
  put-Absent e =
      (rw (put-here i q n c, eq→== q null e) refl, rw (size-put-here i q n c, eq→== q null e) refl)

  pub put-OfSize : q ≢ null → OfSize n (arrays (put i q n c) m i)
  put-OfSize ne = (
    rw (put-here i q n c, ne→== q null ne) refl,
    rw (size-put-here i q n c, ne→== q null ne) refl,
  )

  pub put-empty : n ≡ 0 → (put i q n c).size i ≡ 0
  put-empty z =
      size-put-here i q n c ∙ elim (Bool-cases (q == null)) [ inl e ↦ rw e refl | inr e ↦ rw e z ]

  pub put-bytes : (j : ℕ) → (arrays (put i q n c) m i).bytes j ≡ m.mem (q + j)
  put-bytes j = ap (λ (t : Ptr). m.mem (t + j)) (put-here i q n c)
