-- ===== src/Examples/Hoard/Windows/Slots.antt =====
-- The slots of thread-local storage against the heaps in use: one slot is filled or cleared at a time.
use alloc.Base.{
  ℕ, ◌≡◌, ◌≢◌, refl, sym, ap, ◌∙◌, Bool, true, false, ◌==◌, if◌then◌else◌, inl, inr, Bool-cases,
  ==→eq, ==→ne, eq→==, ne→==, arith,
}
use alloc.Machine.{Ptr, null}

-- A thread's slot is null or has a heap in use, no two threads have the same heap, and each heap in use
-- is in the slot of a thread.
pub record Owns (slots : ℕ → Ptr) (live : Ptr → Bool) : Type 0 where
  pub in_use : (t : ℕ) → slots t ≢ null → live (slots t) ≡ true
  pub unshared : (t u : ℕ) → slots t ≢ null → slots t ≡ slots u → t ≡ u
  pub no_leak : (p : Ptr) → live p ≡ true → (t : ℕ) × (slots t ≡ p) × (p ≢ null)

distinct_of_live : (f : Ptr → Bool) (a b : Ptr) → f a ≡ true → f b ≡ false → a ≢ b
distinct_of_live f a b yes_a no_b e = ground (arith, sym yes_a ∙ ap f e ∙ no_b)

-- A new heap, for the thread `c`.
pub Owns-fill :
    (slots : ℕ → Ptr) (live live' : Ptr → Bool) (c : ℕ) (p : Ptr)
    → Owns slots live
    → slots c ≡ null
    → p ≢ null
    → live p ≡ false
    → live' p ≡ true
    → ((q : Ptr) → q ≢ p → live' q ≡ live q)
    → Owns (λ t. if t == c then p else slots t) live'
Owns-fill slots live live' c p o empty nn old new others = record {
  in_use = λ t. elim (Bool-cases (t == c)) [
    | inl b ↦ rw b (λ n. new)
    | inr b ↦ rw b (λ n. others (slots t) (apart t n) ∙ o.in_use t n)
  ];
  unshared = λ t u. elim (Bool-cases (t == c)) [
    | inl b ↦ elim (Bool-cases (u == c)) [
      | inl b' ↦ λ n e. ==→eq t c b ∙ sym (==→eq u c b')
      | inr b' ↦ rw (b, b') (λ n e. absurd (apart u (λ z. n (e ∙ z)) (sym e)))
    ]
    | inr b ↦ elim (Bool-cases (u == c)) [
      | inl b' ↦ rw (b, b') (λ n e. absurd (apart t n e))
      | inr b' ↦ rw (b, b') (λ n e. o.unshared t u n e)
    ]
  ];
  no_leak = λ q own. elim (Bool-cases (q == p)) [
    | inl b ↦ (c, rw (eq→== c c refl) (sym (==→eq q p b)), λ z. nn (sym (==→eq q p b) ∙ z))
    | inr b ↦
        let (t, at, nz) = o.no_leak q (sym (others q (==→ne q p b)) ∙ own) in
        (t, rw (ne→== t c (λ e. nz (sym at ∙ ap slots e ∙ empty))) at, nz)
  ];
}
  where
    apart : (t : ℕ) → slots t ≢ null → slots t ≢ p
    apart t n = distinct_of_live live (slots t) p (o.in_use t n) old

-- The heap of the thread `c` is gone.
pub Owns-clear :
    (slots : ℕ → Ptr) (live live' : Ptr → Bool) (c : ℕ) (p : Ptr)
    → Owns slots live
    → slots c ≡ p
    → p ≢ null
    → live' p ≡ false
    → ((q : Ptr) → q ≢ p → live' q ≡ live q)
    → Owns (λ t. if t == c then null else slots t) live'
Owns-clear slots live live' c p o at nn gone others = record {
  in_use = λ t. elim (Bool-cases (t == c)) [
    | inl b ↦ rw b (λ n. absurd (n refl))
    | inr b ↦
        rw b
          (λ n. others (slots t) (λ e. ==→ne t c b (o.unshared t c n (e ∙ sym at))) ∙ o.in_use t n)
  ];
  unshared = λ t u. elim (Bool-cases (t == c)) [
    | inl b ↦ rw b (λ n e. absurd (n refl))
    | inr b ↦ elim (Bool-cases (u == c)) [
      | inl b' ↦ rw (b, b') (λ n e. absurd (n e))
      | inr b' ↦ rw (b, b') (λ n e. o.unshared t u n e)
    ]
  ];
  no_leak = λ q own.
      let q-ne-p : q ≢ p = distinct_of_live live' q p own gone in
      let (t, here, nz) = o.no_leak q (sym (others q q-ne-p) ∙ own) in
      (t, rw (ne→== t c (λ e. q-ne-p (sym here ∙ ap slots e ∙ at))) here, nz);
}

-- Nothing is made and nothing is gone.
pub Owns-same :
    (slots slots' : ℕ → Ptr) (live live' : Ptr → Bool)
    → slots' ≡ slots
    → ((q : Ptr) → live' q ≡ live q)
    → Owns slots live
    → Owns slots' live'
Owns-same slots slots' live live' s same o = record {
  in_use = λ t. rw s (λ n. same (slots t) ∙ o.in_use t n);
  unshared = rw s o.unshared;
  no_leak = λ p own. rw s (o.no_leak p (sym (same p) ∙ own));
}
