-- ===== src/Programs/Replacing.antt =====
-- How the calls of malloc, free and realloc replace the block of a variable.
use alloc.Base.{
  ℕ, ◌+◌, ◌<◌, ◌≡◌, refl, ◌≢◌, ◌⊎◌, inl, inr, Option, none, arith, ◌==◌, ◌∙◌, sym, ap, ==→eq, ==→ne,
  Bool-cases,
}
use alloc.Machine.{Ptr, null, Machine}
use alloc.Heap.Contract.{WellFormed, Allocated, Failed, Fresh, Freed, Moved}
use alloc.Programs.{Variables, put}
use alloc.Programs.Arrays.{SameArray, Absent, OfSize}
use alloc.Programs.Owners.{Owned, Replaced, arrays, put-Absent, put-OfSize}

module _ {H : Type 0} (live : H → Ptr → Option ℕ) where
  pub Replaced-Freed :
      (p : Ptr) (m m' : Machine H) → Freed live p m tt m' → Replaced live p null 0 m m'
  Replaced-Freed p m m' fr = record {
    owned = λ ne. absurd (ne refl);
    unused = λ ne. absurd (ne refl);
    gone = λ _. fr.gone;
    others = λ r ne _. fr.others r ne;
    kept = fr.kept;
    valid = fr.valid;
  }

  pub Replaced-nothing : (m : Machine H) → WellFormed live m → Replaced live null null 0 m m
  Replaced-nothing m w = record {
    owned = λ ne. absurd (ne refl);
    unused = λ ne. absurd (ne refl);
    gone = λ ne. absurd (ne refl);
    others = λ _ _ _. refl;
    kept = λ _ _ _ _ _ _ _. refl;
    valid = w;
  }

  pub Replaced-Failed :
      (q : Ptr) (n : ℕ) (m m' : Machine H) → Failed live m q m' → Replaced live null q n m m'
  Replaced-Failed q n m m' f = record {
    owned = λ ne. absurd (ne f.is_null);
    unused = λ ne. absurd (ne f.is_null);
    gone = λ ne. absurd (ne (sym f.is_null));
    others = λ r _ _. f.same r;
    kept = λ r k a _. f.kept r k a;
    valid = f.valid;
  }

  pub Replaced-Fresh :
      (q : Ptr) (n : ℕ) (m m' : Machine H) → Fresh live n m q m' → Replaced live null q n m m'
  Replaced-Fresh q n m m' new = record {
    owned = λ _. (new.size, new.owned, new.enough);
    unused = λ _ _. new.unused;
    gone = λ _. new.valid.null_free;
    others = λ r _ ne. new.others r ne;
    kept = λ r k a _. new.kept r k a;
    valid = new.valid;
  }

  pub Replaced-Moved :
      (p q : Ptr) (old n : ℕ) (m m' : Machine H)
      → Moved live p old n m q m'
      → Replaced live p q n m m'
  Replaced-Moved p q old n m m' mv = record {
    owned = λ _. (mv.size, mv.owned, mv.enough);
    unused = λ _. mv.unused;
    gone = λ ne. mv.gone (λ e. ne (sym e));
    others = mv.others;
    kept = mv.kept;
    valid = mv.valid;
  }

  -- First the block goes, and then there is a new one.
  module _ (p q : Ptr) (k n : ℕ) (m m1 m' : Machine H) (w : WellFormed live m)
      (r : Replaced live p null k m m1) (s : Replaced live null q n m1 m') where
    others : (t : Ptr) → t ≢ p → t ≢ q → live m'.heap t ≡ live m.heap t
    others t np nq = elim (Bool-cases (t == null)) [
      | inl z ↦
          let at = ==→eq t null z in
          ap (live m'.heap) at ∙ s.valid.null_free ∙ sym (ap (live m.heap) at ∙ w.null_free)
      | inr z ↦ let nz = ==→ne t null z in s.others t nz nq ∙ r.others t np nz
    ]

    gone : p ≢ q → live m'.heap p ≡ none
    gone ne = elim (Bool-cases (p == null)) [
      | inl z ↦ ap (live m'.heap) (==→eq p null z) ∙ s.valid.null_free
      | inr z ↦ let nz = ==→ne p null z in s.others p nz ne ∙ r.gone nz
    ]

    pub Replaced-trans : Replaced live p q n m m'
    Replaced-trans = record {
      owned = s.owned;
      unused = λ nz np. sym (r.others q np nz) ∙ s.unused nz nz;
      gone = gone;
      others = others;
      kept = λ t b a np own lo hi.
          let nz : t ≢ null = λ z. cc (own, w.null_free, ap (live m.heap) z) in
          s.kept t b a nz (r.others t np nz ∙ own) lo hi ∙ r.kept t b a np own lo hi;
      valid = s.valid;
    }

  -- A call that failed leaves every array as it was.
  module _ (c : Variables) (q : Ptr) (m m' : Machine H) (o : Owned live c m)
      (f : Failed live m q m') where
    pub Owned-Failed : Owned live c m'
    Owned-Failed = record {
      valid = f.valid;
      block = λ k nn. let (b, own, le) = o.block k nn in (b, f.same (c.pointer k) ∙ own, le);
      empty = o.empty;
      unshared = o.unshared;
      no_leak = λ p b own. o.no_leak p b (sym (f.same p) ∙ own);
    }

    kept_byte : (k j : ℕ) → j < c.size k → m'.mem (c.pointer k + j) ≡ m.mem (c.pointer k + j)
    kept_byte k j lt = elim (Bool-cases (c.pointer k == null)) [
      | inl z ↦ absurd (omega (arith, o.empty k (==→eq (c.pointer k) null z)))
      | inr z ↦
          let (b, own, le) = o.block k (==→ne (c.pointer k) null z) in
          f.kept (c.pointer k) b (c.pointer k + j) own (omega arith) (omega (arith, le))
    ]

    pub SameArray-Failed : (k : ℕ) → SameArray (arrays c m k) (arrays c m' k)
    SameArray-Failed k = record { present = refl; size = refl; bytes = kept_byte k }

  -- What a variable has after an allocation.
  pub put-Allocated :
      (c : Variables) (i n : ℕ) (m m' : Machine H) (q : Ptr)
      → Allocated live n m q m'
      → Absent (arrays (put i q n c) m' i) ⊎ OfSize n (arrays (put i q n c) m' i)
  put-Allocated c i n m m' q (inl f) = inl (put-Absent c m' i q n f.is_null)
  put-Allocated c i n m m' q (inr new) = inr (put-OfSize c m' i q n new.nonnull)
