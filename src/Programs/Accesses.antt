-- ===== src/Programs/Accesses.antt =====
-- Reads and writes through a variable.
use alloc.Base.{
  ℕ, ◌+◌, ◌≤◌, ◌<◌, ◌≡◌, refl, ◌≢◌, inl, inr, Option, some, arith, ◌==◌, sym, ltb, ==→eq, ==→ne,
  Bool-cases, is_some, ltb→lt, ltb→le, true, some_of_is_some,
}
use alloc.Machine.{Ptr, null, Machine, Memory, ok, filled, store, load}
use alloc.Machine.Memory.{memset-ok}
use alloc.Machine.Yields.{Yields, yields}
use alloc.Heap.Writes.{WritesIn, write-WellFormed, write-KeepsBut}
use alloc.Programs.{Variables, Libc, exec, writes, reads}
use alloc.Programs.Arrays.{Step, Written, SameArray-refl}
use alloc.Programs.Owners.{Owned, arrays}

module _ {H : Type 0} (live : H → Ptr → Option ℕ) (C : Libc H) (c : Variables) (m : Machine H)
    (o : Owned live c m) (i j : ℕ) where
  -- A variable with a size is not null.
  has_block : j < c.size i → c.pointer i ≢ null
  has_block lt z = omega (arith, o.empty i z)

  here : j < c.size i → is_some (m.mem (c.pointer i + j)) ≡ true
  here lt =
      let (b, own, le) = o.block i (has_block lt) in
      o.valid.blocks_mapped (c.pointer i) b (c.pointer i + j) own (omega arith) (omega (arith, le))

  module _ (v : ℕ) (lt : j < c.size i) where
    after : Memory
    after = filled m.mem (c.pointer i + j) v 1

    after-WritesIn : WritesIn (c.pointer i) (o.block i (has_block lt)).0 m.mem after
    unfolding after
    after-WritesIn = record {
      outside = λ a out. ground (arith, (o.block i (has_block lt)).2);
      mapped_still = λ a h. ground arith;
    }

    Owned-write : Owned live c (record m { mem = after })
    Owned-write = record {
      valid = write-WellFormed live m (c.pointer i) _ after o.valid after-WritesIn;
      block = o.block;
      empty = o.empty;
      unshared = o.unshared;
      no_leak = o.no_leak;
    }

    kept_byte :
        (k : ℕ) → k ≢ i → (l : ℕ) → l < c.size k → after (c.pointer k + l) ≡ m.mem (c.pointer k + l)
    kept_byte k ne l lt' = elim (Bool-cases (c.pointer k == null)) [
      | inl z ↦ absurd (omega (arith, o.empty k (==→eq (c.pointer k) null z)))
      | inr z ↦
          let nz = ==→ne (c.pointer k) null z in
          let (b, own, le) = o.block k nz in
          write-KeepsBut live m (c.pointer i) (o.block i (has_block lt)).0 after o.valid
            after-WritesIn (o.block i (has_block lt)).1 (c.pointer k) b (c.pointer k + l)
            (λ e. nz (o.unshared k i ne e)) own (omega arith) (omega (arith, le))
    ]

    written : Written j v (arrays c m i) (arrays c (record m { mem = after }) i)
    unfolding after
    written = record {
      present = refl;
      size = refl;
      byte = ground arith;
      rest = λ k ne _. ground arith;
    }

    store-ok : store (c.pointer i + j) v m ≡ ok tt (record m { mem = after })
    unfolding store after
    store-ok = memset-ok m (c.pointer i + j) v 1 λ a lo hi. rw (sym (at a lo hi)) (here lt)
      where
        at : (a : Ptr) → c.pointer i + j ≤ a → a < c.pointer i + j + 1 → c.pointer i + j ≡ a
        at a lo hi = omega arith

  -- What a statement gives: the variables still own their blocks, and the arrays make the step.
  pub writes-Step :
      (v : ℕ)
      → Yields
          (λ r m'. Owned live r.0 m' × Step (writes i j v) (arrays c m) r.1 (arrays r.0 m'))
          (exec C (writes i j v) c m)
  unfolding exec Step
  writes-Step v = elim (Bool-cases (ltb j (c.size i))) [
    | inl e ↦
        let lt = ltb→lt j (c.size i) e in
        rw (e, store-ok v lt)
          (yields (
            Owned-write v lt,
            (
              refl,
              λ k ne. record { present = refl; size = refl; bytes = kept_byte v lt k ne },
              inl (lt, written v lt),
            ),
          ))
    | inr e ↦
        let le = ltb→le j (c.size i) e in
        rw e (yields (o, (refl, λ k ne. SameArray-refl, inr (le, SameArray-refl))))
  ]

  load-ok : (p : Ptr) (v : ℕ) → m.mem p ≡ some v → load p m ≡ ok v m
  unfolding load
  load-ok p v e = rw (load, e) refl

  pub reads-Step :
      Yields
        (λ r m'. Owned live r.0 m' × Step (reads i j) (arrays c m) r.1 (arrays r.0 m'))
        (exec C (reads i j) c m)
  unfolding exec Step
  reads-Step = elim (Bool-cases (ltb j (c.size i))) [
    | inl e ↦
        let lt = ltb→lt j (c.size i) e in
        let (v, at) = some_of_is_some (m.mem (c.pointer i + j)) (here lt) in
        rw (e, load-ok (c.pointer i + j) v at)
          (yields (o, (λ k ne. SameArray-refl, SameArray-refl, inl (v, lt, at, refl))))
    | inr e ↦
        let le = ltb→le j (c.size i) e in
        rw e (yields (o, (λ k ne. SameArray-refl, SameArray-refl, inr (le, refl))))
  ]
