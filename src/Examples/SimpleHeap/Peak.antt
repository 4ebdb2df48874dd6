-- ===== src/Examples/SimpleHeap/Peak.antt =====
-- The peak that SimpleHeap keeps: malloc counts what was asked for, free what the block can hold.
use alloc.Base.{
  ℕ, ◌+◌, ◌-◌, ◌<◌, ◌≡◌, refl, ◌≢◌, false, if◌then◌else◌, arith, ltb, size_mod, ne→==, add_size,
  sub_size, Bool-cases, inl, inr, ◌∙◌,
}
use alloc.Machine.{Ptr, null}
use alloc.Examples.SimpleHeap.{
  State, is_init_buffer_ptr, simple_malloc, simple_free, simple_get_size, allocate,
  count_allocation, update_peak,
}

module _ (buffer : Ptr) where
  -- What a malloc that succeeds does to the counters.
  record Counted (sz : ℕ) (s s' : State) : Type 0 where
    initializing : s'.initializing ≡ s.initializing
    total_allocated : s'.total_allocated ≡ add_size s.total_allocated sz
    total_freed : s'.total_freed ≡ s.total_freed
    peak_usage : s'.peak_usage ≡ (
        let current = sub_size (add_size s.total_allocated sz) s.total_freed in
        if ltb s.peak_usage current then current else s.peak_usage)

  update_peak-Counted :
      (sz : ℕ) (s : State) → Counted sz s (update_peak buffer (count_allocation buffer sz s))
  unfolding update_peak count_allocation
  update_peak-Counted sz s =
      elim (Bool-cases
        (ltb s.peak_usage (sub_size (add_size s.total_allocated sz) s.total_freed))) [
          | inl b ↦ rw b (record {
            initializing = refl;
            total_allocated = refl;
            total_freed = refl;
            peak_usage = rw b refl;
          })
          | inr b ↦ rw b (record {
            initializing = refl;
            total_allocated = refl;
            total_freed = refl;
            peak_usage = rw b refl;
          })
        ]

  malloc-Counted :
      (p : Ptr) (sz : ℕ) (s : State)
      → s.initializing ≡ false
      → p ≢ null
      → Counted sz s (simple_malloc buffer p sz s).1
  unfolding simple_malloc allocate
  malloc-Counted p sz s init pn = rw (simple_eq) (update_peak-Counted sz s)
    where
      simple_eq :
          simple_malloc buffer p sz s ≡ (p, update_peak buffer (count_allocation buffer sz s))
      simple_eq = unfold simple_malloc allocate in rw (init, ne→== p null pn) refl

  free-counters :
      (p : Ptr) (usable : ℕ) (s : State)
      → p ≢ null
      → is_init_buffer_ptr buffer p ≡ false
      → (let s' = (simple_free buffer usable p s).1 in
          (s'.initializing ≡ s.initializing)
          × (s'.total_allocated ≡ s.total_allocated)
          × (s'.total_freed ≡ add_size s.total_freed usable)
          × (s'.peak_usage ≡ s.peak_usage))
  unfolding simple_free simple_get_size
  free-counters p usable s pn out = rw (ne→== p null pn, out) (refl, refl, refl, refl)

  -- Where nothing is counted yet and the malloc of libc is in use, a block of `sz` bytes that can hold
  -- `usable`, freed, and then a block of `sz'` bytes leave a peak of nearly 2^64 where the first block could
  -- hold more than the two sizes together: the difference of the counters has wrapped.
  pub peak-wraps :
      (p q : Ptr) (sz usable sz' : ℕ) (s : State)
      → s.initializing ≡ false
      → s.total_allocated ≡ 0
      → s.total_freed ≡ 0
      → s.peak_usage < size_mod - usable
      → p ≢ null
      → q ≢ null
      → is_init_buffer_ptr buffer p ≡ false
      → sz + sz' < usable
      → usable < size_mod
      → (let s1 = (simple_malloc buffer p sz s).1 in
          let s2 = (simple_free buffer usable p s1).1 in
          let s3 = (simple_malloc buffer q sz' s2).1 in
          s3.peak_usage ≡ size_mod - (usable - (sz + sz')))
  peak-wraps p q sz usable sz' s init a0 f0 peak pn qn out lt small =
      let s1 = (simple_malloc buffer p sz s).1 in
      let s2 = (simple_free buffer usable p s1).1 in
      let c1 = malloc-Counted p sz s init pn in
      let (i2, a2, f2, p2) = free-counters p usable s1 pn out in
      let c2 = malloc-Counted q sz' s2 (i2 ∙ c1.initializing ∙ init) qn in
      c2.peak_usage
      ∙ wraps s2.total_allocated s2.total_freed s2.peak_usage
          (a2 ∙ c1.total_allocated ∙ first_total) (f2 ∙ rw (c1.total_freed, f0) (omega arith))
          (rw (p2 ∙ c1.peak_usage) (rw (a0, f0) first_peak))
    where
      first_total : add_size s.total_allocated sz ≡ sz
      first_total = rw a0 (omega arith)

      first_peak :
          (let current = sub_size (add_size 0 sz) 0 in
            if ltb s.peak_usage current then current else s.peak_usage)
          < size_mod - (usable - (sz + sz'))
      first_peak = ground arith

      wraps :
          (total freed old : ℕ)
          → total ≡ sz
          → freed ≡ usable
          → old < size_mod - (usable - (sz + sz'))
          → (let current = sub_size (add_size total sz') freed in
              if ltb old current then current else old)
            ≡ size_mod - (usable - (sz + sz'))
      wraps total freed old et ef lo = ground arith
