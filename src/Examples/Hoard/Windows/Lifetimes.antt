-- ===== src/Examples/Hoard/Windows/Lifetimes.antt =====
-- The owners of the heaps that hoard_thread_hooks_win.cpp makes: the slots of the threads, at each of its
-- functions.
use alloc.Base.{
  ℕ, ◌≡◌, refl, ◌≢◌, sym, ◌∙◌, Bool, true, false, some, ◌==◌, if◌then◌else◌, inl, inr, eq→==, ne→==,
  ==→eq, ==→ne, Bool-cases, is_some,
}
use alloc.Machine.{Ptr, null, Machine, Run, M, ok, skip, ◌>>◌}
use alloc.Machine.Yields.{Yields, yields, sequence, weaken, yielded, first_returns}
use alloc.Examples.Hoard.Windows.{
  WinState, MainHeap, heaps_do, from_heaps, with_heaps, tls_get_value, tls_set_value, put_slot,
  win_initialize_custom_heap, win_get_custom_heap, win_xxthread_init, win_xxthread_cleanup,
  win_xxmalloc,
}
use alloc.Examples.Hoard.Windows.Contract.{IsMainHeap, Same, Made, Ended}
use alloc.Examples.Hoard.Windows.Slots.{Owns, Owns-fill, Owns-clear, Owns-same}

module _ {L : Type 0} (tlabs : L → Ptr → Bool) where
  -- The library is attached, and the slots are the owners of the heaps in use.
  pub record Owned (m : Machine (WinState L)) : Type 0 where
    pub ready : m.heap.tls_ready ≡ true
    pub indexed : is_some m.heap.tls_index ≡ true
    pub owners : Owns m.heap.slots (tlabs m.heap.heaps)

  -- A new index, while no thread has a heap.
  pub fresh-Owned :
      (i : ℕ) (m : Machine (WinState L))
      → ((p : Ptr) → tlabs m.heap.heaps p ≡ false)
      → Owned (record m {
        heap = record m.heap { tls_index = some i; slots = λ t. null; tls_ready = true };
      })
  fresh-Owned i m none_yet = record {
    ready = refl;
    indexed = refl;
    owners = record {
      in_use = λ t n. absurd (n refl);
      unshared = λ t u n e. absurd (n refl);
      no_leak = λ p live. absurd (cc (live, none_yet p));
    };
  }

  -- The slot of the thread that runs has `p`.
  unfoldable pub HasHeap : Ptr → Machine (WinState L) → Type 0
  HasHeap p m = Owned m × (m.heap.slots m.heap.thread ≡ p)

  -- The machine that Hoard sees.
  abbrev below : Machine (WinState L) → Machine L
  below m = record { heap = m.heap.heaps; mem = m.mem; errno = m.errno }

  lift_run :
      {A : Type 0} {P : A → Machine L → Type 0} (m : Machine (WinState L)) (r : Run L A)
      → Yields P r
      → Yields (λ a m'. (k : Machine L) × (m' ≡ with_heaps m k) × P a k) (from_heaps m r)
  unfolding from_heaps
  lift_run m r (yields {m = k} p) = yields (k, refl, p)

  -- A call that makes and ends no heap.
  lift-Same :
      {A : Type 0} (f : M L A) (Q : A → Type 0) (h : Ptr) (m : Machine (WinState L))
      → HasHeap h m
      → Yields (λ a k. Q a × Same tlabs (below m) k) (f (below m))
      → Yields (λ a m'. Q a × HasHeap h m') (heaps_do f m)
  unfolding heaps_do with_heaps Same HasHeap
  lift-Same f Q h m (o, at) y = weaken (lift_run m (f (below m)) y) λ a m' (k, e, (q, same)). (
    q,
    rw e (
      record {
        ready = o.ready;
        indexed = o.indexed;
        owners = Owns-same m.heap.slots m.heap.slots _ _ refl same o.owners;
      },
      at,
    ),
  )

  module _ (K : MainHeap L) (sizeof_tlab np : ℕ) (buffer : Ptr)
      (is : IsMainHeap tlabs K sizeof_tlab) where
    initialize-HasHeap :
        (m : Machine (WinState L))
        → HasHeap null m
        → Yields
            (λ p m'. (p ≢ null) × HasHeap p m')
            (win_initialize_custom_heap K sizeof_tlab np buffer m)
    unfolding win_initialize_custom_heap heaps_do from_heaps with_heaps tls_set_value put_slot
        HasHeap Made
    initialize-HasHeap m (o, empty) =
        let (mh, k1, e1, y1) =
          first_returns _ (K.malloc sizeof_tlab (below m)) _ (is.make-Made (below m)) in
        let (_, k2, e2, y2) = first_returns _ (K.make mh k1) _ y1 in
        rw (e1, e2, o.indexed) (finish mh k2 y2)
      where
        filled :
            (p : Ptr) (k : Machine L)
            → p ≢ null
            → tlabs m.heap.heaps p ≡ false
            → tlabs k.heap p ≡ true
            → ((q : Ptr) → q ≢ p → tlabs k.heap q ≡ tlabs m.heap.heaps q)
            → Owned (put_slot p (with_heaps m k))
        filled p k nn old new others = record {
          ready = o.ready;
          indexed = o.indexed;
          owners =
              Owns-fill m.heap.slots (tlabs m.heap.heaps) (tlabs k.heap) m.heap.thread p o.owners
                empty nn old new others;
        }

        finish :
            (p : Ptr) (k : Machine L)
            → Yields (Made tlabs (below m)) (ok p k)
            → Yields (λ q m'. (q ≢ null) × HasHeap q m') (ok p (put_slot p (with_heaps m k)))
        finish p k y =
            let (nn, old, new, others) = yielded _ p k y in
            yields (nn, (filled p k nn old new others, rw (eq→== m.heap.thread _ refl) refl))

    get-eq :
        (m : Machine (WinState L))
        → Owned m
        → win_get_custom_heap K sizeof_tlab np buffer m ≡ (
            if m.heap.slots m.heap.thread == null
            then win_initialize_custom_heap K sizeof_tlab np buffer m
            else ok (m.heap.slots m.heap.thread) m)
    unfolding win_get_custom_heap tls_get_value
    get-eq m o = elim (Bool-cases (m.heap.slots m.heap.thread == null)) [
      | inl b ↦ rw (o.ready, o.indexed, b) refl
      | inr b ↦ rw (o.ready, o.indexed, b) refl
    ]

    pub get-HasHeap :
        (m : Machine (WinState L))
        → Owned m
        → Yields (λ q m'. (q ≢ null) × HasHeap q m') (win_get_custom_heap K sizeof_tlab np buffer m)
    unfolding HasHeap
    get-HasHeap m o = elim (Bool-cases (m.heap.slots m.heap.thread == null)) [
      | inl b ↦ rw (get-eq m o, b) (initialize-HasHeap m (o, ==→eq _ null b))
      | inr b ↦ rw (get-eq m o, b) (yields (==→ne _ null b, (o, refl)))
    ]

    pub init-Owned :
        (m : Machine (WinState L))
        → Owned m
        → Yields (λ _ m'. Owned m') (win_xxthread_init K sizeof_tlab np buffer m)
    unfolding win_xxthread_init HasHeap
    init-Owned m o = sequence (get-HasHeap m o) λ q m1 (nn, has1). elim (Bool-cases (np == 1)) [
      | inl b ↦ rw b (
          weaken
            (lift-Same K.choose_zero (λ _. Unit) q m1 has1
              (weaken (is.choose_zero-Same (below m1)) λ _ k s. (tt, s)))
            λ _ m2 (_, has2). has2.0)
      | inr b ↦ rw b (
          weaken
            (lift-Same K.find_unused_heap (λ _. Unit) q m1 has1
              (weaken (is.find_unused_heap-Same (below m1)) λ _ k s. (tt, s)))
            λ _ m2 (_, has2). has2.0)
    ]

    live_slot :
        (m1 : Machine (WinState L)) (q : Ptr)
        → Owned m1
        → m1.heap.slots m1.heap.thread ≡ q
        → q ≢ null
        → tlabs m1.heap.heaps q ≡ true
    live_slot m1 q o1 at nn = rw (sym at) (o1.owners.in_use m1.heap.thread (λ z. nn (sym at ∙ z)))

    pub malloc-Owned :
        (sz : ℕ) (m : Machine (WinState L))
        → Owned m
        → Yields (λ r m'. (r ≢ null) × Owned m') (win_xxmalloc K sizeof_tlab np buffer sz m)
    unfolding win_xxmalloc HasHeap
    malloc-Owned sz m o = sequence (get-HasHeap m o) λ q m1 (nn, has1). rw (ne→== q null nn) (
        sequence
          (lift-Same (K.tlab_malloc q sz) (λ r. r ≢ null) q m1 has1
            (is.tlab_malloc-Same q sz (below m1) (live_slot m1 q has1.0 has1.1 nn)))
          λ r m2 (nz, has2). rw (ne→== r null nz) (yields (nz, has2.0)))

    cleanup-eq :
        (m : Machine (WinState L))
        → Owned m
        → win_xxthread_cleanup K sizeof_tlab np buffer m ≡ (
            if m.heap.slots m.heap.thread == null
            then ok tt m
            else (do
              heaps_do (K.clear (m.heap.slots m.heap.thread))
              if np == 1 then skip else heaps_do K.release_heap
              heaps_do (K.free (m.heap.slots m.heap.thread))
              tls_set_value null)
                m)
    unfolding win_xxthread_cleanup tls_get_value
    cleanup-eq m o = elim (Bool-cases (m.heap.slots m.heap.thread == null)) [
      | inl b ↦ rw (o.ready, o.indexed, b) refl
      | inr b ↦ rw (o.ready, o.indexed, b) refl
    ]

    release-HasHeap :
        (p : Ptr) (m : Machine (WinState L))
        → HasHeap p m
        → Yields (λ _ m'. HasHeap p m') ((if np == 1 then skip else heaps_do K.release_heap) m)
    release-HasHeap p m has = elim (Bool-cases (np == 1)) [
      | inl b ↦ rw b (yields has)
      | inr b ↦ rw b (
          weaken
            (lift-Same K.release_heap (λ _. Unit) p m has
              (weaken (is.release_heap-Same (below m)) λ _ k s. (tt, s)))
            λ _ m2 (_, has2). has2)
    ]

    free-Owned :
        (p : Ptr) (m : Machine (WinState L))
        → HasHeap p m
        → p ≢ null
        → Yields
            (λ _ m'. Owned m' × (m'.heap.slots m'.heap.thread ≡ null))
            ((do heaps_do (K.free p); tls_set_value null) m)
    unfolding heaps_do tls_set_value put_slot with_heaps Ended HasHeap
    free-Owned p m (o, at) nn =
        sequence
          (lift_run m (K.free p (below m)) (is.free-Ended p (below m) (live_slot m p o at nn)))
          λ _ m1 (k, e, (gone, others)).
            rw (e, o.indexed)
              (yields (
                record {
                  ready = o.ready;
                  indexed = o.indexed;
                  owners =
                      Owns-clear m.heap.slots (tlabs m.heap.heaps) (tlabs k.heap) m.heap.thread p
                        o.owners at nn gone others;
                },
                rw (eq→== m.heap.thread _ refl) refl,
              ))

    pub cleanup-Owned :
        (m : Machine (WinState L))
        → Owned m
        → Yields
            (λ _ m'. Owned m' × (m'.heap.slots m'.heap.thread ≡ null))
            (win_xxthread_cleanup K sizeof_tlab np buffer m)
    unfolding HasHeap
    cleanup-Owned m o = elim (Bool-cases (m.heap.slots m.heap.thread == null)) [
      | inl b ↦ rw (cleanup-eq m o, b) (yields (o, ==→eq _ null b))
      | inr b ↦
          let p = m.heap.slots m.heap.thread in
          let nn : p ≢ null = ==→ne _ null b in
          rw (cleanup-eq m o, b)
            (sequence
              (lift-Same (K.clear p) (λ _. Unit) p m (o, refl)
                (weaken (is.clear-Same p (below m) (live_slot m p o refl nn)) λ _ k s. (tt, s)))
              λ _ m1 (_, has1).
                sequence (release-HasHeap p m1 has1) λ _ m2 has2. free-Owned p m2 has2 nn)
    ]
