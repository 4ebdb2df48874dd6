-- ===== src/Examples/Hoard/Windows/Redirected.antt =====
-- hoard_redirect_win.cpp over the redirection of src/platform/windows/alloc8_redirect.cpp: where the hooked
-- functions of the C runtime lead while the library is loaded, and what is left of it when it is freed.
use alloc.Base.{ℕ, ◌≡◌, refl, ◌≢◌, Bool, true, false, some, none, sym, ap, ◌∙◌}
use alloc.Machine.{Ptr, null, Machine, skip, pure, ◌>>=◌, ◌>>◌}
use alloc.Machine.Yields.{Yields, yields, sequence, weaken, yielded, first_returns}
use alloc.Windows.Hooks.{
  Globals, choose, hooked_malloc, hooked_free, hooked_calloc, hooked_realloc, hooked_msize,
  alloc8_redirect_init, alloc8_redirect_enable, alloc8_redirect_disable,
}
use alloc.Examples.Hoard.Windows.{
  WinState, MainHeap, with_heaps, heaps_do, from_heaps, tls_get_value, tls_set_value,
  win_initialize_custom_heap, win_get_custom_heap, win_xxmalloc, win_xxfree, win_xxcalloc,
  win_xxrealloc, win_xxmalloc_usable_size, win_callbacks, take_index, redirect_process_attach,
  redirect_process_detach,
}
use alloc.Examples.Hoard.Windows.Lifetimes.{Owned, get-HasHeap, HasHeap, fresh-Owned}
use alloc.Examples.Hoard.Windows.Contract.{IsMainHeap, Made}

module _ {L : Type 0} (K : MainHeap L) (sizeof_tlab np : ℕ) (buffer : Ptr) where
  -- The hooked functions are those of the interface over Hoard.
  pub LeadsToHoard : Globals (WinState L) → Type 0
  LeadsToHoard g =
      ((sz : ℕ) → hooked_malloc g sz ≡ win_xxmalloc K sizeof_tlab np buffer sz)
      × ((p : Ptr) → hooked_free g p ≡ win_xxfree K sizeof_tlab np buffer p)
      × ((n sz : ℕ) → hooked_calloc g n sz ≡ win_xxcalloc K sizeof_tlab np buffer n sz)
      × ((p : Ptr) (sz : ℕ) → hooked_realloc g p sz ≡ win_xxrealloc K sizeof_tlab np buffer p sz)
      × ((p : Ptr) → hooked_msize g p ≡ win_xxmalloc_usable_size K sizeof_tlab np buffer p)

  enabled-LeadsToHoard :
      (g : Globals (WinState L))
      → LeadsToHoard
          (alloc8_redirect_enable (alloc8_redirect_init (win_callbacks K sizeof_tlab np buffer) g))
  unfolding LeadsToHoard hooked_malloc hooked_free hooked_calloc hooked_realloc hooked_msize choose
      alloc8_redirect_enable alloc8_redirect_init win_callbacks
  enabled-LeadsToHoard g = (λ sz. refl, λ p. refl, λ n sz. refl, λ p sz. refl, λ p. refl)

module _ {L : Type 0} where
  -- The hooked functions are the originals that were saved, and do nothing where none was.
  pub LeadsToOriginals : Globals (WinState L) → Type 0
  LeadsToOriginals g =
      ((sz : ℕ) → hooked_malloc g sz ≡ elim g.orig.malloc [ some f ↦ f sz | none ↦ pure null ])
      × ((p : Ptr) → hooked_free g p ≡ elim g.orig.free [ some f ↦ f p | none ↦ skip ])
      × ((n sz : ℕ)
          → hooked_calloc g n sz ≡ elim g.orig.calloc [ some f ↦ f n sz | none ↦ pure null ])
      × ((p : Ptr) (sz : ℕ)
          → hooked_realloc g p sz ≡ elim g.orig.realloc [ some f ↦ f p sz | none ↦ pure null ])
      × ((p : Ptr) → hooked_msize g p ≡ elim g.orig.msize [ some f ↦ f p | none ↦ pure 0 ])

  disabled-LeadsToOriginals :
      (g : Globals (WinState L)) → LeadsToOriginals (alloc8_redirect_disable g)
  unfolding LeadsToOriginals hooked_malloc hooked_free hooked_calloc hooked_realloc hooked_msize
      choose alloc8_redirect_disable
  disabled-LeadsToOriginals g = (λ sz. refl, λ p. refl, λ n sz. refl, λ p sz. refl, λ p. refl)

module _ {L : Type 0} (tlabs : L → Ptr → Bool) (K : MainHeap L) (sizeof_tlab np : ℕ) (buffer : Ptr)
    (is : IsMainHeap tlabs K sizeof_tlab) where
  -- Where Hoard has memory and has made no heap for a thread, loading the library with a slot index returns,
  -- the main thread has a heap, and the five hooked functions are those of Hoard's interface; freeing the
  -- library then returns, and each hooked function is the original that was saved, or does nothing where none
  -- was.
  pub redirect-loads :
      (i : ℕ) (g : Globals (WinState L)) (m : Machine (WinState L))
      → ((p : Ptr) → tlabs m.heap.heaps p ≡ false)
      → Yields
          (λ r m1.
            (r.0 ≡ true)
            × Owned tlabs m1
            × (m1.heap.slots m1.heap.thread ≢ null)
            × LeadsToHoard K sizeof_tlab np buffer r.1
            × Yields
                (λ r' m2. (r'.0 ≡ true) × LeadsToOriginals r'.1)
                (redirect_process_detach null r.1 m1))
          (redirect_process_attach K sizeof_tlab np buffer (some i) g m)
  unfolding redirect_process_attach redirect_process_detach take_index HasHeap
  redirect-loads i g m none_yet =
      sequence (get-HasHeap tlabs K sizeof_tlab np buffer is _ (fresh-Owned tlabs i m none_yet))
        λ q m' (nn, (o, at)). yields (
          refl,
          o,
          (λ z. nn (sym at ∙ z)),
          enabled-LeadsToHoard K sizeof_tlab np buffer g,
          yields (
            refl,
            disabled-LeadsToOriginals (
                alloc8_redirect_enable
                  (alloc8_redirect_init (win_callbacks K sizeof_tlab np buffer) g)),
          ),
        )

  unindexed :
      (m : Machine (WinState L))
      → m.heap.tls_index ≡ none
      → Yields
          (λ p m'.
            (k : Machine L) × (m' ≡ with_heaps m k)
            × Made tlabs (record { heap = m.heap.heaps; mem = m.mem; errno = m.errno }) p k)
          (win_initialize_custom_heap K sizeof_tlab np buffer m)
  unfolding win_initialize_custom_heap heaps_do from_heaps with_heaps tls_set_value
  unindexed m gone =
      let (mh, k1, e1, y1) =
        first_returns _ (K.malloc sizeof_tlab (below m)) _ (is.make-Made (below m)) in
      let (_, k2, e2, y2) = first_returns _ (K.make mh k1) _ y1 in
      rw (e1, e2, gone) (yields (k2, refl, yielded _ mh k2 y2))
    where
      below : Machine (WinState L) → Machine L
      below x = record { heap = x.heap.heaps; mem = x.mem; errno = x.errno }

  unindexed-eq :
      (m : Machine (WinState L))
      → m.heap.tls_ready ≡ true
      → m.heap.tls_index ≡ none
      → win_get_custom_heap K sizeof_tlab np buffer m
        ≡ win_initialize_custom_heap K sizeof_tlab np buffer m
  unfolding win_get_custom_heap tls_get_value
  unindexed-eq m ready gone = rw (ready, gone) refl

  unindexed_get :
      (m : Machine (WinState L))
      → m.heap.tls_ready ≡ true
      → m.heap.tls_index ≡ none
      → Yields
          (λ p m'.
            (m'.heap.tls_ready ≡ true)
            × (m'.heap.tls_index ≡ none)
            × (p ≢ null)
            × (tlabs m.heap.heaps p ≡ false)
            × (tlabs m'.heap.heaps p ≡ true)
            × ((q : Ptr) → q ≢ p → tlabs m'.heap.heaps q ≡ tlabs m.heap.heaps q))
          (win_get_custom_heap K sizeof_tlab np buffer m)
  unfolding with_heaps Made
  unindexed_get m ready gone = rw (unindexed-eq m ready gone) (
      weaken (unindexed m gone)
        λ p m' (k, e, (nn, old, new, others)). rw e (ready, gone, nn, old, new, others))

  -- Once the library is freed, g_tlsReady stays set while there is no index: where Hoard has memory, two
  -- calls of getCustomHeap by one thread make two heaps, both of which stay in use.
  pub freed-makes_two_heaps :
      (g : Globals (WinState L)) (m : Machine (WinState L))
      → m.heap.tls_ready ≡ true
      → Yields
          (λ (r : Ptr × Ptr) m'.
            (r.0 ≢ r.1) × (tlabs m'.heap.heaps r.0 ≡ true) × (tlabs m'.heap.heaps r.1 ≡ true))
          ((do
            redirect_process_detach null g
            p ← win_get_custom_heap K sizeof_tlab np buffer
            q ← win_get_custom_heap K sizeof_tlab np buffer
            pure (p, q))
            m)
  unfolding redirect_process_detach
  freed-makes_two_heaps g m ready =
      sequence (unindexed_get (record m { heap = record m.heap { tls_index = none } }) ready refl)
        λ p m1 (ready1, gone1, nn1, old1, new1, others1).
          sequence (unindexed_get m1 ready1 gone1) λ q m2 (ready2, gone2, nn2, old2, new2, others2).
            let apart : p ≢ q = λ e. cc (new1, old2, ap (tlabs m1.heap.heaps) e) in
            yields (apart, others2 p apart ∙ new1, new2)
