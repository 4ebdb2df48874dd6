-- ===== src/Examples/Hoard/Windows/Contract.antt =====
-- What the Windows files rely on in Hoard: `tlabs h p` says that a thread's heap is at `p`.
use alloc.Base.{ℕ, ◌≡◌, ◌≢◌, Bool, true, false}
use alloc.Machine.{Ptr, null, Machine, pure, ◌>>=◌, ◌>>◌}
use alloc.Machine.Yields.{Yields}
use alloc.Examples.Hoard.Windows.{MainHeap}

module _ {L : Type 0} (tlabs : L → Ptr → Bool) where
  -- No heap of a thread is made or ended.
  unfoldable pub Same : Machine L → Machine L → Type 0
  Same k k' = (p : Ptr) → tlabs k'.heap p ≡ tlabs k.heap p

  -- There is one more, at `p`.
  unfoldable pub Made : Machine L → Ptr → Machine L → Type 0
  Made k p k' =
      (p ≢ null)
      × (tlabs k.heap p ≡ false)
      × (tlabs k'.heap p ≡ true)
      × ((q : Ptr) → q ≢ p → tlabs k'.heap q ≡ tlabs k.heap q)

  -- The one at `p` is gone.
  unfoldable pub Ended : Machine L → Ptr → Machine L → Type 0
  Ended k p k' = (tlabs k'.heap p ≡ false) × ((q : Ptr) → q ≢ p → tlabs k'.heap q ≡ tlabs k.heap q)

  -- Hoard has memory, and the heaps of the threads are its own.
  pub record IsMainHeap (K : MainHeap L) (sizeof_tlab : ℕ) : Type 0 where
    pub make-Made :
        (k : Machine L) → Yields (Made k) ((do mh ← K.malloc sizeof_tlab; K.make mh; pure mh) k)
    pub tlab_malloc-Same :
        (p : Ptr) (sz : ℕ) (k : Machine L)
        → tlabs k.heap p ≡ true
        → Yields (λ q k'. (q ≢ null) × Same k k') (K.tlab_malloc p sz k)
    pub clear-Same :
        (p : Ptr) (k : Machine L) → tlabs k.heap p ≡ true → Yields (λ _ k'. Same k k') (K.clear p k)
    pub choose_zero-Same : (k : Machine L) → Yields (λ _ k'. Same k k') (K.choose_zero k)
    pub find_unused_heap-Same : (k : Machine L) → Yields (λ _ k'. Same k k') (K.find_unused_heap k)
    pub release_heap-Same : (k : Machine L) → Yields (λ _ k'. Same k k') (K.release_heap k)
    pub free-Ended :
        (p : Ptr) (k : Machine L)
        → tlabs k.heap p ≡ true
        → Yields (λ _ k'. Ended k p k') (K.free p k)
