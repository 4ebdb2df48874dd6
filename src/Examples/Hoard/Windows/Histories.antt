-- ===== src/Examples/Hoard/Windows/Histories.antt =====
-- The histories of a process under hoard_thread_hooks_win.cpp: the library is loaded, and then threads
-- start, allocate and end, in any order.
use alloc.Base.{ℕ, ◌≡◌, refl, Bool, true, false, some, List, [], ◌∷◌}
use alloc.Machine.{Ptr, null, Machine, M, ok, skip, ◌>>◌}
use alloc.Machine.Yields.{Yields, yields, sequence, weaken}
use alloc.Examples.Hoard.Windows.{
  WinState, MainHeap, win_process_attach, win_thread_attach, win_thread_detach, win_xxmalloc,
  mark_thread_created, take_index,
}
use alloc.Examples.Hoard.Windows.Contract.{IsMainHeap}
use alloc.Examples.Hoard.Windows.Lifetimes.{
  Owned, fresh-Owned, get-HasHeap, HasHeap, init-Owned, malloc-Owned, cleanup-Owned,
}

-- A thread starts, ends, or asks for a block.
pub data Event : Type 0 where
  attaches : (thread : ℕ) → Event
  detaches : (thread : ℕ) → Event
  allocates : (thread sz : ℕ) → Event

on_thread : {L : Type 0} → ℕ → M (WinState L) (Unit {0})
on_thread t m = ok tt (record m { heap = record m.heap { thread = t } })

module _ {L : Type 0} (K : MainHeap L) (sizeof_tlab np : ℕ) (buffer : Ptr) where
  pub handle : Event → M (WinState L) (Unit {0})
  unfolding on_thread
  handle (attaches t) = do on_thread t; win_thread_attach K sizeof_tlab np buffer
  handle (detaches t) = do on_thread t; win_thread_detach K sizeof_tlab np buffer
  handle (allocates t sz) = do on_thread t; win_xxmalloc K sizeof_tlab np buffer sz; skip

  pub handle_all : List Event → M (WinState L) (Unit {0})
  unfolding handle
  handle_all [] = skip
  handle_all (e ∷ es) = do handle e; handle_all es

module _ {L : Type 0} (tlabs : L → Ptr → Bool) (K : MainHeap L) (sizeof_tlab np : ℕ) (buffer : Ptr)
    (is : IsMainHeap tlabs K sizeof_tlab) where
  moved_thread :
      (t : ℕ) (m : Machine (WinState L))
      → Owned tlabs m
      → Owned tlabs (record m { heap = record m.heap { thread = t } })
  moved_thread t m o = record { ready = o.ready; indexed = o.indexed; owners = o.owners }

  marked :
      (m : Machine (WinState L))
      → Owned tlabs m
      → Owned tlabs (record m { heap = record m.heap { any_thread_created = true } })
  marked m o = record { ready = o.ready; indexed = o.indexed; owners = o.owners }

  detach-Owned :
      (t : ℕ) (m : Machine (WinState L))
      → Owned tlabs m
      → Yields
          (λ _ m'. Owned tlabs m' × (m'.heap.slots m'.heap.thread ≡ null))
          (handle K sizeof_tlab np buffer (detaches t) m)
  unfolding handle on_thread win_thread_detach
  detach-Owned t m o =
      cleanup-Owned tlabs K sizeof_tlab np buffer is
        (record m { heap = record m.heap { thread = t } }) (moved_thread t m o)

  handle-Owned :
      (e : Event) (m : Machine (WinState L))
      → Owned tlabs m
      → Yields (λ _ m'. Owned tlabs m') (handle K sizeof_tlab np buffer e m)
  unfolding handle on_thread win_thread_attach mark_thread_created
  handle-Owned (attaches t) m o =
      init-Owned tlabs K sizeof_tlab np buffer is _ (marked _ (moved_thread t m o))
  handle-Owned (detaches t) m o = weaken (detach-Owned t m o) λ _ m' (o', empty). o'
  handle-Owned (allocates t sz) m o =
      sequence (malloc-Owned tlabs K sizeof_tlab np buffer is sz _ (moved_thread t m o))
        λ r m' (nn, o'). yields o'

  pub handle_all-Owned :
      (es : List Event) (m : Machine (WinState L))
      → Owned tlabs m
      → Yields (λ _ m'. Owned tlabs m') (handle_all K sizeof_tlab np buffer es m)
  unfolding handle_all
  handle_all-Owned [] m o = yields o
  handle_all-Owned (e ∷ es) m o = sequence (handle-Owned e m o) λ _ m' o'. handle_all-Owned es m' o'

  attach-Owned :
      {E : Type 0} (i : ℕ) (initialize_alloc8 : E → E) (e : E) (m : Machine (WinState L))
      → ((p : Ptr) → tlabs m.heap.heaps p ≡ false)
      → Yields
          (λ r m'. (r ≡ (true, initialize_alloc8 e)) × Owned tlabs m')
          (win_process_attach K sizeof_tlab np buffer (some i) initialize_alloc8 e m)
  unfolding win_process_attach take_index HasHeap
  attach-Owned i initialize_alloc8 e m none_yet =
      sequence (get-HasHeap tlabs K sizeof_tlab np buffer is _ (fresh-Owned tlabs i m none_yet))
        λ q m' (nn, (o, at)). yields (refl, o)

  -- Where Hoard has memory and has made no heap for a thread, loading the library with a slot index, then any
  -- sequence of threads that start, allocate and end, and the end of a thread all return, with every heap in
  -- use in the slot of one thread, no thread's slot with a heap that is not in use or another thread's, and
  -- the slot of the thread that ended empty.
  pub history-Owned :
      {E : Type 0} (i : ℕ) (initialize_alloc8 : E → E) (e : E) (es : List Event) (t : ℕ)
      (m : Machine (WinState L))
      → ((p : Ptr) → tlabs m.heap.heaps p ≡ false)
      → Yields
          (λ _ m'. Owned tlabs m' × (m'.heap.slots m'.heap.thread ≡ null))
          ((do
            win_process_attach K sizeof_tlab np buffer (some i) initialize_alloc8 e
            handle_all K sizeof_tlab np buffer es
            handle K sizeof_tlab np buffer (detaches t))
            m)
  history-Owned i initialize_alloc8 e es t m none_yet =
      sequence (attach-Owned i initialize_alloc8 e m none_yet)
        λ r m1 (_, o1). sequence (handle_all-Owned es m1 o1) λ _ m2 o2. detach-Owned t m2 o2
