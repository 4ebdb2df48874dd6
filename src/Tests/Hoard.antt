-- ===== src/Tests/Hoard.antt =====
-- The theorems on Hoard's Windows files, over a main heap that gives its memory out once.
use alloc.Base.{
  ℕ, suc, ◌≡◌, ◌≢◌, refl, Bool, true, false, ◌&&◌, none, some, leb, ◌==◌, if◌then◌else◌, [], ◌∷◌,
  arith, eq→==, ne→==,
}
use alloc.Machine.{Ptr, null, Machine, M, ok, pure, skip, ◌>>=◌, ◌>>◌}
use alloc.Machine.Yields.{Yields, yields}
use alloc.Windows.Hooks.{Callbacks, Globals}
use alloc.Examples.Hoard.Windows.{
  WinState, MainHeap, win_process_attach, win_get_custom_heap, redirect_process_attach,
  redirect_process_detach,
}
use alloc.Examples.Hoard.Windows.Lifetimes.{Owned}
use alloc.Examples.Hoard.Windows.Contract.{IsMainHeap, Same, Made, Ended}
use alloc.Examples.Hoard.Windows.Histories.{
  attaches, detaches, allocates, handle, handle_all, history-Owned,
}
use alloc.Examples.Hoard.Windows.Redirected.{
  LeadsToHoard, LeadsToOriginals, redirect-loads, freed-makes_two_heaps,
}

-- The addresses up to `last` are given out, and `used` are heaps of threads.
record Pool : Type 0 where
  last : ℕ
  used : Ptr → Bool

tlabs : Pool → Ptr → Bool
tlabs h p = leb p h.last && h.used p

abbrev next_block : ℕ → M Pool Ptr
next_block n m = ok (suc m.heap.last) (record m { heap = record m.heap { last = suc m.heap.last } })

abbrev use_block : Bool → Ptr → M Pool (Unit {0})
use_block b p m =
    ok tt (record m { heap = record m.heap { used = λ q. if q == p then b else m.heap.used q } })

abbrev pool : MainHeap Pool
pool = record {
  malloc = next_block;
  free = use_block false;
  make = use_block true;
  tlab_malloc = λ h n. pure 8;
  tlab_free = λ h p. skip;
  tlab_get_size = λ h p. pure 16;
  clear = λ h. skip;
  choose_zero = skip;
  find_unused_heap = skip;
  release_heap = skip;
}

after_make : Machine Pool → Machine Pool
after_make k = record k {
  heap = record {
    last = suc k.heap.last;
    used = λ q. if q == suc k.heap.last then true else k.heap.used q;
  };
}

Made-block : (k : Machine Pool) → Made tlabs k (suc k.heap.last) (after_make k)
unfolding Made tlabs after_make
Made-block k = (
  (λ z. omega arith),
  ground arith,
  rw (eq→== (suc k.heap.last) _ refl) (ground arith),
  λ q ne. rw (ne→== q (suc k.heap.last) ne) (ground arith),
)

after_free : Ptr → Machine Pool → Machine Pool
after_free p k = record k {
  heap = record k.heap { used = λ q. if q == p then false else k.heap.used q };
}

Ended-block : (p : Ptr) (k : Machine Pool) → Ended tlabs k p (after_free p k)
unfolding Ended tlabs after_free
Ended-block p k = (rw (eq→== p p refl) (ground arith), λ q ne. rw (ne→== q p ne) refl)

pool-IsMainHeap : IsMainHeap tlabs pool 64
unfolding tlabs Same after_make after_free
pool-IsMainHeap = record {
  make-Made = λ k. yields (Made-block k);
  tlab_malloc-Same = λ p sz k e. yields ((λ z. omega arith), λ q. refl);
  clear-Same = λ p k e. yields (λ q. refl);
  choose_zero-Same = λ k. yields (λ q. refl);
  find_unused_heap-Same = λ k. yields (λ q. refl);
  release_heap-Same = λ k. yields (λ q. refl);
  free-Ended = λ p k e. yields (Ended-block p k);
}

-- The process before the library is loaded.
abbrev unloaded : Machine (WinState Pool)
unloaded = record {
  heap = record {
    thread = 0;
    tls_index = none;
    tls_ready = false;
    any_thread_created = false;
    slots = λ t. null;
    buffer_pos = 0;
    heaps = record { last = 0; used = λ p. false };
  };
  mem = λ a. none;
  errno = 0;
}

unloaded-none : (p : Ptr) → tlabs unloaded.heap.heaps p ≡ false
unfolding tlabs
unloaded-none p = ground arith

history_example :
    Yields
      (λ _ m'. Owned tlabs m' × (m'.heap.slots m'.heap.thread ≡ null))
      ((do
        win_process_attach pool 64 4 4096 (some 3) suc 0
        handle_all pool 64 4 4096 (attaches 1 ∷ allocates 1 100 ∷ attaches 2 ∷ detaches 1 ∷ [])
        handle pool 64 4 4096 (detaches 2))
        unloaded)
history_example =
    history-Owned tlabs pool 64 4 4096 pool-IsMainHeap 3 suc 0
      (attaches 1 ∷ allocates 1 100 ∷ attaches 2 ∷ detaches 1 ∷ []) 2 unloaded unloaded-none

abbrev nothing : Callbacks (WinState Pool)
nothing = record { malloc = none; free = none; calloc = none; realloc = none; msize = none }

abbrev globals : Globals (WinState Pool)
globals = record { xx = nothing; orig = nothing; enabled = false; initialized = true }

redirect_example :
    Yields
      (λ r m1.
        (r.0 ≡ true)
        × Owned tlabs m1
        × (m1.heap.slots m1.heap.thread ≢ null)
        × LeadsToHoard pool 64 4 4096 r.1
        × Yields
            (λ r' m2. (r'.0 ≡ true) × LeadsToOriginals r'.1)
            (redirect_process_detach null r.1 m1))
      (redirect_process_attach pool 64 4 4096 (some 3) globals unloaded)
redirect_example =
    redirect-loads tlabs pool 64 4 4096 pool-IsMainHeap 3 globals unloaded unloaded-none

abbrev loaded_once : Machine (WinState Pool)
loaded_once = record unloaded {
  heap = record unloaded.heap { tls_index = some 3; tls_ready = true };
}

two_heaps_example :
    Yields
      (λ (r : Ptr × Ptr) m'.
        (r.0 ≢ r.1) × (tlabs m'.heap.heaps r.0 ≡ true) × (tlabs m'.heap.heaps r.1 ≡ true))
      ((do
        redirect_process_detach null globals
        p ← win_get_custom_heap pool 64 4 4096
        q ← win_get_custom_heap pool 64 4 4096
        pure (p, q))
        loaded_once)
two_heaps_example =
    freed-makes_two_heaps tlabs pool 64 4 4096 pool-IsMainHeap globals loaded_once refl
