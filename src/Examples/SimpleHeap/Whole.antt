-- ===== src/Examples/SimpleHeap/Whole.antt =====
-- SimpleHeap as the class that HeapRedirect gets, over the malloc of libc, once the functions of libc are
-- looked up: what it gives is what libc gives, and it counts.
pub mod Keeps
use alloc.Base.{
  true≢false, sym, ap, ◌∙◌, inl, inr, Bool-cases, ltb, sub_size, ◌||◌, ℕ, ◌≡◌, refl, Bool, false,
  true, Option, none, ◌==◌, if◌then◌else◌,
}
use alloc.Machine.{Ptr, null, Machine, Run, M, ok, bad_alloc, abort, crash, pure, ◌>>=◌, ◌>>◌, skip}
use alloc.Heap.{Allocator}
use alloc.Examples.SimpleHeap.{
  State, simple_malloc, simple_memalign, simple_get_size, simple_free, is_init_buffer_ptr,
  init_buffer_alloc, allocate, count_allocation, update_peak,
}

-- The globals after the start, and the heap of libc.
pub record Started (H : Type 0) : Type 0 where
  pub globals : State
  pub looked_up : globals.initializing ≡ false
  pub libc : H

abbrev pub under : {H : Type 0} → Machine (Started H) → Machine H
under m = record { heap = m.heap.libc; mem = m.mem; errno = m.errno }

abbrev pub over : {H : Type 0} → Machine (Started H) → Machine H → Machine (Started H)
over m m' = record { heap = record m.heap { libc = m'.heap }; mem = m'.mem; errno = m'.errno }

-- A call of libc.
unfoldable pub call : {H A : Type 0} → M H A → M (Started H) A
call f m = elim (f (under m)) [
  | ok a m' ↦ ok a (over m m')
  | bad_alloc m' ↦ bad_alloc (over m m')
  | abort ↦ abort
  | crash ↦ crash
]

-- What is left of the globals once they are looked up.
abbrev pub Stays : {A : Type 0} → (State → A × State) → Type 0
Stays f = (s : State) → s.initializing ≡ false → (f s).1.initializing ≡ false

-- A step on the globals.
unfoldable pub step : {H A : Type 0} → (f : State → A × State) → Stays f → M (Started H) A
step f stays m = ok (f m.heap.globals).0 (record m {
  heap = record {
    globals = (f m.heap.globals).1;
    looked_up = stays m.heap.globals m.heap.looked_up;
    libc = m.heap.libc;
  };
})

module _ (buffer : Ptr) where
  update_peak_lem : (s : State) → (update_peak buffer s).initializing ≡ s.initializing
  unfolding update_peak
  update_peak_lem s =
      elim (Bool-cases (ltb s.peak_usage (sub_size s.total_allocated s.total_freed))) [
        | inl b ↦ rw b refl
        | inr b ↦ rw b refl
      ]

  allocate_started :
      (real : Ptr) (sz : ℕ) (s : State)
      → s.initializing ≡ false
      → allocate buffer real sz s ≡ (real, s)
  unfolding allocate
  allocate_started real sz s e = elim (Bool-cases s.initializing) [
    | inl b ↦ absurd (true≢false (sym b ∙ e))
    | inr b ↦ ap (λ (t : Bool). if t then init_buffer_alloc buffer sz s else (real, s)) b
  ]

  pub malloc_real :
      (real : Ptr) (sz : ℕ) (s : State)
      → s.initializing ≡ false
      → (simple_malloc buffer real sz s).0 ≡ real
  unfolding simple_malloc
  malloc_real real sz s e = elim (Bool-cases (real == null)) [
    | inl z ↦ rw (allocate_started real sz s e, z) refl
    | inr z ↦ rw (allocate_started real sz s e, z) refl
  ]

  pub malloc-Stays : (real : Ptr) (sz : ℕ) → Stays (simple_malloc buffer real sz)
  unfolding simple_malloc count_allocation
  malloc-Stays real sz s e = elim (Bool-cases (real == null)) [
    | inl z ↦ rw (allocate_started real sz s e, z) e
    | inr z ↦
        rw (allocate_started real sz s e, z) (update_peak_lem (count_allocation buffer sz s) ∙ e)
  ]

  pub memalign_real :
      (real : Ptr) (al sz : ℕ) (s : State)
      → s.initializing ≡ false
      → (simple_memalign buffer real al sz s).0 ≡ real
  unfolding simple_memalign
  memalign_real real al sz s e = elim (Bool-cases (real == null)) [
    | inl z ↦ rw (allocate_started real sz s e, z) refl
    | inr z ↦ rw (allocate_started real sz s e, z) refl
  ]

  pub memalign-Stays : (real : Ptr) (al sz : ℕ) → Stays (simple_memalign buffer real al sz)
  unfolding simple_memalign count_allocation
  memalign-Stays real al sz s e = elim (Bool-cases (real == null)) [
    | inl z ↦ rw (allocate_started real sz s e, z) e
    | inr z ↦ rw (allocate_started real sz s e, z) e
  ]

  pub free-Stays : (usable : ℕ) (p : Ptr) → Stays (simple_free buffer usable p)
  unfolding simple_free
  free-Stays usable p s e = elim (Bool-cases (p == null)) [
    | inl z ↦ rw z e
    | inr z ↦ elim (Bool-cases (is_init_buffer_ptr buffer p)) [
      | inl b ↦ rw (z, b) e
      | inr b ↦ rw (z, b) e
    ]
  ]

  -- The methods of the class, over the malloc, free, aligned_alloc and malloc_usable_size of libc. `acquire`
  -- and `release` are those of std::mutex, which the other methods do not call.
  unfoldable pub simple_heap :
      {H : Type 0}
      → Allocator H
      → (acquire release : M (Started H) (Unit {0})) → Allocator (Started H)
  simple_heap libc acquire release = record {
    malloc = λ sz. do
      real ← call (libc.malloc sz)
      step (simple_malloc buffer real sz) (malloc-Stays real sz);
    free = λ ptr. if (ptr == null) || is_init_buffer_ptr buffer ptr then skip else do
      usable ← call (libc.get_size ptr)
      step (simple_free buffer usable ptr) (free-Stays usable ptr)
      call (libc.free ptr);
    get_size = λ ptr.
        if (ptr == null) || is_init_buffer_ptr buffer ptr
        then pure (simple_get_size buffer 0 ptr)
        else do
          usable ← call (libc.get_size ptr)
          pure (simple_get_size buffer usable ptr);
    memalign = λ alignment sz. do
      real ← call (libc.memalign alignment sz)
      step (simple_memalign buffer real alignment sz) (memalign-Stays real alignment sz);
    lock = acquire;
    unlock = release;
    native_realloc = none;
    thread_init = none;
    thread_cleanup = none;
  }
