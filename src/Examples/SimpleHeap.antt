-- ===== src/Examples/SimpleHeap.antt =====
-- examples/simple_heap/simple_heap.cpp, as it is built for Linux: a heap over the malloc of libc that
-- counts, and a buffer for what is allocated while dlsym looks that malloc up. What libc answers is an
-- argument: `real` is the pointer, and `usable` the size, that its function gives. The counters are
-- atomic; each call is one step here.
pub mod Peak
pub mod Early
pub mod Retry
pub mod Whole
use alloc.Base.{
  ℕ, ◌+◌, Bool, true, false, ◌&&◌, ◌||◌, ◌==◌, if◌then◌else◌, leb, ltb, add_size, sub_size,
  round_up,
}
use alloc.Machine.{Ptr, null}

abbrev pub init_buffer_size : ℕ
init_buffer_size = 65536

-- The globals; `resolved` says whether real_malloc is set.
pub record State : Type 0 where
  pub init_buffer_pos : ℕ
  pub initializing : Bool
  pub resolved : Bool
  pub total_allocated : ℕ
  pub total_freed : ℕ
  pub alloc_count : ℕ
  pub free_count : ℕ
  pub peak_usage : ℕ

-- `buffer` is the address of g_initBuffer.
module _ (buffer : Ptr) where
  unfoldable pub is_init_buffer_ptr : Ptr → Bool
  is_init_buffer_ptr p = leb buffer p && ltb p (buffer + init_buffer_size)

  pub init_buffer_alloc : ℕ → State → Ptr × State
  init_buffer_alloc sz s =
      let aligned_pos = round_up s.init_buffer_pos 16 in
      let end_pos = add_size aligned_pos sz in
      if ltb init_buffer_size end_pos
      then (null, s)
      else (buffer + aligned_pos, record s { init_buffer_pos = end_pos })

  -- `look_up` is what the calls of dlsym do to the globals, and `found` whether they find malloc.
  ensure_real_functions : (look_up : State → State) → (found : Bool) → State → State
  ensure_real_functions look_up found s =
      if s.resolved || s.initializing
      then s
      else record (look_up (record s { initializing = true })) {
        initializing = false;
        resolved = found;
      }

  pub count_allocation : ℕ → State → State
  count_allocation sz s = record s {
    total_allocated = add_size s.total_allocated sz;
    alloc_count = add_size s.alloc_count 1;
  }

  -- The loop on g_peakUsage, which ends when the peak is no less than `current`.
  pub update_peak : State → State
  update_peak s =
      let current = sub_size s.total_allocated s.total_freed in
      if ltb s.peak_usage current then record s { peak_usage = current } else s

  -- From the state that ensure_real_functions leaves.
  pub allocate : (real : Ptr) → ℕ → State → Ptr × State
  unfolding init_buffer_alloc
  allocate real sz s = if s.initializing then init_buffer_alloc sz s else (real, s)

  pub simple_malloc : (real : Ptr) → ℕ → State → Ptr × State
  unfolding allocate count_allocation update_peak
  simple_malloc real sz s =
      let r = allocate real sz s in
      if r.0 == null then r else (r.0, update_peak (count_allocation sz r.1))

  pub simple_memalign : (real : Ptr) → (alignment : ℕ) → ℕ → State → Ptr × State
  unfolding allocate count_allocation
  simple_memalign real alignment sz s =
      let r = allocate real sz s in if r.0 == null then r else (r.0, count_allocation sz r.1)

  pub simple_get_size : (usable : ℕ) → Ptr → ℕ
  unfolding is_init_buffer_ptr
  simple_get_size usable ptr =
      if ptr == null then 0 else if is_init_buffer_ptr ptr then 64 else usable

  -- The state, and whether the block goes to the free of libc.
  pub simple_free : (usable : ℕ) → Ptr → State → Bool × State
  unfolding is_init_buffer_ptr simple_get_size
  simple_free usable ptr s =
      if ptr == null then (false, s) else if is_init_buffer_ptr ptr then (false, s) else (
        true,
        record s {
          total_freed = add_size s.total_freed (simple_get_size usable ptr);
          free_count = add_size s.free_count 1;
        },
      )
