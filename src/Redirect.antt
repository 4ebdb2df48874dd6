-- ===== src/Redirect.antt =====
-- HeapRedirect<Alloc> and ThreadRedirect<Alloc> of include/alloc8/allocator_traits.h, and the macros
-- of include/alloc8/alloc8.h that name their functions. The singleton that getHeap() returns is the
-- `heap` of the machine.
pub mod Refines
use alloc.Base.{
  ℕ, Bool, ◌||◌, Option, none, some, ltb, ◌==◌, if◌then◌else◌, is_some, mul_size, product_overflows,
}
use alloc.Machine.{Ptr, null, M, pure, skip, ◌>>=◌, ◌>>◌, memcpy, memset}
use alloc.Heap.{Allocator}
use alloc.Xx.{Xx}

-- The extern "C" functions of the thread hooks.
record ThreadFunctions (H : Type 0) : Type 0 where
  xxthread_init : M H (Unit {0})
  xxthread_cleanup : M H (Unit {0})

module _ {H : Type 0} (A : Allocator H) where
  unfoldable pub malloc : ℕ → M H Ptr
  malloc sz = A.malloc sz

  unfoldable pub free : Ptr → M H (Unit {0})
  free ptr = if ptr == null then skip else A.free ptr

  unfoldable pub memalign : ℕ → ℕ → M H Ptr
  memalign alignment sz = A.memalign alignment sz

  unfoldable pub get_size : Ptr → M H ℕ
  get_size ptr = if ptr == null then pure 0 else A.get_size ptr

  unfoldable pub lock : M H (Unit {0})
  lock = A.lock

  unfoldable pub unlock : M H (Unit {0})
  unlock = A.unlock

  -- The branch taken where the allocator has no realloc of its own.
  unfoldable pub default_realloc : Ptr → ℕ → M H Ptr
  unfolding malloc free get_size
  default_realloc ptr sz =
      if ptr == null then malloc sz else if sz == 0 then (do free ptr; pure null) else do
        old_size ← get_size ptr
        new_ptr ← malloc sz
        if new_ptr == null then pure new_ptr else do
          let copy_size = if ltb old_size sz then old_size else sz
          memcpy new_ptr ptr copy_size
          free ptr
          pure new_ptr

  -- `if constexpr` on the realloc of the class.
  pub native_or_default : Option (Ptr → ℕ → M H Ptr) → Ptr → ℕ → M H Ptr
  unfolding default_realloc
  native_or_default (some f) ptr sz = f ptr sz
  native_or_default none ptr sz = default_realloc ptr sz

  unfoldable pub realloc : Ptr → ℕ → M H Ptr
  unfolding native_or_default
  realloc ptr sz = native_or_default A.native_realloc ptr sz

  unfoldable pub calloc : ℕ → ℕ → M H Ptr
  unfolding malloc product_overflows
  calloc count size =
      let total = mul_size count size in
      if product_overflows count size
      then pure null
      else do ptr ← malloc total; if ptr == null then pure ptr else do memset ptr 0 total; pure ptr

  -- ALLOC8_REDIRECT
  unfoldable pub alloc8_redirect : Xx H
  unfolding malloc free memalign get_size lock unlock realloc calloc
  alloc8_redirect = record {
    xxmalloc = malloc;
    xxfree = free;
    xxmemalign = memalign;
    xxmalloc_usable_size = get_size;
    xxmalloc_lock = lock;
    xxmalloc_unlock = unlock;
    xxrealloc = realloc;
    xxcalloc = calloc;
  }

  -- ThreadRedirect: a hook that the class lacks does nothing.
  thread_init : M H (Unit {0})
  thread_init = elim A.thread_init [ some f ↦ f | none ↦ skip ]

  thread_cleanup : M H (Unit {0})
  thread_cleanup = elim A.thread_cleanup [ some f ↦ f | none ↦ skip ]

  -- ALLOC8_THREAD_REDIRECT
  alloc8_thread_redirect : ThreadFunctions H
  unfolding thread_init thread_cleanup
  alloc8_thread_redirect = record { xxthread_init = thread_init; xxthread_cleanup = thread_cleanup }

  -- ALLOC8_REDIRECT_WITH_THREADS
  alloc8_redirect_with_threads : Xx H × ThreadFunctions H
  unfolding alloc8_redirect alloc8_thread_redirect
  alloc8_redirect_with_threads = (alloc8_redirect, alloc8_thread_redirect)

  has_thread_hooks : Bool
  has_thread_hooks = is_some A.thread_init || is_some A.thread_cleanup
