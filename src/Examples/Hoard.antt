-- ===== src/Examples/Hoard.antt =====
-- examples/hoard/hoard_alloc8.cpp and hoard_thread_hooks.cpp, as they are built for Unix: the xxmalloc
-- interface over Hoard's heaps, and a buffer for what is allocated before the thread-local heap is in
-- use. Hoard is another project: its operations on this thread's heap, and on the main heap, are the
-- parameter `K`. The state is that which one thread sees.
pub mod EarlyBuffer
pub mod Windows
use alloc.Base.{
  ℕ, ◌+◌, ◌-◌, ◌*◌, Bool, true, false, ◌&&◌, ◌==◌, if◌then◌else◌, leb, ltb, add_size, sub_size,
  mul_size, round_up, product_overflows,
}
use alloc.Machine.{Ptr, null, Machine, M, Run, ok, abort, pure, skip, ◌>>=◌, ◌>>◌, memcpy, memset}

abbrev pub max_local_buffer_size : ℕ
max_local_buffer_size = 256 * 131072

-- initializedTSD; whether theCustomHeap is set in this thread; `initBufferPtr - initBuffer`; and the
-- heaps of Hoard.
pub record State (L : Type 0) : Type 0 where
  pub initialized_tsd : Bool
  pub has_heap : Bool
  pub buffer_pos : ℕ
  pub heaps : L

-- theCustomHeap->malloc, free, getSize and clear; `new TheCustomHeapType` in memory of the main heap;
-- findUnusedHeap, releaseHeap and free of the main heap.
pub record Kernel (L : Type 0) : Type 0 where
  pub malloc : ℕ → M (State L) Ptr
  pub free : Ptr → M (State L) (Unit {0})
  pub get_size : Ptr → M (State L) ℕ
  pub clear : M (State L) (Unit {0})
  pub make_heap : M (State L) (Unit {0})
  pub find_unused_heap : M (State L) (Unit {0})
  pub release_heap : M (State L) (Unit {0})
  pub free_heap : M (State L) (Unit {0})

module _ {L : Type 0} where
  set_has_heap : Bool → M (State L) (Unit {0})
  set_has_heap b m = ok tt (record m { heap = record m.heap { has_heap = b } })

  set_initialized_tsd : M (State L) (Unit {0})
  set_initialized_tsd m = ok tt (record m { heap = record m.heap { initialized_tsd = true } })

-- `buffer` is the address of initBuffer.
module _ {L : Type 0} (K : Kernel L) (buffer : Ptr) where
  initialize_custom_heap : M (State L) (Unit {0})
  unfolding set_has_heap
  initialize_custom_heap m =
      if m.heap.has_heap then ok tt m else (do K.make_heap; set_has_heap true) m

  get_custom_heap : M (State L) (Unit {0})
  unfolding initialize_custom_heap set_initialized_tsd
  get_custom_heap m =
      if m.heap.has_heap then ok tt m else (do set_initialized_tsd; initialize_custom_heap) m

  -- The end of xxmalloc, from the buffer.
  pub init_buffer_malloc : ℕ → M (State L) Ptr
  init_buffer_malloc sz m =
      let aligned_pos = round_up m.heap.buffer_pos 16 in
      let ptr = add_size buffer aligned_pos in
      let end_ptr = add_size ptr sz in
      if ltb (buffer + max_local_buffer_size) end_ptr
      then abort
      else ok ptr (record m { heap = record m.heap { buffer_pos = sub_size end_ptr buffer } })

  pub hoard_xxmalloc : ℕ → M (State L) Ptr
  unfolding get_custom_heap init_buffer_malloc
  hoard_xxmalloc sz m =
      if m.heap.initialized_tsd
      then if m.heap.has_heap
        then (do ptr ← K.malloc sz; if ptr == null then (λ _. abort) else pure ptr) m
        else (do get_custom_heap; K.malloc sz) m
      else init_buffer_malloc sz m

  pub in_init_buffer : Ptr → Bool
  in_init_buffer ptr = leb buffer ptr && ltb ptr (buffer + max_local_buffer_size)

  pub hoard_xxfree : Ptr → M (State L) (Unit {0})
  unfolding get_custom_heap in_init_buffer
  hoard_xxfree ptr m =
      if in_init_buffer ptr
      then ok tt m
      else if m.heap.initialized_tsd
      then if m.heap.has_heap then K.free ptr m else (do get_custom_heap; K.free ptr) m
      else ok tt m

  pub hoard_xxmalloc_usable_size : Ptr → M (State L) ℕ
  unfolding get_custom_heap in_init_buffer
  hoard_xxmalloc_usable_size ptr m =
      if in_init_buffer ptr
      then ok (buffer + max_local_buffer_size - ptr) m
      else if m.heap.initialized_tsd
      then if m.heap.has_heap then K.get_size ptr m else (do get_custom_heap; K.get_size ptr) m
      else ok 0 m

  pub hoard_xxrealloc : Ptr → ℕ → M (State L) Ptr
  unfolding hoard_xxmalloc hoard_xxfree hoard_xxmalloc_usable_size
  hoard_xxrealloc ptr sz =
      if ptr == null
      then hoard_xxmalloc sz
      else if sz == 0
      then (do hoard_xxfree ptr; pure null)
      else do
        old_size ← hoard_xxmalloc_usable_size ptr
        new_ptr ← hoard_xxmalloc sz
        if new_ptr == null then pure new_ptr else do
          let copy_size = if ltb old_size sz then old_size else sz
          memcpy new_ptr ptr copy_size
          hoard_xxfree ptr
          pure new_ptr

  hoard_xxcalloc : ℕ → ℕ → M (State L) Ptr
  unfolding hoard_xxmalloc
  hoard_xxcalloc count size =
      let total = mul_size count size in
      if product_overflows count size then pure null else do
        ptr ← hoard_xxmalloc total
        if ptr == null then pure ptr else do memset ptr 0 total; pure ptr

  hoard_xxthread_init : M (State L) (Unit {0})
  unfolding get_custom_heap
  hoard_xxthread_init = do get_custom_heap; K.find_unused_heap

  hoard_xxthread_cleanup : M (State L) (Unit {0})
  unfolding set_has_heap
  hoard_xxthread_cleanup m =
      if m.heap.has_heap
      then (do K.clear; K.release_heap; K.free_heap; set_has_heap false) m
      else ok tt m
