-- ===== src/Examples/Hoard/Windows.antt =====
-- examples/hoard/hoard_thread_hooks_win.cpp and hoard_redirect_win.cpp, and hoard_alloc8.cpp as it is built
-- for Windows: the heap of a thread is in a slot of Windows' thread-local storage. Hoard is another
-- project: its main heap and the heaps of the threads are the parameter `K`.
pub mod Contract
pub mod Slots
pub mod Lifetimes
pub mod Histories
pub mod Redirected
pub mod Copies
use alloc.Base.{
  ℕ, ◌+◌, ◌-◌, Bool, true, false, Option, none, some, ◌&&◌, ◌==◌, if◌then◌else◌, leb, ltb, add_size,
  sub_size, mul_size, round_up, product_overflows, is_some,
}
use alloc.Machine.{
  Ptr, null, Machine, M, Run, ok, bad_alloc, abort, crash, pure, skip, ◌>>=◌, ◌>>◌, memcpy, memset,
}
use alloc.Windows.Hooks.{
  Callbacks, Globals, alloc8_redirect_init, alloc8_redirect_enable, alloc8_redirect_disable,
}
use alloc.Examples.Hoard.{max_local_buffer_size}

-- `thread` is the thread that runs; `tls_index` is g_tlsIndex, none for TLS_OUT_OF_INDEXES; `slots` has
-- what each thread has at that index; `buffer_pos` is `initBufferPtr - initBuffer`.
pub record WinState (L : Type 0) : Type 0 where
  pub thread : ℕ
  pub tls_index : Option ℕ
  pub tls_ready : Bool
  pub any_thread_created : Bool
  pub slots : ℕ → Ptr
  pub buffer_pos : ℕ
  pub heaps : L

-- malloc and free of the main heap, `new (mh) TheCustomHeapType(mainHeap)`, malloc, free, getSize and
-- clear of a thread's heap, and chooseZero, findUnusedHeap and releaseHeap of the main heap.
pub record MainHeap (L : Type 0) : Type 0 where
  pub malloc : ℕ → M L Ptr
  pub free : Ptr → M L (Unit {0})
  pub make : Ptr → M L (Unit {0})
  pub tlab_malloc : Ptr → ℕ → M L Ptr
  pub tlab_free : Ptr → Ptr → M L (Unit {0})
  pub tlab_get_size : Ptr → Ptr → M L ℕ
  pub clear : Ptr → M L (Unit {0})
  pub choose_zero : M L (Unit {0})
  pub find_unused_heap : M L (Unit {0})
  pub release_heap : M L (Unit {0})

module _ {L : Type 0} where
  pub with_heaps : Machine (WinState L) → Machine L → Machine (WinState L)
  with_heaps m k = record { heap = record m.heap { heaps = k.heap }; mem = k.mem; errno = k.errno }

  pub from_heaps : {A : Type 0} → Machine (WinState L) → Run L A → Run (WinState L) A
  unfolding with_heaps
  from_heaps m (ok a k) = ok a (with_heaps m k)
  from_heaps m (bad_alloc k) = bad_alloc (with_heaps m k)
  from_heaps m abort = abort
  from_heaps m crash = crash

  -- A call of Hoard, which does not touch the variables of the DLL.
  pub heaps_do : {A : Type 0} → M L A → M (WinState L) A
  unfolding from_heaps
  heaps_do f m = from_heaps m (f (record { heap = m.heap.heaps; mem = m.mem; errno = m.errno }))

  -- TlsGetValue and TlsSetValue, which fail where the index is not valid.
  pub tls_get_value : M (WinState L) Ptr
  tls_get_value m = ok (if is_some m.heap.tls_index then m.heap.slots m.heap.thread else null) m

  pub put_slot : Ptr → Machine (WinState L) → Machine (WinState L)
  put_slot p m = record m {
    heap = record m.heap { slots = λ t. if t == m.heap.thread then p else m.heap.slots t };
  }

  pub tls_set_value : Ptr → M (WinState L) (Unit {0})
  unfolding put_slot
  tls_set_value p m = if is_some m.heap.tls_index then ok tt (put_slot p m) else ok tt m

  -- `anyThreadCreated = true`
  pub mark_thread_created : M (WinState L) (Unit {0})
  mark_thread_created m = ok tt (record m { heap = record m.heap { any_thread_created = true } })

  -- `g_tlsIndex = TlsAlloc(); g_tlsReady = true`: the slots of a new index are null.
  pub take_index : ℕ → M (WinState L) (Unit {0})
  take_index i m = ok tt (record m {
    heap = record m.heap { tls_index = some i; slots = λ t. null; tls_ready = true };
  })

module _ {L : Type 0} (K : MainHeap L) (sizeof_tlab np : ℕ) (buffer : Ptr) where
  pub win_initialize_custom_heap : M (WinState L) Ptr
  unfolding heaps_do tls_set_value
  win_initialize_custom_heap = do
    mh ← heaps_do (K.malloc sizeof_tlab)
    heaps_do (K.make mh)
    tls_set_value mh
    pure mh

  pub win_get_custom_heap : M (WinState L) Ptr
  unfolding win_initialize_custom_heap tls_get_value
  win_get_custom_heap m =
      if m.heap.tls_ready
      then (do heap ← tls_get_value; if heap == null then win_initialize_custom_heap else pure heap)
          m
      else ok null m

  pub win_xxthread_init : M (WinState L) (Unit {0})
  unfolding win_get_custom_heap heaps_do
  win_xxthread_init = do
    win_get_custom_heap
    if np == 1 then heaps_do K.choose_zero else heaps_do K.find_unused_heap

  pub win_xxthread_cleanup : M (WinState L) (Unit {0})
  unfolding tls_get_value tls_set_value heaps_do
  win_xxthread_cleanup m =
      if m.heap.tls_ready
      then (do
        heap ← tls_get_value
        if heap == null then skip else do
          heaps_do (K.clear heap)
          if np == 1 then skip else heaps_do K.release_heap
          heaps_do (K.free heap)
          tls_set_value null)
          m
      else ok tt m

  -- The end of xxmalloc, from the buffer.
  win_init_buffer_malloc : ℕ → M (WinState L) Ptr
  win_init_buffer_malloc sz m =
      let aligned_pos = round_up m.heap.buffer_pos 16 in
      let ptr = add_size buffer aligned_pos in
      let end_ptr = add_size ptr sz in
      if ltb (buffer + max_local_buffer_size) end_ptr
      then abort
      else ok ptr (record m { heap = record m.heap { buffer_pos = sub_size end_ptr buffer } })

  pub win_xxmalloc : ℕ → M (WinState L) Ptr
  unfolding win_get_custom_heap win_init_buffer_malloc heaps_do
  win_xxmalloc sz = do
    heap ← win_get_custom_heap
    if heap == null then win_init_buffer_malloc sz else do
      ptr ← heaps_do (K.tlab_malloc heap sz)
      if ptr == null then (λ _. abort) else pure ptr

  win_in_init_buffer : Ptr → Bool
  win_in_init_buffer ptr = leb buffer ptr && ltb ptr (buffer + max_local_buffer_size)

  pub win_xxfree : Ptr → M (WinState L) (Unit {0})
  unfolding win_get_custom_heap win_in_init_buffer heaps_do
  win_xxfree ptr = if win_in_init_buffer ptr then skip else do
    heap ← win_get_custom_heap
    if heap == null then skip else heaps_do (K.tlab_free heap ptr)

  pub win_xxmalloc_usable_size : Ptr → M (WinState L) ℕ
  unfolding win_get_custom_heap win_in_init_buffer heaps_do
  win_xxmalloc_usable_size ptr =
      if win_in_init_buffer ptr then pure (buffer + max_local_buffer_size - ptr) else do
        heap ← win_get_custom_heap
        if heap == null then pure 0 else heaps_do (K.tlab_get_size heap ptr)

  pub win_xxrealloc : Ptr → ℕ → M (WinState L) Ptr
  unfolding win_xxmalloc win_xxfree win_xxmalloc_usable_size
  win_xxrealloc ptr sz =
      if ptr == null
      then win_xxmalloc sz
      else if sz == 0
      then (do win_xxfree ptr; pure null)
      else do
        old_size ← win_xxmalloc_usable_size ptr
        new_ptr ← win_xxmalloc sz
        if new_ptr == null then pure new_ptr else do
          let copy_size = if ltb old_size sz then old_size else sz
          memcpy new_ptr ptr copy_size
          win_xxfree ptr
          pure new_ptr

  pub win_xxcalloc : ℕ → ℕ → M (WinState L) Ptr
  unfolding win_xxmalloc
  win_xxcalloc count size =
      let total = mul_size count size in
      if product_overflows count size then pure null else do
        ptr ← win_xxmalloc total
        if ptr == null then pure ptr else do memset ptr 0 total; pure ptr

  -- DLL_PROCESS_ATTACH with Detours: the result of TlsAlloc, and InitializeAlloc8 on the state `E` of the
  -- interposition. The result says whether the load goes on.
  pub win_process_attach : {E : Type 0} → Option ℕ → (E → E) → E → M (WinState L) (Bool × E)
  unfolding take_index win_get_custom_heap
  win_process_attach none initialize_alloc8 e = pure (false, e)
  win_process_attach (some i) initialize_alloc8 e = do
    take_index i
    let e' = initialize_alloc8 e
    win_get_custom_heap
    pure (true, e')

  -- The functions that alloc8_redirect_init is given.
  pub win_callbacks : Callbacks (WinState L)
  unfolding win_xxmalloc win_xxfree win_xxcalloc win_xxrealloc win_xxmalloc_usable_size
  win_callbacks = record {
    malloc = some win_xxmalloc;
    free = some win_xxfree;
    calloc = some win_xxcalloc;
    realloc = some win_xxrealloc;
    msize = some win_xxmalloc_usable_size;
  }

  -- DLL_PROCESS_ATTACH with the import redirection: the heap of the main thread comes first.
  pub redirect_process_attach :
      Option ℕ → Globals (WinState L) → M (WinState L) (Bool × Globals (WinState L))
  unfolding take_index win_get_custom_heap win_callbacks alloc8_redirect_init alloc8_redirect_enable
  redirect_process_attach none g = pure (false, g)
  redirect_process_attach (some i) g = do
    take_index i
    win_get_custom_heap
    pure (true, alloc8_redirect_enable (alloc8_redirect_init win_callbacks g))

  -- DLL_THREAD_ATTACH and DLL_THREAD_DETACH
  pub win_thread_attach : M (WinState L) (Unit {0})
  unfolding mark_thread_created win_xxthread_init
  win_thread_attach = do mark_thread_created; win_xxthread_init

  pub win_thread_detach : M (WinState L) (Unit {0})
  unfolding win_xxthread_cleanup
  win_thread_detach = win_xxthread_cleanup

-- DLL_PROCESS_DETACH: `lpvReserved` is null where the library is freed, and else the process is
-- terminated, where the result is false.
module _ {L : Type 0} where
  pub win_process_detach : (lpv_reserved : Ptr) → M (WinState L) Bool
  win_process_detach lpv_reserved m =
      if lpv_reserved == null
      then ok true (record m { heap = record m.heap { tls_index = none } })
      else ok false m

  pub redirect_process_detach :
      (lpv_reserved : Ptr) → Globals (WinState L) → M (WinState L) (Bool × Globals (WinState L))
  unfolding alloc8_redirect_disable
  redirect_process_detach lpv_reserved g m =
      if lpv_reserved == null
      then ok (true, alloc8_redirect_disable g)
          (record m { heap = record m.heap { tls_index = none } })
      else ok (false, g) m
