-- ===== src/Examples/DieHard.antt =====
-- examples/diehard/diehard_alloc8.cpp: the xxmalloc interface over DieHard. The DieHard heap itself is
-- another project; `D` is its operations, as the interface of a heap.
pub mod Agreement
pub mod Windows
use alloc.Base.{ℕ, Bool, ◌==◌, if◌then◌else◌, ltb, mul_size}
use alloc.Machine.{Ptr, null, M, pure, skip, ◌>>=◌, ◌>>◌, memcpy, memset}
use alloc.Heap.{Allocator}
use alloc.Xx.{Xx}

module _ {H : Type 0} (D : Allocator H) where
  -- TheCustomHeapType::memalign, lock and unlock
  custom_heap_memalign : ℕ → ℕ → M H Ptr
  custom_heap_memalign alignment sz = D.malloc (if ltb sz alignment then alignment else sz)

  custom_heap_lock : (scalable : Bool) → M H (Unit {0})
  custom_heap_lock scalable = if scalable then skip else D.lock

  custom_heap_unlock : (scalable : Bool) → M H (Unit {0})
  custom_heap_unlock scalable = if scalable then skip else D.unlock

  pub diehard_xxrealloc : Ptr → ℕ → M H Ptr
  diehard_xxrealloc ptr sz =
      if ptr == null then D.malloc sz else if sz == 0 then (do D.free ptr; pure null) else do
        old_size ← D.get_size ptr
        new_ptr ← D.malloc sz
        if new_ptr == null then pure new_ptr else do
          memcpy new_ptr ptr (if ltb old_size sz then old_size else sz)
          D.free ptr
          pure new_ptr

  pub diehard_xxcalloc : ℕ → ℕ → M H Ptr
  diehard_xxcalloc count sz =
      let total_size = mul_size count sz in
      do
        ptr ← D.malloc total_size
        if ptr == null then pure ptr else do memset ptr 0 total_size; pure ptr

  pub diehard : (scalable : Bool) → Xx H
  unfolding custom_heap_memalign custom_heap_lock custom_heap_unlock diehard_xxrealloc
      diehard_xxcalloc
  diehard scalable = record {
    xxmalloc = D.malloc;
    xxfree = D.free;
    xxmemalign = custom_heap_memalign;
    xxmalloc_usable_size = D.get_size;
    xxmalloc_lock = custom_heap_lock scalable;
    xxmalloc_unlock = custom_heap_unlock scalable;
    xxrealloc = diehard_xxrealloc;
    xxcalloc = diehard_xxcalloc;
  }
