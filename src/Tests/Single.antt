-- ===== src/Tests/Single.antt =====
-- SimpleHeap over a libc that has one block, of 64 bytes at 4096.
use alloc.Base.{
  ℕ, ◌≡◌, refl, inl, inr, Bool, true, false, ◌&&◌, not, Option, none, some, arith, ◌==◌,
  if◌then◌else◌, leb, Bool-cases,
}
use alloc.Machine.{Ptr, null, Machine, M, ok, pure, skip, filled}
use alloc.Machine.Yields.{Yields, yields}
use alloc.Heap.{Allocator}
use alloc.Heap.Contract.{WellFormed, Failed, Allocated, IsAllocator}
use alloc.Examples.SimpleHeap.{is_init_buffer_ptr}
use alloc.Examples.SimpleHeap.Whole.{simple_heap}
use alloc.Examples.SimpleHeap.Whole.Keeps.{live_under, simple_heap-IsAllocator}

block_at : Bool → Ptr → Option ℕ
block_at used p = if used && (p == 4096) then some 64 else none

give : ℕ → M Bool Ptr
give sz m =
    if leb sz 64 && not m.heap
    then ok 4096 (record m { heap = true; mem = filled m.mem 4096 170 64 })
    else ok null m

abbrev single : Allocator Bool
single = record {
  malloc = give;
  free = λ p m. ok tt (record m { heap = false });
  get_size = λ p. pure 64;
  memalign = λ al sz. pure null;
  lock = skip;
  unlock = skip;
  native_realloc = none;
  thread_init = none;
  thread_cleanup = none;
}

nothing_done : (m : Machine Bool) → WellFormed block_at m → Failed block_at m null m
nothing_done m w = record {
  is_null = refl;
  same = λ _. refl;
  kept = λ _ _ _ _ _ _. refl;
  valid = w;
}

unused-WellFormed : (m : Machine Bool) → m.heap ≡ false → WellFormed block_at m
unfolding block_at
unused-WellFormed m e = record {
  null_free = ground (arith, e);
  blocks_mapped = λ p n a own lo hi. ground (arith, e);
  blocks_apart = λ p q n k own _ _. ground (arith, e);
  blocks_fit = λ p n own. ground (arith, e);
}

give-Allocated :
    (sz : ℕ) (m : Machine Bool)
    → WellFormed block_at m
    → Yields (Allocated block_at sz m) (give sz m)
unfolding give block_at
give-Allocated sz m w = elim (Bool-cases (leb sz 64 && not m.heap)) [
  | inr no_room ↦ rw no_room (yields (inl (nothing_done m w)))
  | inl room ↦ rw room (
      yields (
        inr (record {
          size = 64;
          nonnull = λ e. omega arith;
          unused = ground arith;
          owned = refl;
          enough = ground arith;
          others = λ q ne. ground arith;
          kept = λ q n a own lo hi. ground arith;
          valid = record {
            null_free = refl;
            blocks_mapped = λ p n a own lo hi. ground arith;
            blocks_apart = λ p q n k own own' ne. ground arith;
            blocks_fit = λ p n own. ground arith;
          };
        })))
]

single-IsAllocator : IsAllocator block_at single
unfolding block_at
single-IsAllocator = record {
  malloc-Allocated = λ sz m _ w. give-Allocated sz m w;
  memalign-AllocatedAt = λ al sz m _ _ _ w. yields (inl (nothing_done m w));
  free-Freed = λ p n m w own. yields (record {
    gone = refl;
    others = λ q ne. ground arith;
    kept = λ _ _ _ _ _ _ _. refl;
    valid = unused-WellFormed (record m { heap = false }) refl;
  });
  get_size-live = λ p n m w own. ground arith;
  native_realloc-Reallocated = λ f p sz m e _ _ _. absurd (cc);
}

outside_buffer :
    (h : Bool) (p : Ptr) (n : ℕ) → block_at h p ≡ some n → is_init_buffer_ptr 0x100000 p ≡ false
unfolding block_at is_init_buffer_ptr
outside_buffer h p n own = ground arith

simple_heap_example : IsAllocator (live_under block_at) (simple_heap 0x100000 single skip skip)
simple_heap_example =
    simple_heap-IsAllocator block_at 0x100000 single single-IsAllocator outside_buffer skip skip
