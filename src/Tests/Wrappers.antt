-- ===== src/Tests/Wrappers.antt =====
-- The theorems on the wrappers, at the arena.
use alloc.Base.{
  ℕ, zero, suc, some, inl, ◌+◌, ◌-◌, ◌%◌, ◌≤◌, ◌<◌, ◌≡◌, refl, inr, true, arith, size_mod,
}
use alloc.Machine.{Ptr, Machine}
use alloc.Machine.Yields.{Yields}
use alloc.Heap.Bump.{Arena, bump, live, bump-IsAllocator}
use alloc.Heap.Contract.{AllocatedAt, PosixAligned}
use alloc.Xx.{IsXx}
use alloc.Redirect.{alloc8_redirect}
use alloc.Redirect.Refines.{alloc8_redirect-IsXx}
use alloc.Linux.Wrapper.{
  custom_reallocarray, custom_posix_memalign, custom_aligned_alloc, custom_strdup, custom_pvalloc,
  custom_malloc_usable_size,
}
use alloc.Linux.Wrapper.Allocation.{
  ReallocatedArray, custom_reallocarray-ReallocatedArray, custom_posix_memalign-PosixAligned,
  custom_pvalloc-AllocatedAt, pvalloc_wraps,
}
use alloc.Linux.Header
use alloc.Linux.Wrapper
use alloc.Linux.Header.Agreement.{entry_points-agree}
use alloc.Tests.Memory.{
  machine_of, arena_xx, arena_xx-IsXx, greeting, greeting-live, greeting-WellFormed,
}
use alloc.Heap.Strings.{InBlock}
use alloc.Heap.Bounded.{HasPrefix, Ended}
use alloc.Common.{common_strndup}
use alloc.Linux.Wrapper.{custom_strndup}
use alloc.Common.Bounded.{strndup-Ended}

alloc8_redirect-IsXx_example : IsXx live (alloc8_redirect bump)
alloc8_redirect-IsXx_example = alloc8_redirect-IsXx live bump bump-IsAllocator

reallocarray_example :
    Yields
      (ReallocatedArray live arena_xx arena_xx-IsXx 16 3 5 greeting)
      (custom_reallocarray arena_xx 16 3 5 greeting)
reallocarray_example =
    custom_reallocarray-ReallocatedArray live arena_xx arena_xx-IsXx 16 3 5 greeting
      greeting-WellFormed (inr (4, greeting-live 16))

posix_memalign_example :
    Yields (PosixAligned live true 64 100 greeting) (custom_posix_memalign arena_xx 64 100 greeting)
posix_memalign_example =
    custom_posix_memalign-PosixAligned live arena_xx arena_xx-IsXx 64 100 greeting (omega arith)
      (omega arith) greeting-WellFormed

pvalloc_example :
    (r : ℕ) × (5000 ≤ r)
    × (r < 5000 + 4096)
    × (r % 4096 ≡ 0)
    × Yields (AllocatedAt live 4096 r greeting) (custom_pvalloc arena_xx 5000 greeting)
pvalloc_example =
    custom_pvalloc-AllocatedAt live arena_xx arena_xx-IsXx 5000 greeting (omega arith)
      greeting-WellFormed

pvalloc_wraps_example :
    custom_pvalloc arena_xx (size_mod - 1) greeting ≡ arena_xx.xxmemalign 4096 0 greeting
pvalloc_wraps_example = pvalloc_wraps arena_xx (size_mod - 1) greeting (omega arith) (omega arith)

entry_points_example :
    (Header.malloc bump 7 greeting ≡ Wrapper.custom_malloc (alloc8_redirect bump) 7 greeting)
    × (Header.free bump 16 greeting ≡ Wrapper.custom_free (alloc8_redirect bump) 16 greeting)
    × (Header.calloc bump 7 3 greeting ≡ Wrapper.custom_calloc (alloc8_redirect bump) 7 3 greeting)
    × (Header.realloc bump 16 7 greeting
        ≡ Wrapper.custom_realloc (alloc8_redirect bump) 16 7 greeting)
    × (Header.reallocarray bump 16 7 3 greeting
        ≡ Wrapper.custom_reallocarray (alloc8_redirect bump) 16 7 3 greeting)
    × (Header.posix_memalign bump 7 3 greeting
        ≡ Wrapper.custom_posix_memalign (alloc8_redirect bump) 7 3 greeting)
    × (Header.aligned_alloc bump 7 3 greeting
        ≡ Wrapper.custom_aligned_alloc (alloc8_redirect bump) 7 3 greeting)
    × (Header.strdup bump 16 greeting ≡ Wrapper.custom_strdup (alloc8_redirect bump) 16 greeting)
    × (Header.strndup bump 16 7 greeting
        ≡ Wrapper.custom_strndup (alloc8_redirect bump) 16 7 greeting)
    × (Header.pvalloc bump 7 greeting ≡ Wrapper.custom_pvalloc (alloc8_redirect bump) 7 greeting)
entry_points_example = entry_points-agree bump greeting 16 7 3 (unfold bump in refl)

with_hundred : Machine Arena
unfolding machine_of
with_hundred = machine_of (arena_xx.xxmalloc 100 greeting)

-- The first character of "hi".
first_letter : HasPrefix greeting.mem 16 1 1
first_letter = record {
  characters = record { text = λ i lt. (b'h', at_start i lt, omega arith) };
  ends = inl refl;
}
  where
    at_start : (i : ℕ) → i < 1 → greeting.mem (16 + i) ≡ some b'h'
    at_start zero lt = refl
    at_start (suc i) lt = absurd (omega arith)

letter-InBlock : InBlock live greeting 16 1
letter-InBlock = record {
  block = 16;
  size = 4;
  owned = greeting-live 16;
  starts = omega arith;
  ends = omega arith;
}

strndup_example :
    ((p : Ptr) (n : ℕ) (k : Machine Arena)
      → common_strndup arena_xx p n k ≡ custom_strndup arena_xx p n k)
    × Yields (Ended live 16 1 greeting) (custom_strndup arena_xx 16 1 greeting)
    × Yields (Ended live 16 1 greeting) (common_strndup arena_xx 16 1 greeting)
strndup_example =
    strndup-Ended live arena_xx arena_xx-IsXx 16 1 1 greeting greeting-WellFormed (omega arith)
      first_letter letter-InBlock (omega arith)
