-- ===== src/Tests/Allocators.antt =====
-- The theorems on the common, macOS and Windows functions and on ANSIWrapper, at the arena.
use alloc.Base.{ℕ, some, refl, ◌+◌, ◌*◌, ◌≤◌, ◌<◌, mul_size, ◌-◌, ◌^◌, ◌≡◌, inr, arith, size_mod}
use alloc.Machine.{Ptr, null, Machine, ok}
use alloc.Machine.Yields.{Yields}
use alloc.Heap.Bump.{Arena, bump, live, bump-IsAllocator}
use alloc.Heap.Contract.{Reallocated, Fresh}
use alloc.Mac.{replace_reallocf}
use alloc.Mac.Allocation.{ReallocatedOrFreed, replace_reallocf-ReallocatedOrFreed}
use alloc.NewDelete.{operator_new}
use alloc.NewDelete.Throws.{NewOrThrows, operator_new-NewOrThrows}
use alloc.Ansi.{ansi_realloc}
use alloc.Ansi.Allocation.{ansi_realloc-Reallocated, ansi_realloc_wraps}
use alloc.Tests.Memory.{
  machine_of, arena_xx, arena_xx-IsXx, greeting, greeting-live, greeting-WellFormed,
}
use alloc.Mac.Zones.{replace_malloc_zone_batch_malloc, replace_malloc_zone_batch_free}
use alloc.Mac.Zones.Batch.{first, batch_free-batch_malloc}
use alloc.Redirect.{calloc, default_realloc}
use alloc.Examples.DieHard.{diehard_xxcalloc, diehard_xxrealloc}
use alloc.Examples.DieHard.Agreement.{diehard-eq-redirect, diehard_xxcalloc-wraps}
use alloc.Heap.Contract.{Keeps}

replace_reallocf_example :
    Yields
      (ReallocatedOrFreed live arena_xx arena_xx-IsXx 16 100000 greeting)
      (replace_reallocf arena_xx 16 100000 greeting)
replace_reallocf_example =
    replace_reallocf-ReallocatedOrFreed live arena_xx arena_xx-IsXx 16 100000 greeting (omega arith)
      greeting-WellFormed (inr (4, greeting-live 16))

ansi_realloc_example :
    Yields (Reallocated live 16 40 greeting) (ansi_realloc bump (2 ^ 4) 16 40 greeting)
ansi_realloc_example =
    ansi_realloc-Reallocated live bump bump-IsAllocator 4 (omega arith) 16 40 greeting (omega arith)
      greeting-WellFormed (inr (4, greeting-live 16))

ansi_realloc_wraps_example : ansi_realloc bump (2 ^ 4) 16 (size_mod - 1) greeting ≡ ok 16 greeting
ansi_realloc_wraps_example =
    ansi_realloc_wraps live bump bump-IsAllocator 4 (omega arith) 16 4 (size_mod - 1) greeting
      (omega arith) (omega arith) greeting-WellFormed (greeting-live 16)

operator_new_throws_example :
    NewOrThrows live (Fresh live 100000) greeting (operator_new arena_xx 100000 greeting)
operator_new_throws_example =
    operator_new-NewOrThrows live arena_xx arena_xx-IsXx 100000 greeting (omega arith)
      greeting-WellFormed

batch_example :
    Yields
      (λ r m'.
        (r.0 ≤ 3)
        × Yields
            (λ _ m''.
              ((q : Ptr) → live m''.heap q ≡ live greeting.heap q) × Keeps live greeting m'')
            (replace_malloc_zone_batch_free arena_xx 0 (first r.0 r.1) m'))
      (replace_malloc_zone_batch_malloc arena_xx 0 40 3 greeting)
batch_example =
    batch_free-batch_malloc live arena_xx arena_xx-IsXx 0 40 3 greeting (omega arith)
      greeting-WellFormed

diehard_agrees_example :
    (diehard_xxrealloc bump 16 40 greeting ≡ default_realloc bump 16 40 greeting)
    × (diehard_xxcalloc bump 3 5 greeting ≡ calloc bump 3 5 greeting)
diehard_agrees_example = diehard-eq-redirect bump 16 40 3 5 greeting (omega arith)

with_two : Machine Arena
unfolding machine_of
with_two = machine_of (bump.malloc 2 greeting)

gives_two : bump.malloc (mul_size (2 ^ 63 + 1) 2) greeting ≡ ok 32 with_two
unfolding bump with_two
gives_two = refl

-- 2^63 elements of 2 bytes, and one more.
diehard_wraps_example :
    (calloc bump (2 ^ 63 + 1) 2 greeting ≡ ok null greeting)
    × (mul_size (2 ^ 63 + 1) 2 < (2 ^ 63 + 1) * 2)
    × (m' : Machine Arena) × (diehard_xxcalloc bump (2 ^ 63 + 1) 2 greeting ≡ ok 32 m')
    × (m'.heap ≡ with_two.heap)
    × Fresh live (mul_size (2 ^ 63 + 1) 2) greeting 32 m'
    × ((i : ℕ) → i < mul_size (2 ^ 63 + 1) 2 → m'.mem (32 + i) ≡ some 0)
diehard_wraps_example =
    diehard_xxcalloc-wraps bump live bump-IsAllocator (2 ^ 63 + 1) 2 32 greeting with_two
      (omega arith) greeting-WellFormed gives_two (omega arith)
