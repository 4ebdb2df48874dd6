-- ===== src/Tests/Detoured.antt =====
-- The theorems on the detoured functions, at the arena.
use alloc.Base.{ℕ, ◌+◌, ◌<◌, ◌≡◌, refl, true, false, Bool, some, is_some, arith}
use alloc.Machine.{Ptr, null, Machine, ok}
use alloc.Heap.Bump.{Arena, bump, live}
use alloc.Redirect.{alloc8_redirect}
use alloc.Detours.{detour_recalloc}
use alloc.Detours.Recalloc.{recalloc-unzeroed}
use alloc.Detours.Entries.{crt_detours}
use alloc.Detours.Entries.Contracts.{AllMeet, crt_detours-AllMeet}
use alloc.Tests.Memory.{machine_of, arena_xx, arena_xx-IsXx, greeting, greeting-WellFormed}

-- The addresses that the arena can tell the size of.
owns : Arena → Ptr → Bool
owns h p = is_some (live h p)

owns-live : (h : Arena) (p : Ptr) (n : ℕ) → live h p ≡ some n → owns h p ≡ true
unfolding owns
owns-live h p n e = ground arith

crt_detours_example : AllMeet live (crt_detours arena_xx owns false)
crt_detours_example = crt_detours-AllMeet live arena_xx arena_xx-IsXx owns owns-live false

with_block : Machine Arena
unfolding machine_of
with_block = machine_of (arena_xx.xxmalloc 15 greeting)

gives_block : arena_xx.xxmalloc 15 greeting ≡ ok 32 with_block
unfolding alloc8_redirect bump with_block
gives_block = refl

recalloc_example :
    (m' : Machine Arena) × (detour_recalloc arena_xx owns true null 3 5 greeting ≡ ok 32 m')
    × ((i : ℕ) → i < 15 → m'.mem (32 + i) ≡ with_block.mem (32 + i))
recalloc_example =
    recalloc-unzeroed live arena_xx arena_xx-IsXx owns owns-live true 3 5 greeting with_block 32
      (omega arith) greeting-WellFormed gives_block (omega arith)
