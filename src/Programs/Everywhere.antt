-- ===== src/Programs/Everywhere.antt =====
-- Programs over every wrapper, and any allocator that keeps its contract.
use alloc.Base.{ℕ, ◌≤◌, size_mod, ◌≡◌, Option, none, List}
use alloc.Machine.{Ptr, Machine}
use alloc.Machine.Yields.{Yields}
use alloc.Heap.{Allocator}
use alloc.Heap.Contract.{WellFormed, IsAllocatorUpTo}
use alloc.Redirect.{alloc8_redirect}
use alloc.Redirect.Refines.{alloc8_redirect-IsXxUpTo}
use alloc.Programs.{Variables, IsLibc, Command, run}
use alloc.Programs.Arrays.{Runs}
use alloc.Programs.Owners.{Owned, arrays}
use alloc.Programs.Runs.{AllSized, no_variables, Owned-no_variables, run-Runs}
use alloc.Programs.Platforms.{
  Platform, linux, macos, header, common, table, windows, detours, libc_on, small_block_on, Suits,
}
use alloc.Table.{make_allocator_table}
use alloc.Table.Dispatch.{rt_functions, dispatch-IsXxUpTo}
use alloc.Programs.Platforms.Portable.{xx_libc-IsLibc, common_libc-IsLibc}
use alloc.Programs.Platforms.Unix.{linux_libc-IsLibc, mac_libc-IsLibc, header_libc-IsLibc}
use alloc.Programs.Platforms.Windows.{windows_libc-IsLibc, detours_libc-IsLibc}

module _ {H : Type 0} (live : H → Ptr → Option ℕ) where
  -- What a program leaves, and prints, from the start `m`.
  abbrev pub Ended : List Command → Machine H → Variables × List ℕ → Machine H → Type 0
  Ended xs m r m' = Owned live r.0 m' × Runs xs (arrays no_variables m) r.1 (arrays r.0 m')

  libc_on-IsLibc :
      (on : Platform H) (A : Allocator H) (limit : ℕ)
      → limit ≤ size_mod
      → IsAllocatorUpTo live limit A
      → Suits live A on
      → IsLibc live limit (small_block_on on) (libc_on on A)
  unfolding Suits
  libc_on-IsLibc linux A limit fits is _ =
      linux_libc-IsLibc live fits (alloc8_redirect A)
        (alloc8_redirect-IsXxUpTo live A limit fits is)
  libc_on-IsLibc macos A limit fits is _ =
      mac_libc-IsLibc live fits (alloc8_redirect A) (alloc8_redirect-IsXxUpTo live A limit fits is)
  libc_on-IsLibc header A limit fits is plain = header_libc-IsLibc live A fits is plain
  libc_on-IsLibc (common apple) A limit fits is _ =
      common_libc-IsLibc live fits (alloc8_redirect A)
        (alloc8_redirect-IsXxUpTo live A limit fits is) apple
  libc_on-IsLibc table A limit fits is _ =
      xx_libc-IsLibc live fits (rt_functions (make_allocator_table A))
        (dispatch-IsXxUpTo live A limit fits is)
  libc_on-IsLibc (windows g) A limit fits is _ =
      windows_libc-IsLibc live fits (alloc8_redirect A)
        (alloc8_redirect-IsXxUpTo live A limit fits is) g
  libc_on-IsLibc (detours ours init_complete) A limit fits is suits =
      detours_libc-IsLibc live fits (alloc8_redirect A)
        (alloc8_redirect-IsXxUpTo live A limit fits is) ours suits init_complete

  -- Over an allocator that keeps its contract, and that suits the wrapper, any program whose sizes
  -- are those of a size_t, and those of its realloc below the limit that the allocator takes, begun
  -- where no block is live, comes to its end with each of the wrappers. Then its variables own all
  -- the blocks that are live, each its own, and what it printed and has in them is what it may
  -- print and have over separate arrays, where an allocation may fail.
  pub program-Ended :
      (on : Platform H) (A : Allocator H) (limit : ℕ) (xs : List Command) (m : Machine H)
      → limit ≤ size_mod
      → IsAllocatorUpTo live limit A
      → Suits live A on
      → AllSized limit xs
      → WellFormed live m
      → ((p : Ptr) → live m.heap p ≡ none)
      → Yields (Ended xs m) (run (libc_on on A) xs no_variables m)
  program-Ended on A limit xs m fits is suits sized w nothing =
      run-Runs live limit (small_block_on on) (libc_on on A)
        (libc_on-IsLibc on A limit fits is suits) xs no_variables m sized
        (Owned-no_variables live m w nothing)
