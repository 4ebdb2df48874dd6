-- ===== src/Tests/Runs.antt =====
-- The theorem on programs, at a small program over ANSIWrapper of the small allocator; and what that program
-- prints, on each platform.
use alloc.Base.{
  size_mod, ◌++◌, ℕ, zero, suc, round_up, ◌^◌, ◌≡◌, refl, List, [], ◌∷◌, arith, ltb, le→ltb, ◌≤◌,
  some, Bool,
}
use alloc.Machine.{Run, ok, bad_alloc, abort, crash, store, memset, mapped, memcpy, load}
use alloc.Machine.Yields.{Yields}
use alloc.Heap.{Allocator}
use alloc.Heap.Bump.{Arena, bump, live, bump-IsAllocator, empty, empty-WellFormed}
use alloc.Heap.Contract.{IsAllocatorUpTo}
use alloc.Ansi.{ansi_wrapper}
use alloc.Ansi.Stack.{realloc_limit, ansi_wrapper-IsAllocatorUpTo}
use alloc.Redirect.{alloc8_redirect}
use alloc.Linux.Wrapper.{custom_free, custom_malloc, custom_realloc, custom_calloc}
use alloc.Programs.{Command, Variables, mallocs, callocs, reallocs, frees, writes, reads, run}
use alloc.Programs.Runs.{Sized, AllSized, no_variables}
use alloc.Programs.Platforms.{linux, header, libc_on, Suits}
use alloc.Programs.Everywhere.{Ended, program-Ended}
use alloc.Programs.Clearing.{Uses, variable, free_all, Cleared, program-Cleared}
use alloc.Examples.SimpleHeap.Retry.{peak_loop, peak_loop-ends}

abbrev program : List Command
program =
    mallocs 0 40
    ∷ writes 0 3 7
    ∷ reallocs 0 100
    ∷ reads 0 3
    ∷ callocs 1 2 8
    ∷ reads 1 15
    ∷ frees 0
    ∷ frees 1
    ∷ []

abbrev stack : Allocator Arena
stack = ansi_wrapper bump (2 ^ 4)

program-AllSized : AllSized (realloc_limit 4) program
unfolding AllSized Sized
program-AllSized = (omega arith, (tt, (omega arith, (tt, (tt, (tt, (tt, (tt, tt))))))))

linux-Suits : Suits live stack linux
unfolding Suits
linux-Suits = tt

program_example :
    Yields (Ended live program empty) (run (libc_on linux stack) program no_variables empty)
unfolding live
program_example =
    program-Ended live linux stack (realloc_limit 4) program empty (omega arith)
      (ansi_wrapper-IsAllocatorUpTo live bump 4 (omega arith) bump-IsAllocator) linux-Suits
      program-AllSized empty-WellFormed (λ p. refl)

stack_example : IsAllocatorUpTo live (realloc_limit 4) (ansi_wrapper bump (2 ^ 4))
stack_example = ansi_wrapper-IsAllocatorUpTo live bump 4 (omega arith) bump-IsAllocator

printed : Run Arena (Variables × List ℕ) → List ℕ
printed (ok r m) = r.1
printed (bad_alloc m) = []
printed abort = []
printed crash = []

prints : printed (run (libc_on linux stack) program no_variables empty) ≡ 7 ∷ 0 ∷ []
unfolding printed run custom_free custom_malloc custom_realloc custom_calloc alloc8_redirect
    ansi_wrapper bump round_up store memset mapped live memcpy load
prints = refl

-- A program that leaves two blocks, with the header-only wrapper.
abbrev untidy : List Command
untidy = mallocs 0 40 ∷ reallocs 0 100 ∷ callocs 1 2 8 ∷ []

untidy-AllSized : AllSized size_mod untidy
unfolding AllSized Sized
untidy-AllSized = (omega arith, (omega arith, (tt, tt)))

untidy-Uses : Uses 2 untidy
unfolding Uses variable
untidy-Uses = (omega arith, (omega arith, (omega arith, tt)))

header-Suits : Suits live bump header
unfolding Suits bump
header-Suits = refl

tidy_example :
    Yields
      (λ _ m'. Cleared live m')
      (run (libc_on header bump) (untidy ++ free_all 2) no_variables empty)
unfolding live
tidy_example =
    program-Cleared live header bump size_mod 2 untidy empty (omega arith) bump-IsAllocator
      header-Suits untidy-AllSized untidy-Uses empty-WellFormed (λ p. refl)

-- Another thread stores 9 before the first attempt and nothing later; the second attempt fails for nothing.
abbrev rivals : ℕ → List (ℕ × ℕ)
rivals zero = (5, 9) ∷ []
rivals (suc n) = []

abbrev early : ℕ → Bool
early n = ltb n 2

retry_example : (w : ℕ) × (peak_loop rivals early 20 0 20 5 5 ≡ some w) × (20 ≤ w) × (5 ≤ w)
retry_example =
    peak_loop-ends rivals early 2 20 0 20 5 5 (λ k le. le→ltb k 2 le) (omega arith) (omega arith)
