-- ===== src/Threads/Steps.antt =====
-- The steps of the process, in any order, and what each of them keeps: a wrapper lives exactly while
-- the thread that it was made for has not freed it, and the hooks run around the user's function.
use alloc.Base.{ℕ, false, none, some, ◌≡◌, ◌⊎◌}
use alloc.Machine.{Ptr, null}
use alloc.Threads.{
  Hooks, Wrapper, running, Thread, Process, alloc8_pthread_hooks_init, alloc8_pthread_create,
  alloc8_thread_trampoline, user_return, alloc8_pthread_exit,
}

-- One step of the process. xxmalloc gives null or the address of a block that is not live.
pub data Step (hooks : Hooks) (s : Process) : Process → Type 0 where
  hooks_ready : Step hooks s (alloc8_pthread_hooks_init s)
  create :
      (w : Wrapper) (p : Ptr) (error : ℕ)
      → (p ≡ null) ⊎ (s.wrappers p ≡ none)
      → Step hooks s (alloc8_pthread_create hooks w p error s)
  advance :
      (t : ℕ) (th : Thread)
      → s.threads t ≡ some th
      → Step hooks s (alloc8_thread_trampoline hooks t th th.stage s)
  function_returns :
      (t : ℕ) (th : Thread)
      → s.threads t ≡ some th
      → th.stage ≡ running
      → Step hooks s (user_return t th s)
  function_exits :
      (t : ℕ) (th : Thread)
      → s.threads t ≡ some th
      → th.stage ≡ running
      → Step hooks s (alloc8_pthread_exit hooks t th s)

-- The process before any thread is made.
unfoldable pub start : Process
start = record {
  ready = false;
  created_flag = 0;
  wrappers = λ p. none;
  threads = λ t. none;
  count = 0;
  faulted = false;
}

pub data Reachable (hooks : Hooks) : Process → Type 0 where
  initially : Reachable hooks start
  then_step : (s s' : Process) → Reachable hooks s → Step hooks s s' → Reachable hooks s'
