-- ===== src/Forks.antt =====
-- fork() under the handlers that the wrappers register: register_fork_handlers of
-- src/platform/linux/gnu_wrapper.cpp, alloc8_register_fork_handlers of include/alloc8/gnu_wrapper.h, and on
-- macOS _malloc_fork_prepare and its companions. pthread_atfork is a parameter in what it documents: the
-- thread that forks runs `prepare` before, `parent` after in its process, and `child` in the new process,
-- which has a copy of the memory and of this thread, and of no other.
pub mod Released
pub mod Progress
use alloc.Base.{ℕ, suc, ◌≡◌, Bool, true, false, Option, none, some, ◌==◌, if◌then◌else◌}
use alloc.Machine.{Machine, M, ok}
use alloc.Machine.Yields.{Yields}
use alloc.Heap.{Allocator}
use alloc.Redirect.{alloc8_redirect}
use alloc.Linux.Wrapper
use alloc.Linux.Header
use alloc.Mac.{replace_malloc_fork_prepare, replace_malloc_fork_parent, replace_malloc_fork_child}

pub record Handlers (H : Type 0) : Type 0 where
  pub prepare : M H (Unit {0})
  pub parent : M H (Unit {0})
  pub child : M H (Unit {0})

-- Which wrapper registers its handlers.
pub data Registers : Type 0 where
  library header_only macos : Registers

unfoldable pub register_fork_handlers : {H : Type 0} → Registers → Allocator H → Handlers H
register_fork_handlers library A = record {
  prepare = Wrapper.fork_prepare (alloc8_redirect A);
  parent = Wrapper.fork_parent (alloc8_redirect A);
  child = Wrapper.fork_child (alloc8_redirect A);
}
register_fork_handlers header_only A = record {
  prepare = Header.alloc8_fork_prepare A;
  parent = Header.alloc8_fork_parent A;
  child = Header.alloc8_fork_child A;
}
register_fork_handlers macos A = record {
  prepare = replace_malloc_fork_prepare (alloc8_redirect A);
  parent = replace_malloc_fork_parent (alloc8_redirect A);
  child = replace_malloc_fork_child (alloc8_redirect A);
}

-- Where a thread is: outside of the allocator, inside with its lock, or in a fork.
pub data Stage : Type 0 where
  outside inside prepared in_parent in_child : Stage

-- Whether the thread has the lock there.
unfoldable pub holds : Stage → Bool
holds outside = false
holds _ = true

-- A process, with the threads that it has.
pub record Process (H : Type 0) : Type 0 where
  pub machine : Machine H
  pub stage : ℕ → Option Stage

unfoldable pub set : ℕ → Option Stage → (ℕ → Option Stage) → ℕ → Option Stage
set t st stages k = if k == t then st else stages k

-- The child has the thread that forked, and no other.
unfoldable pub only : ℕ → Stage → ℕ → Option Stage
only t st k = if k == t then some st else none

-- What lock() and unlock() of an allocator are relied on for: a lock that is free can be taken, and one that
-- is taken can be freed; a call of lock() returns only once the lock is free.
pub record IsLock {H : Type 0} (locked : H → Bool) (A : Allocator H) : Type 0 where
  pub lock-Taken :
      (m : Machine H) → locked m.heap ≡ false → Yields (λ _ m'. locked m'.heap ≡ true) (A.lock m)
  pub unlock-Freed :
      (m : Machine H) → locked m.heap ≡ true → Yields (λ _ m'. locked m'.heap ≡ false) (A.unlock m)

module _ {H : Type 0} (locked : H → Bool) (A : Allocator H) (h : Handlers H) where
  -- A step of thread `t`. A fork leads to the process that goes on, and to the child.
  pub data Step (t : ℕ) (s : Process H) : Process H → Type 0 where
    starts :
        (k : ℕ) → s.stage k ≡ none → Step t s (record s { stage = set k (some outside) s.stage })
    ends : s.stage t ≡ some outside → Step t s (record s { stage = set t none s.stage })
    works :
        (m' : Machine H)
        → locked m'.heap ≡ locked s.machine.heap
        → Step t s (record s { machine = m' })
    takes :
        (m' : Machine H)
        → s.stage t ≡ some outside
        → locked s.machine.heap ≡ false
        → A.lock s.machine ≡ ok tt m'
        → Step t s (record { machine = m'; stage = set t (some inside) s.stage })
    gives_back :
        (m' : Machine H)
        → s.stage t ≡ some inside
        → A.unlock s.machine ≡ ok tt m'
        → Step t s (record { machine = m'; stage = set t (some outside) s.stage })
    prepares :
        (m' : Machine H)
        → s.stage t ≡ some outside
        → locked s.machine.heap ≡ false
        → h.prepare s.machine ≡ ok tt m'
        → Step t s (record { machine = m'; stage = set t (some prepared) s.stage })
    forks :
        s.stage t ≡ some prepared → Step t s (record s { stage = set t (some in_parent) s.stage })
    is_born : s.stage t ≡ some prepared → Step t s (record s { stage = only t in_child })
    after_in_parent :
        (m' : Machine H)
        → s.stage t ≡ some in_parent
        → h.parent s.machine ≡ ok tt m'
        → Step t s (record { machine = m'; stage = set t (some outside) s.stage })
    after_in_child :
        (m' : Machine H)
        → s.stage t ≡ some in_child
        → h.child s.machine ≡ ok tt m'
        → Step t s (record { machine = m'; stage = set t (some outside) s.stage })

  -- The processes that come of one that starts with one thread and a free lock, its children included.
  pub data Reachable : Process H → Type 0 where
    starts_as :
        (t : ℕ) (m : Machine H)
        → locked m.heap ≡ false
        → Reachable (record { machine = m; stage = only t outside })
    then_step : (t : ℕ) (s s' : Process H) → Reachable s → Step t s s' → Reachable s'

  -- At most `n` steps, all of thread `t`.
  pub data Alone (t : ℕ) : ℕ → Process H → Process H → Type 0 where
    stays : (n : ℕ) (s : Process H) → Alone t n s s
    goes : (n : ℕ) (s s1 s' : Process H) → Step t s s1 → Alone t n s1 s' → Alone t (suc n) s s'
