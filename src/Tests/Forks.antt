-- ===== src/Tests/Forks.antt =====
-- The theorem on forks, at a child that has the lock of its parent.
use alloc.Base.{ℕ, ◌≡◌, refl, Bool, true, false, some, none, if◌then◌else◌}
use alloc.Machine.{null, Machine, ok, crash, pure, skip}
use alloc.Machine.Yields.{yields}
use alloc.Heap.{Allocator}
use alloc.Redirect.{alloc8_redirect}
use alloc.Linux.Wrapper
use alloc.Forks.{
  library, register_fork_handlers, outside, prepared, in_child, Process, set, only, IsLock,
  prepares, is_born, Reachable, starts_as, then_step, Alone,
}
use alloc.Forks.Released.{holds_at}
use alloc.Forks.Progress.{taken_lock-Released}

-- An allocator that has a lock, and nothing else.
abbrev mutex : Allocator Bool
mutex = record {
  malloc = λ sz. pure null;
  free = λ p. skip;
  get_size = λ p. pure 0;
  memalign = λ al sz. pure null;
  lock = λ m. if m.heap then crash else ok tt (record m { heap = true });
  unlock = λ m. if m.heap then ok tt (record m { heap = false }) else crash;
  native_realloc = none;
  thread_init = none;
  thread_cleanup = none;
}

abbrev is_taken : Bool → Bool
is_taken b = b

mutex-IsLock : IsLock is_taken mutex
mutex-IsLock = record {
  lock-Taken = λ m free. rw free (yields refl);
  unlock-Freed = λ m taken. rw taken (yields refl);
}

abbrev with_lock : Bool → Machine Bool
with_lock b = record { heap = b; mem = λ a. none; errno = 0 }

abbrev begun : Process Bool
begun = record { machine = with_lock false; stage = only 1 outside }

abbrev about_to_fork : Process Bool
about_to_fork = record { machine = with_lock true; stage = set 1 (some prepared) begun.stage }

abbrev child : Process Bool
child = record { machine = with_lock true; stage = only 1 in_child }

prepared-Reachable : Reachable is_taken mutex (register_fork_handlers library mutex) about_to_fork
unfolding only register_fork_handlers alloc8_redirect Wrapper.fork_prepare
prepared-Reachable =
    then_step 1 begun about_to_fork (starts_as 1 (with_lock false) refl)
      (prepares (with_lock true) refl refl refl)

child-Reachable : Reachable is_taken mutex (register_fork_handlers library mutex) child
unfolding set
child-Reachable = then_step 1 about_to_fork child prepared-Reachable (is_born refl)

released_example :
    (t : ℕ) × (holds_at (child.stage t) ≡ true)
    × (s' : Process Bool) × Alone is_taken mutex (register_fork_handlers library mutex) t 2 child s'
    × (is_taken s'.machine.heap ≡ false)
released_example =
    taken_lock-Released is_taken mutex mutex-IsLock library child child-Reachable refl
