-- ===== src/Windows/Threads.antt =====
-- src/platform/windows/win_threads.cpp: what the DLL does when Windows tells it of a thread. Hooks that
-- the allocator lacks are the no-op defaults.
use alloc.Base.{Bool, true, false}
use alloc.Machine.{M, skip, ◌>>◌}

module _ {H : Type 0} (xxthread_init xxthread_cleanup : M H (Unit {0}))
    (mark_created : M H (Unit {0})) where
  -- `ready` is alloc8_thread_ready, and `mark_created` sets the flag of get_thread_created_flag().
  alloc8_on_thread_attach : (ready : Bool) → M H (Unit {0})
  alloc8_on_thread_attach false = skip
  alloc8_on_thread_attach true = do mark_created; xxthread_init

  alloc8_on_thread_detach : (ready : Bool) → M H (Unit {0})
  alloc8_on_thread_detach false = skip
  alloc8_on_thread_detach true = xxthread_cleanup
