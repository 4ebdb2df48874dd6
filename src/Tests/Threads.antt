-- ===== src/Tests/Threads.antt =====
-- A process that makes one thread, which runs and calls pthread_exit.
use alloc.Base.{some, ◌≡◌, refl, inr, true, List, [], ◌∷◌, ◌++◌}
use alloc.Threads.{
  Hooks, Wrapper, Event, init_hook, user_call, cleanup_hook, Stage, entry, loaded, released,
  ready_to_call, running, gone, Thread, Process, hook_event, update, put_thread, read_wrapper,
  free_wrapper, real_create, direct, trampoline, has_thread_hooks, alloc8_pthread_hooks_init,
  alloc8_pthread_create, alloc8_thread_trampoline, alloc8_pthread_exit,
}
use alloc.Threads.Steps.{
  hooks_ready, create, advance, function_exits, start, Reachable, initially, then_step,
}
use alloc.Threads.Invariant.{Valid}
use alloc.Threads.Reaches.{Reachable-Valid, gone_thread-log}
use alloc.Threads.Liveness.{EndsIn, steps_left, thread-EndsIn}

abbrev both : Hooks
both = record { init = true; cleanup = true }

abbrev task : Wrapper
task = record { user_func = 100; user_arg = 7 }

abbrev at_stage : Stage → List Event → Thread
at_stage st log = record { wrapped = true; task = task; stage = st; log = log }

made : Process
made = alloc8_pthread_create both task 16 0 (alloc8_pthread_hooks_init start)

read : Process
read = alloc8_thread_trampoline both 0 (at_stage (entry 16) []) (entry 16) made

freed : Process
freed = alloc8_thread_trampoline both 0 (at_stage (loaded 16 task) []) (loaded 16 task) read

initialised : Process
initialised = alloc8_thread_trampoline both 0 (at_stage (released task) []) (released task) freed

inside : Process
inside =
    alloc8_thread_trampoline both 0 (at_stage (ready_to_call task) (init_hook ∷ []))
      (ready_to_call task) initialised

ended : Process
ended = alloc8_pthread_exit both 0 (at_stage running (init_hook ∷ user_call task ∷ [])) inside

made-Reachable : Reachable both made
unfolding made start alloc8_pthread_hooks_init
made-Reachable =
    then_step (alloc8_pthread_hooks_init start) made
      (then_step start (alloc8_pthread_hooks_init start) initially hooks_ready)
      (create task 16 0 (inr refl))

inside-Reachable : Reachable both inside
unfolding made read freed initialised inside start alloc8_pthread_hooks_init alloc8_pthread_create
    alloc8_thread_trampoline real_create direct trampoline has_thread_hooks hook_event update
    put_thread read_wrapper free_wrapper
inside-Reachable =
    then_step initialised inside
      (then_step freed initialised
        (then_step read freed
          (then_step made read made-Reachable (advance 0 (at_stage (entry 16) []) refl))
          (advance 0 (at_stage (loaded 16 task) []) refl))
        (advance 0 (at_stage (released task) []) refl))
      (advance 0 (at_stage (ready_to_call task) (init_hook ∷ [])) refl)

ended-Reachable : Reachable both ended
unfolding made read freed initialised inside ended start alloc8_pthread_hooks_init
    alloc8_pthread_create alloc8_thread_trampoline alloc8_pthread_exit real_create direct trampoline
    has_thread_hooks hook_event update put_thread read_wrapper free_wrapper
ended-Reachable =
    then_step inside ended inside-Reachable
      (function_exits 0 (at_stage running (init_hook ∷ user_call task ∷ [])) refl refl)

Reachable-Valid_example : Valid both inside
Reachable-Valid_example = Reachable-Valid both inside inside-Reachable

last : Thread
last = at_stage gone (init_hook ∷ user_call task ∷ cleanup_hook ∷ [])

ended-last : ended.threads 0 ≡ some last
unfolding last made read freed initialised inside ended start alloc8_pthread_hooks_init
    alloc8_pthread_create alloc8_thread_trampoline alloc8_pthread_exit real_create direct trampoline
    has_thread_hooks hook_event update put_thread read_wrapper free_wrapper
ended-last = refl

gone_thread-log_example :
    last.log
    ≡ hook_event both.init init_hook ++ (user_call last.task ∷ hook_event both.cleanup cleanup_hook)
gone_thread-log_example =
    gone_thread-log both ended 0 last ended-Reachable ended-last (unfold last in refl)
      (unfold last in refl)

-- The thread that was made, before its first step.
born : Thread
born = at_stage (entry 16) []

made-born : made.threads 0 ≡ some born
unfolding born made start alloc8_pthread_hooks_init alloc8_pthread_create real_create direct
    trampoline has_thread_hooks update
made-born = refl

thread_ends_example : EndsIn both 0 (steps_left born.stage) made
thread_ends_example = thread-EndsIn both 0 made born made-Reachable made-born
