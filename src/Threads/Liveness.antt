-- ===== src/Threads/Liveness.antt =====
-- A thread is never stuck: whatever the others have done, its own steps bring it to its end.
use alloc.Base.{ℕ, zero, suc, some, ◌≡◌, refl, ap, sym}
use alloc.Machine.{Ptr}
use alloc.Threads.{
  Hooks, Wrapper, Stage, entry, loaded, released, ready_to_call, running, returned, gone, Thread,
  Process, put_thread, alloc8_thread_trampoline, read_wrapper, free_wrapper, user_return,
}
use alloc.Threads.Steps.{Reachable}
use alloc.Threads.Invariant.{Valid, holder, update-same}
use alloc.Threads.Proofs.{trampoline-Valid, user_return-Valid}
use alloc.Threads.Reaches.{Reachable-Valid}

-- `n` steps of thread `t` alone, in which the user's function returns.
pub data Alone (hooks : Hooks) (t : ℕ) : ℕ → Process → Process → Type 0 where
  stays : (s : Process) → Alone hooks t zero s s
  goes :
      (n : ℕ) (s s' : Process) (th : Thread)
      → s.threads t ≡ some th
      → Alone hooks t n (alloc8_thread_trampoline hooks t th th.stage s) s'
      → Alone hooks t (suc n) s s'
  returns :
      (n : ℕ) (s s' : Process) (th : Thread)
      → s.threads t ≡ some th
      → th.stage ≡ running
      → Alone hooks t n (user_return t th s) s'
      → Alone hooks t (suc n) s s'

-- How many steps a thread has left.
pub steps_left : Stage → ℕ
steps_left (entry p) = 6
steps_left (loaded p w) = 5
steps_left (released w) = 4
steps_left (ready_to_call w) = 3
steps_left running = 2
steps_left returned = 1
steps_left gone = 0

module _ (hooks : Hooks) (t : ℕ) where
  -- Thread `t` is at a stage.
  At : Stage → Process → Type 0
  At st s = (th : Thread) × (s.threads t ≡ some th) × (th.stage ≡ st)

  -- After `n` steps of its own it is gone.
  abbrev pub EndsIn : ℕ → Process → Type 0
  EndsIn n s =
      (s' : Process) × Alone hooks t n s s'
      × ((th : Thread) × (s'.threads t ≡ some th) × (th.stage ≡ gone))

  goes_on :
      (n : ℕ) (s : Process) (th : Thread) (st : Stage)
      → s.threads t ≡ some th
      → th.stage ≡ st
      → EndsIn n (alloc8_thread_trampoline hooks t th st s)
      → EndsIn (suc n) s
  goes_on n s th st at e (s', run, end) = (s', goes n s s' th at (rw (sym e) at run), end)

  from_gone : (s : Process) (th : Thread) → s.threads t ≡ some th → th.stage ≡ gone → EndsIn 0 s
  from_gone s th at e = (s, stays s, (th, at, e))

  from_returned :
      (s : Process) (th : Thread)
      → Valid hooks s
      → s.threads t ≡ some th
      → th.stage ≡ returned
      → EndsIn 1 s
  unfolding alloc8_thread_trampoline put_thread
  from_returned s th v at e =
      goes_on 0 s th returned at e (from_gone _ _ (update-same s.threads t _) refl)

  from_running :
      (s : Process) (th : Thread)
      → Valid hooks s
      → s.threads t ≡ some th
      → th.stage ≡ running
      → EndsIn 2 s
  unfolding user_return put_thread
  from_running s th v at e =
      let (s', run, end) =
        from_returned (user_return t th s) (record th { stage = returned })
          (user_return-Valid hooks s v t th at e) (update-same s.threads t _) refl in
      (s', returns 1 s s' th at e run, end)

  from_ready :
      (s : Process) (th : Thread) (w : Wrapper)
      → Valid hooks s
      → s.threads t ≡ some th
      → th.stage ≡ ready_to_call w
      → EndsIn 3 s
  unfolding alloc8_thread_trampoline put_thread
  from_ready s th w v at e = goes_on 2 s th (ready_to_call w) at e (
      from_running _ _ (trampoline-Valid hooks s v t th at (ready_to_call w) e)
        (update-same s.threads t _) refl)

  from_released :
      (s : Process) (th : Thread) (w : Wrapper)
      → Valid hooks s
      → s.threads t ≡ some th
      → th.stage ≡ released w
      → EndsIn 4 s
  unfolding alloc8_thread_trampoline put_thread
  from_released s th w v at e = goes_on 3 s th (released w) at e (
      from_ready _ _ w (trampoline-Valid hooks s v t th at (released w) e)
        (update-same s.threads t _) refl)

  from_loaded :
      (s : Process) (th : Thread) (p : Ptr) (w : Wrapper)
      → Valid hooks s
      → s.threads t ≡ some th
      → th.stage ≡ loaded p w
      → EndsIn 5 s
  unfolding alloc8_thread_trampoline put_thread free_wrapper holder
  from_loaded s th p w v at e = goes_on 4 s th (loaded p w) at e (
      from_released _ (record th { stage = released w }) w
        (trampoline-Valid hooks s v t th at (loaded p w) e)
        (rw (v.held t th p at (ap holder e), free_wrapper) (update-same s.threads t _)) refl)

  from_entry :
      (s : Process) (th : Thread) (p : Ptr)
      → Valid hooks s
      → s.threads t ≡ some th
      → th.stage ≡ entry p
      → EndsIn 6 s
  unfolding alloc8_thread_trampoline put_thread read_wrapper holder
  from_entry s th p v at e = goes_on 5 s th (entry p) at e (
      from_loaded _ (record th { stage = loaded p th.task }) p th.task
        (trampoline-Valid hooks s v t th at (entry p) e)
        (rw (v.held t th p at (ap holder e), read_wrapper) (update-same s.threads t _)) refl)

  by_stage :
      (s : Process) (th : Thread) (st : Stage)
      → Valid hooks s
      → s.threads t ≡ some th
      → th.stage ≡ st
      → EndsIn (steps_left st) s
  unfolding steps_left
  by_stage s th (entry p) v at e = from_entry s th p v at e
  by_stage s th (loaded p w) v at e = from_loaded s th p w v at e
  by_stage s th (released w) v at e = from_released s th w v at e
  by_stage s th (ready_to_call w) v at e = from_ready s th w v at e
  by_stage s th running v at e = from_running s th v at e
  by_stage s th returned v at e = from_returned s th v at e
  by_stage s th gone v at e = from_gone s th at e

  -- In every state that the process reaches, each thread that is there comes to its end in as many steps
  -- of its own as its stage has left, six from the entry of the trampoline, if the user's function returns:
  -- it waits for no other thread.
  pub thread-EndsIn :
      (s : Process) (th : Thread)
      → Reachable hooks s
      → s.threads t ≡ some th
      → EndsIn (steps_left th.stage) s
  thread-EndsIn s th r at = by_stage s th th.stage (Reachable-Valid hooks s r) at refl
