-- ===== src/Threads.antt =====
-- src/platform/linux/linux_threads.cpp: pthread_create and pthread_exit over the allocator's hooks, and
-- the life of the threads that they make. The threads of a process run in steps, in any order: each
-- function below is one step, and `Threads.Steps` puts them together. __pthread_create, and xxmalloc
-- and xxfree on the blocks of ThreadWrapper, are parameters of the steps or of the relation.
pub mod Steps
pub mod Invariant
pub mod Safety
pub mod Proofs
pub mod Reaches
pub mod Liveness
use alloc.Base.{
  ℕ, suc, Bool, true, false, ◌&&◌, ◌||◌, not, Option, none, some, ◌==◌, if◌then◌else◌, List, [],
  ◌∷◌, ◌++◌,
}
use alloc.Machine.{Ptr, null}

-- Whether the weak symbols xxthread_init and xxthread_cleanup are defined.
pub record Hooks : Type 0 where
  pub init : Bool
  pub cleanup : Bool

unfoldable pub has_thread_hooks : Hooks → Bool
has_thread_hooks hooks = hooks.init || hooks.cleanup

-- ThreadWrapper
pub record Wrapper : Type 0 where
  pub user_func : Ptr
  pub user_arg : Ptr

-- What a thread has done: the hooks, and the call of the user's function.
pub data Event : Type 0 where
  init_hook : Event
  user_call : Wrapper → Event
  cleanup_hook : Event

-- Where a thread is: in the trampoline before the reads, before xxfree, before the hook, before the
-- call; in the user's function; behind it; and gone.
pub data Stage : Type 0 where
  entry : Ptr → Stage
  loaded : Ptr → Wrapper → Stage
  released : Wrapper → Stage
  ready_to_call : Wrapper → Stage
  running : Stage
  returned : Stage
  gone : Stage

-- `wrapped` says whether the thread runs the trampoline, and `task` what its creator asked for.
pub record Thread : Type 0 where
  pub wrapped : Bool
  pub task : Wrapper
  pub stage : Stage
  pub log : List Event

-- alloc8_pthread_ready; the flag that get_thread_created_flag() gives; the live wrappers by address;
-- the threads by number, and how many there are; whether a freed wrapper was read or freed.
pub record Process : Type 0 where
  pub ready : Bool
  pub created_flag : ℕ
  pub wrappers : Ptr → Option Wrapper
  pub threads : ℕ → Option Thread
  pub count : ℕ
  pub faulted : Bool

unfoldable pub update : {A : Type 0} → (ℕ → A) → ℕ → A → ℕ → A
update f k x a = if a == k then x else f a

unfoldable pub alloc8_pthread_hooks_init : Process → Process
alloc8_pthread_hooks_init s = record s { ready = true }

-- __pthread_create, which makes a thread where its result is 0.
unfoldable pub real_create : (error : ℕ) → Thread → Process → Process
unfolding update
real_create error th s =
    if error == 0
    then record s { threads = update s.threads s.count (some th); count = suc s.count }
    else s

unfoldable pub direct : Wrapper → Thread
direct w = record { wrapped = false; task = w; stage = ready_to_call w; log = [] }

unfoldable pub trampoline : Wrapper → Ptr → Thread
trampoline w p = record { wrapped = true; task = w; stage = entry p; log = [] }

-- `p` is what xxmalloc gives, and `error` the result of __pthread_create.
unfoldable pub alloc8_pthread_create : Hooks → Wrapper → (p : Ptr) → (error : ℕ) → Process → Process
unfolding has_thread_hooks real_create direct trampoline update
alloc8_pthread_create hooks w p error s =
    if not s.ready || not (has_thread_hooks hooks)
    then real_create error (direct w) s
    else (let flagged = record s { created_flag = 1 } in
        if p == null
        then real_create error (direct w) flagged
        else (let stored = record flagged { wrappers = update s.wrappers p (some w) } in
            let made = real_create error (trampoline w p) stored in
            if not (error == 0)
            then record made { wrappers = update made.wrappers p none }
            else made))

unfoldable pub hook_event : Bool → Event → List Event
hook_event true e = e ∷ []
hook_event false e = []

unfoldable pub put_thread : ℕ → Thread → Process → Process
unfolding update
put_thread t th s = record s { threads = update s.threads t (some th) }

-- The reads of the wrapper.
unfoldable pub read_wrapper : ℕ → Thread → Ptr → Process → Process
unfolding put_thread
read_wrapper t th p s = elim (s.wrappers p) [
  | none ↦ record s { faulted = true }
  | some w ↦ put_thread t (record th { stage = loaded p w }) s
]

-- xxfree(wrapper)
unfoldable pub free_wrapper : ℕ → Thread → Ptr → Wrapper → Process → Process
unfolding put_thread update
free_wrapper t th p w s = elim (s.wrappers p) [
  | none ↦ record s { faulted = true }
  | some _ ↦
      put_thread t (record th { stage = released w })
        (record s { wrappers = update s.wrappers p none })
]

-- The next step of the trampoline, or of the start of a thread without it. The user's function takes
-- its own.
unfoldable pub alloc8_thread_trampoline : Hooks → ℕ → Thread → Stage → Process → Process
unfolding read_wrapper free_wrapper put_thread hook_event
alloc8_thread_trampoline hooks t th (entry p) s = read_wrapper t th p s
alloc8_thread_trampoline hooks t th (loaded p w) s = free_wrapper t th p w s
alloc8_thread_trampoline hooks t th (released w) s =
    put_thread t
      (record th { stage = ready_to_call w; log = th.log ++ hook_event hooks.init init_hook }) s
alloc8_thread_trampoline hooks t th (ready_to_call w) s =
    put_thread t (record th { stage = running; log = th.log ++ (user_call w ∷ []) }) s
alloc8_thread_trampoline hooks t th running s = s
alloc8_thread_trampoline hooks t th returned s =
    put_thread t
      (record th {
        stage = gone;
        log = th.log ++ hook_event (th.wrapped && hooks.cleanup) cleanup_hook;
      })
      s
alloc8_thread_trampoline hooks t th gone s = s

-- The user's function returns.
pub user_return : ℕ → Thread → Process → Process
unfolding put_thread
user_return t th s = put_thread t (record th { stage = returned }) s

-- The user's function calls pthread_exit.
unfoldable pub alloc8_pthread_exit : Hooks → ℕ → Thread → Process → Process
unfolding put_thread hook_event
alloc8_pthread_exit hooks t th s =
    put_thread t
      (record th {
        stage = gone;
        log = th.log ++ hook_event (s.ready && hooks.cleanup) cleanup_hook;
      })
      s
