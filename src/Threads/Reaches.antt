-- ===== src/Threads/Reaches.antt =====
-- What holds in every reachable state of the process.
use alloc.Base.{
  ℕ, Bool, true, false, ◌&&◌, ◌||◌, not, none, some, ◌==◌, ◌≡◌, ◌⊎◌, inl, inr, refl, sym, ap, ◌∙◌,
  [], ◌∷◌, ◌++◌, Bool-cases, ==→eq, ==→ne, none≢some, true≢false,
}
use mathlib.Core.List.{append_assoc}
use alloc.Machine.{Ptr, null}
use alloc.Threads.{
  Hooks, Wrapper, init_hook, user_call, cleanup_hook, Stage, entry, loaded, released, ready_to_call,
  running, returned, gone, Thread, Process, hook_event, update, real_create, direct, trampoline,
  alloc8_pthread_create, alloc8_pthread_hooks_init, has_thread_hooks,
}
use alloc.Threads.Steps.{
  Step, hooks_ready, create, advance, function_returns, function_exits, start, Reachable, initially,
  then_step,
}
use alloc.Threads.Invariant.{holder, called, Told, Valid, update-same, update-other, with_thread}
use alloc.Threads.Safety.{add_direct-Valid, add_wrapped-Valid}
use alloc.Threads.Proofs.{trampoline-Valid, user_return-Valid, pthread_exit-Valid}

-- The hooks become ready: the logs say what they said.
Told-ready :
    (hooks : Hooks) (b : Bool) (th : Thread) (st : Stage)
    → Told hooks b th st
    → Told hooks true th st
unfolding Told
Told-ready hooks b th (entry p) (w, (r, l)) = (w, (refl, l))
Told-ready hooks b th (loaded p x) (e, (w, (r, l))) = (e, (w, (refl, l)))
Told-ready hooks b th (released x) (e, (w, (r, l))) = (e, (w, (refl, l)))
Told-ready hooks b th (ready_to_call x) (e, (w, l)) = (e, ((λ _. refl), l))
Told-ready hooks b th running (w, l) = ((λ _. refl), l)
Told-ready hooks b th returned (w, l) = ((λ _. refl), l)
Told-ready hooks b th gone l = l

ready_of : (a b : Bool) → (not a || b) ≡ false → a ≡ true
ready_of true b e = refl
ready_of false b e = sym e

module _ (hooks : Hooks) (s : Process) (v : Valid hooks s) where
  hooks_init-Valid : Valid hooks (alloc8_pthread_hooks_init s)
  unfolding alloc8_pthread_hooks_init
  hooks_init-Valid = record {
    no_fault = v.no_fault;
    fresh = v.fresh;
    held = v.held;
    apart = v.apart;
    no_leak = v.no_leak;
    told = λ t th e. Told-ready hooks s.ready th th.stage (v.told t th e);
  }

  flagged-Valid : (flag : ℕ) → Valid hooks (record s { created_flag = flag })
  flagged-Valid flag = record {
    no_fault = v.no_fault;
    fresh = v.fresh;
    held = v.held;
    apart = v.apart;
    no_leak = v.no_leak;
    told = v.told;
  }

  -- A wrapper that is stored and freed at once, where none was.
  discarded-Valid :
      (w : Wrapper) (p : Ptr)
      → s.wrappers p ≡ none
      → Valid hooks
          (record s { wrappers = update (update s.wrappers p (some w)) p none; created_flag = 1 })
  discarded-Valid w p dead =
      let same : (q : Ptr) → update (update s.wrappers p (some w)) p none q ≡ s.wrappers q = λ q.
        elim (Bool-cases (q == p)) [
          | inl b ↦ rw (==→eq q p b) (update-same (update s.wrappers p (some w)) p none ∙ sym dead)
          | inr b ↦
              update-other (update s.wrappers p (some w)) p none q (==→ne q p b)
              ∙ update-other s.wrappers p (some w) q (==→ne q p b)
        ] in
      record {
        no_fault = v.no_fault;
        fresh = v.fresh;
        held = λ t th q e h. same q ∙ v.held t th q e h;
        apart = v.apart;
        no_leak = λ q x e. v.no_leak q x (sym (same q) ∙ e);
        told = v.told;
      }

  direct-Valid :
      (w : Wrapper) (error flag : ℕ)
      → Valid hooks (real_create error (direct w) (record s { created_flag = flag }))
  unfolding real_create direct holder Told hook_event with_thread
  direct-Valid w error flag = elim (Bool-cases (error == 0)) [
    | inl b ↦ rw b (
        add_direct-Valid hooks s v (direct w) flag refl
          (refl, ((λ x. absurd (true≢false (sym x))), refl)))
    | inr b ↦ rw b (flagged-Valid flag)
  ]

  create-Valid :
      (w : Wrapper) (p : Ptr) (error : ℕ)
      → (p ≡ null) ⊎ (s.wrappers p ≡ none)
      → Valid hooks (alloc8_pthread_create hooks w p error s)
  unfolding alloc8_pthread_create real_create trampoline holder Told hook_event with_thread
  create-Valid w p error dead = elim (Bool-cases (not s.ready || not (has_thread_hooks hooks))) [
    | inl b ↦ rw b (direct-Valid w error s.created_flag)
    | inr b ↦ elim (Bool-cases (p == null)) [
      | inl z ↦ rw (b, z) (direct-Valid w error 1)
      | inr z ↦ elim dead [
        | inl e ↦ absurd (==→ne p null z e)
        | inr d ↦ elim (Bool-cases (error == 0)) [
          | inl ok ↦
              rw (b, z, ok)
                (add_wrapped-Valid hooks s v (trampoline w p) p 1 d refl
                  (refl, (ready_of s.ready (not (has_thread_hooks hooks)) b, refl)))
          | inr failed ↦ rw (b, z, failed) (discarded-Valid w p d)
        ]
      ]
    ]
  ]

start-Valid : (hooks : Hooks) → Valid hooks start
unfolding start
start-Valid hooks = record {
  no_fault = refl;
  fresh = λ u le. refl;
  held = λ u uh p e h. absurd (none≢some e);
  apart = λ u u' uh uh' p e e' h h'. absurd (none≢some e);
  no_leak = λ p w e. absurd (none≢some e);
  told = λ u uh e. absurd (none≢some e);
}

pub Step-Valid : (hooks : Hooks) (s s' : Process) → Valid hooks s → Step hooks s s' → Valid hooks s'
Step-Valid hooks s _ v hooks_ready = hooks_init-Valid hooks s v
Step-Valid hooks s _ v (create w p error dead) = create-Valid hooks s v w p error dead
Step-Valid hooks s _ v (advance t th at) = trampoline-Valid hooks s v t th at th.stage refl
Step-Valid hooks s _ v (function_returns t th at run) = user_return-Valid hooks s v t th at run
Step-Valid hooks s _ v (function_exits t th at run) = pthread_exit-Valid hooks s v t th at run

-- In every state that the process reaches, no freed wrapper was read or freed, each thread that has
-- not freed its wrapper has one with its own task, no two share one, and every live wrapper is that of
-- such a thread: none leaks.
pub Reachable-Valid : (hooks : Hooks) (s : Process) → Reachable hooks s → Valid hooks s
Reachable-Valid hooks _ initially = start-Valid hooks
Reachable-Valid hooks _ (then_step s s' r st) = Step-Valid hooks s s' (Reachable-Valid hooks s r) st

-- A thread of the trampoline that is gone, by return or by pthread_exit, has run the init hook, then
-- the user's function with the argument given to pthread_create, then the cleanup hook, each once
-- where the allocator defines it.
pub gone_thread-log :
    (hooks : Hooks) (s : Process) (t : ℕ) (th : Thread)
    → Reachable hooks s
    → s.threads t ≡ some th
    → th.wrapped ≡ true
    → th.stage ≡ gone
    → th.log
      ≡ hook_event hooks.init init_hook
        ++ (user_call th.task ∷ hook_event hooks.cleanup cleanup_hook)
unfolding called Told
gone_thread-log hooks s t th r at w g =
    let tells = rw g at ((Reachable-Valid hooks s r).told t th at) in
    tells.0 w
    ∙ (ap
          (λ b.
            (hook_event (b && hooks.init) init_hook ++ (user_call th.task ∷ []))
            ++ hook_event hooks.cleanup cleanup_hook)
          w
        ∙ append_assoc (hook_event hooks.init init_hook) (user_call th.task ∷ [])
            (hook_event hooks.cleanup cleanup_hook))
