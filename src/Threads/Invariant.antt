-- ===== src/Threads/Invariant.antt =====
-- What every state of the process keeps. A wrapper is live exactly while one thread of the trampoline
-- has not freed it, and then holds what that thread was made for; and the log of a thread tells the
-- hooks around the user's function.
use alloc.Base.{
  ℕ, ◌≤◌, Bool, true, false, ◌&&◌, Option, none, some, ◌==◌, ◌≡◌, ◌≢◌, ◌⊎◌, inl, inr, refl, sym, ap,
  ◌∙◌, List, [], ◌∷◌, ◌++◌, Bool-cases, ==→eq, ==→ne, eq→==, ne→==, some-injective,
}
use alloc.Machine.{Ptr}
use alloc.Threads.{
  Hooks, Wrapper, Event, init_hook, user_call, cleanup_hook, Stage, entry, loaded, released,
  ready_to_call, running, returned, gone, Thread, Process, hook_event, update,
}

-- The wrapper that a thread has yet to free.
unfoldable pub holder : Stage → Option Ptr
holder (entry p) = some p
holder (loaded p w) = some p
holder (released w) = none
holder (ready_to_call w) = none
holder running = none
holder returned = none
holder gone = none

-- The events up to the call of the user's function, that call included.
unfoldable pub called : Hooks → Thread → List Event
unfolding hook_event
called hooks th = hook_event (th.wrapped && hooks.init) init_hook ++ (user_call th.task ∷ [])

-- What the stage of a thread says of its log; `ready` says whether the hooks are ready.
unfoldable pub Told : Hooks → (ready : Bool) → Thread → Stage → Type 0
unfolding hook_event called
Told hooks ready th (entry p) = (th.wrapped ≡ true) × ((ready ≡ true) × (th.log ≡ []))
Told hooks ready th (loaded p w) =
    (w ≡ th.task) × ((th.wrapped ≡ true) × ((ready ≡ true) × (th.log ≡ [])))
Told hooks ready th (released w) =
    (w ≡ th.task) × ((th.wrapped ≡ true) × ((ready ≡ true) × (th.log ≡ [])))
Told hooks ready th (ready_to_call w) =
    (w ≡ th.task)
    × ((th.wrapped ≡ true → ready ≡ true)
        × (th.log ≡ hook_event (th.wrapped && hooks.init) init_hook))
Told hooks ready th running = (th.wrapped ≡ true → ready ≡ true) × (th.log ≡ called hooks th)
Told hooks ready th returned = (th.wrapped ≡ true → ready ≡ true) × (th.log ≡ called hooks th)
Told hooks ready th gone =
    (th.wrapped ≡ true → th.log ≡ called hooks th ++ hook_event hooks.cleanup cleanup_hook)
    × ((th.log ≡ called hooks th)
        ⊎ (th.log ≡ called hooks th ++ hook_event hooks.cleanup cleanup_hook))

pub record Valid (hooks : Hooks) (s : Process) : Type 0 where
  pub no_fault : s.faulted ≡ false
  pub fresh : (t : ℕ) → s.count ≤ t → s.threads t ≡ none
  pub held :
      (t : ℕ) (th : Thread) (p : Ptr)
      → s.threads t ≡ some th
      → holder th.stage ≡ some p
      → s.wrappers p ≡ some th.task
  pub apart :
      (t u : ℕ) (th uh : Thread) (p : Ptr)
      → s.threads t ≡ some th
      → s.threads u ≡ some uh
      → holder th.stage ≡ some p
      → holder uh.stage ≡ some p
      → t ≡ u
  pub no_leak :
      (p : Ptr) (w : Wrapper)
      → s.wrappers p ≡ some w
      → (t : ℕ) × ((th : Thread) × ((s.threads t ≡ some th) × (holder th.stage ≡ some p)))
  pub told : (t : ℕ) (th : Thread) → s.threads t ≡ some th → Told hooks s.ready th th.stage

pub update_cases :
    {A : Type 0} (f : ℕ → A) (k : ℕ) (x : A) (a : ℕ) (y : A)
    → update f k x a ≡ y
    → (a ≡ k) × (x ≡ y) ⊎ (a ≢ k) × (f a ≡ y)
unfolding update
update_cases f k x a y e = elim (Bool-cases (a == k)) [
  | inl b ↦ inl (==→eq a k b, rw b at e)
  | inr b ↦ inr (==→ne a k b, rw b at e)
]

pub update-same : {A : Type 0} (f : ℕ → A) (k : ℕ) (x : A) → update f k x k ≡ x
unfolding update
update-same f k x = rw (eq→== k k refl) refl

pub update-other : {A : Type 0} (f : ℕ → A) (k : ℕ) (x : A) (a : ℕ) → a ≢ k → update f k x a ≡ f a
unfolding update
update-other f k x a ne = rw (ne→== a k ne) refl

-- The state in which thread `t` is `th`, the wrappers are `ws`, and there are `n` threads.
unfoldable pub with_thread : Process → ℕ → Thread → (Ptr → Option Wrapper) → (n flag : ℕ) → Process
with_thread s t th ws n flag = record {
  ready = s.ready;
  created_flag = flag;
  wrappers = ws;
  threads = update s.threads t (some th);
  count = n;
  faulted = s.faulted;
}

-- A change of one thread and of the wrappers keeps the invariant where the wrappers that the other
-- threads hold stay, and the others are those that this thread holds.
pub with_thread-Valid :
    (hooks : Hooks) (s : Process) (t : ℕ) (th : Thread) (ws : Ptr → Option Wrapper) (n flag : ℕ)
    → Valid hooks s
    → ((u : ℕ) → n ≤ u → (u ≢ t) × (s.threads u ≡ none))
    → ((u : ℕ) (uh : Thread) (p : Ptr)
        → u ≢ t
        → s.threads u ≡ some uh
        → holder uh.stage ≡ some p
        → (ws p ≡ some uh.task) × (holder th.stage ≢ some p))
    → ((p : Ptr) → holder th.stage ≡ some p → ws p ≡ some th.task)
    → ((p : Ptr) (w : Wrapper)
        → ws p ≡ some w
        → (holder th.stage ≡ some p)
          ⊎ (u : ℕ) × ((uh : Thread) × ((u ≢ t)
                × ((s.threads u ≡ some uh) × (holder uh.stage ≡ some p)))))
    → Told hooks s.ready th th.stage
    → Valid hooks (with_thread s t th ws n flag)
unfolding with_thread
with_thread-Valid hooks s t th ws n flag v fresh others own leak tells = record {
  no_fault = v.no_fault;
  fresh = λ u le. update-other s.threads t (some th) u (fresh u le).0 ∙ (fresh u le).1;
  held = λ u uh p e h. elim (update_cases s.threads t (some th) u (some uh) e) [
    | inl (eu, ex) ↦
        own p (ap (λ x. holder x.stage) (some-injective ex) ∙ h)
        ∙ ap (λ x. some x.task) (some-injective ex)
    | inr (ne, old) ↦ (others u uh p ne old h).0
  ];
  apart = λ u u' uh uh' p e e' h h'. elim (update_cases s.threads t (some th) u (some uh) e) [
    | inl (eu, ex) ↦ elim (update_cases s.threads t (some th) u' (some uh') e') [
      | inl (eu', ex') ↦ eu ∙ sym eu'
      | inr (ne', old') ↦
          absurd
            ((others u' uh' p ne' old' h').1 (ap (λ x. holder x.stage) (some-injective ex) ∙ h))
    ]
    | inr (ne, old) ↦ elim (update_cases s.threads t (some th) u' (some uh') e') [
      | inl (eu', ex') ↦
          absurd ((others u uh p ne old h).1 (ap (λ x. holder x.stage) (some-injective ex') ∙ h'))
      | inr (ne', old') ↦ v.apart u u' uh uh' p old old' h h'
    ]
  ];
  no_leak = λ p w e. elim (leak p w e) [
    | inl h ↦ (t, (th, (update-same s.threads t (some th), h)))
    | inr (u, (uh, (ne, (eu, hu)))) ↦ (u, (uh, (update-other s.threads t (some th) u ne ∙ eu, hu)))
  ];
  told = λ u uh e. elim (update_cases s.threads t (some th) u (some uh) e) [
    | inl (eu, ex) ↦ rw (sym (some-injective ex)) tells
    | inr (ne, old) ↦ v.told u uh old
  ];
}
