-- ===== src/Forks/Progress.antt =====
-- A lock that is taken comes free again, in a child of a fork as well.
use alloc.Base.{ℕ, ◌≡◌, refl, sym, ap, ◌∙◌, Bool, true, false, Option, none, some, true≢false}
use alloc.Machine.{Machine, M, ok}
use alloc.Heap.{Allocator}
use alloc.Forks.{
  Handlers, Registers, register_fork_handlers, Stage, outside, inside, prepared, in_parent,
  in_child, holds, Process, IsLock, gives_back, forks, after_in_parent, after_in_child, Reachable,
  Alone, stays, goes,
}
use alloc.Forks.Released.{
  Guards, register_fork_handlers-Guards, holds_at, Reachable-Kept, returned, set-here,
}

module _ {H : Type 0} (locked : H → Bool) (A : Allocator H) (is : IsLock locked A) where
  module _ (h : Handlers H) (g : Guards A h) (t : ℕ) where
    -- At most two steps of thread `t` free the lock.
    abbrev Frees : Process H → Type 0
    Frees s = (s' : Process H) × Alone locked A h t 2 s s' × (locked s'.machine.heap ≡ false)

    unlocks :
        (s : Process H)
        → locked s.machine.heap ≡ true
        → (m' : Machine H) × (A.unlock s.machine ≡ ok tt m') × (locked m'.heap ≡ false)
    unlocks s taken = returned (is.unlock-Freed s.machine taken)

    by_parent :
        (f : M H (Unit {0})) (m m' : Machine H)
        → f ≡ A.unlock
        → A.unlock m ≡ ok tt m'
        → f m ≡ ok tt m'
    by_parent f m m' same e = ap (λ (k : M H (Unit {0})). k m) same ∙ e

    frees :
        (s : Process H) (o : Option Stage)
        → s.stage t ≡ o
        → holds_at o ≡ true
        → locked s.machine.heap ≡ true
        → Frees s
    unfolding holds
    frees s none at hold taken = absurd (true≢false (sym hold))
    frees s (some outside) at hold taken = absurd (true≢false (sym hold))
    frees s (some inside) at hold taken =
        let (m', e, free) = unlocks s taken in
        (_, goes 1 s _ _ (gives_back m' at e) (stays 1 _), free)
    frees s (some in_parent) at hold taken =
        let (m', e, free) = unlocks s taken in
        (
          _,
          goes 1 s _ _ (after_in_parent m' at (by_parent h.parent s.machine m' g.parent e))
              (stays 1 _),
          free,
        )
    frees s (some in_child) at hold taken =
        let (m', e, free) = unlocks s taken in
        (
          _,
          goes 1 s _ _ (after_in_child m' at (by_parent h.child s.machine m' g.child e))
              (stays 1 _),
          free,
        )
    frees s (some prepared) at hold taken =
        let (m', e, free) = unlocks s taken in
        (
          _,
          goes 1 s _ _ (forks at) (
              goes 0 _ _ _
                (after_in_parent m' (set-here t (some in_parent) s.stage)
                  (by_parent h.parent s.machine m' g.parent e))
                (stays 0 _)),
          free,
        )

  -- Where lock() and unlock() of the allocator take and free a lock, whichever wrapper registers
  -- its handlers, in every process that comes of one with a free lock by any steps, forks among
  -- them, a lock that is taken is with a thread that the process has, and at most two steps of this
  -- thread alone give it back.
  pub taken_lock-Released :
      (w : Registers) (s : Process H)
      → Reachable locked A (register_fork_handlers w A) s
      → locked s.machine.heap ≡ true
      → (t : ℕ) × (holds_at (s.stage t) ≡ true)
        × (s' : Process H) × Alone locked A (register_fork_handlers w A) t 2 s s'
        × (locked s'.machine.heap ≡ false)
  taken_lock-Released w s r taken =
      let h = register_fork_handlers w A in
      let g = register_fork_handlers-Guards A w in
      let (t, hold) = (Reachable-Kept locked A is h g s r).with_thread taken in
      let (s', alone, free) = frees h g t s (s.stage t) refl hold taken in
      (t, hold, s', alone, free)
