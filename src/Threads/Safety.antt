-- ===== src/Threads/Safety.antt =====
-- Every step keeps the invariant, so every reachable state has it.
use alloc.Base.{
  ℕ, suc, ◌≤◌, none, some, ◌==◌, ◌≡◌, ◌≢◌, inl, inr, sym, ap, ◌∙◌, arith, Bool-cases, ==→eq, ==→ne,
  some-injective, none≢some,
}
use alloc.Machine.{Ptr}
use alloc.Threads.{Hooks, Thread, Process, update}
use alloc.Threads.Invariant.{
  holder, Told, Valid, update_cases, update-same, update-other, with_thread, with_thread-Valid,
}

module _ (hooks : Hooks) (s : Process) (v : Valid hooks s) where
  module _ (t : ℕ) (th : Thread) (at : s.threads t ≡ some th) where
    -- A number that is not in use is not that of the thread.
    unused : (u : ℕ) → s.count ≤ u → (u ≢ t) × (s.threads u ≡ none)
    unused u le = ((λ e. none≢some (sym (v.fresh u le) ∙ (ap s.threads e ∙ at))), v.fresh u le)

    apart_of :
        (u : ℕ) (uh : Thread) (p : Ptr)
        → u ≢ t
        → s.threads u ≡ some uh
        → holder uh.stage ≡ some p
        → holder th.stage ≢ some p
    apart_of u uh p ne eu hu ht = ne (v.apart u t uh th p eu at hu ht)

    -- A thread that goes on, and holds the wrapper that it held.
    pub put_thread-Valid :
        (th' : Thread)
        → th'.task ≡ th.task
        → holder th'.stage ≡ holder th.stage
        → Told hooks s.ready th' th'.stage
        → Valid hooks (with_thread s t th' s.wrappers s.count s.created_flag)
    put_thread-Valid th' same_task same_holder tells =
        with_thread-Valid hooks s t th' s.wrappers s.count s.created_flag v unused
          (λ u uh p ne eu hu.
            (v.held u uh p eu hu, (λ h. apart_of u uh p ne eu hu (sym same_holder ∙ h))))
          (λ p h. v.held t th p at (sym same_holder ∙ h) ∙ ap some (sym same_task))
          (λ p w e.
            let (u, (uh, (eu, hu))) = v.no_leak p w e in
            elim (Bool-cases (u == t)) [
              | inl b ↦ inl (
                  same_holder
                  ∙ (ap (λ x. holder x.stage)
                        (some-injective (sym at ∙ (ap s.threads (sym (==→eq u t b)) ∙ eu)))
                      ∙ hu))
              | inr b ↦ inr (u, (uh, (==→ne u t b, (eu, hu))))
            ])
          tells

    -- The thread frees its wrapper.
    pub release-Valid :
        (th' : Thread) (p : Ptr)
        → holder th.stage ≡ some p
        → holder th'.stage ≡ none
        → Told hooks s.ready th' th'.stage
        → Valid hooks (with_thread s t th' (update s.wrappers p none) s.count s.created_flag)
    release-Valid th' p ht empty tells =
        with_thread-Valid hooks s t th' (update s.wrappers p none) s.count s.created_flag v unused
          (λ u uh q ne eu hu. (
            update-other s.wrappers p none q (λ e. apart_of u uh q ne eu hu (ht ∙ ap some (sym e)))
                ∙ v.held u uh q eu hu,
            (λ h. none≢some (sym empty ∙ h)),
          ))
          (λ q h. absurd (none≢some (sym empty ∙ h)))
          (λ q w e. elim (update_cases s.wrappers p none q (some w) e) [
            | inl (eq, ex) ↦ absurd (none≢some ex)
            | inr (ne, old) ↦
                let (u, (uh, (eu, hu))) = v.no_leak q w old in
                inr (
                  u,
                  (
                    uh,
                    (
                      (λ e'. ne (
                          some-injective (
                            sym hu
                            ∙ (ap (λ x. holder x.stage)
                                  (some-injective (sym eu ∙ (ap s.threads e' ∙ at)))
                                ∙ ht)))),
                      (eu, hu),
                    ),
                  ),
                )
          ])
          tells

  unused_after : (u : ℕ) → suc s.count ≤ u → (u ≢ s.count) × (s.threads u ≡ none)
  unused_after u le = ((λ e. ground arith), v.fresh u (omega arith))

  old_thread : (u : ℕ) (uh : Thread) → s.threads u ≡ some uh → u ≢ s.count
  old_thread u uh eu e = none≢some (sym (v.fresh u (omega arith)) ∙ eu)

  -- A new thread without a wrapper.
  pub add_direct-Valid :
      (th : Thread) (flag : ℕ)
      → holder th.stage ≡ none
      → Told hooks s.ready th th.stage
      → Valid hooks (with_thread s s.count th s.wrappers (suc s.count) flag)
  add_direct-Valid th flag empty tells =
      with_thread-Valid hooks s s.count th s.wrappers (suc s.count) flag v unused_after
        (λ u uh p ne eu hu. (v.held u uh p eu hu, (λ h. none≢some (sym empty ∙ h))))
        (λ p h. absurd (none≢some (sym empty ∙ h)))
        (λ p w e.
          let (u, (uh, (eu, hu))) = v.no_leak p w e in
          inr (u, (uh, (old_thread u uh eu, (eu, hu)))))
        tells

  -- A new thread with a wrapper that was not live.
  pub add_wrapped-Valid :
      (th : Thread) (p : Ptr) (flag : ℕ)
      → s.wrappers p ≡ none
      → holder th.stage ≡ some p
      → Told hooks s.ready th th.stage
      → Valid hooks
          (with_thread s s.count th (update s.wrappers p (some th.task)) (suc s.count) flag)
  add_wrapped-Valid th p flag dead ht tells =
      with_thread-Valid hooks s s.count th (update s.wrappers p (some th.task)) (suc s.count) flag v
        unused_after
        (λ u uh q ne eu hu.
          let differs : q ≢ p =
            λ e. none≢some (sym dead ∙ (ap s.wrappers (sym e) ∙ v.held u uh q eu hu)) in
          (
            update-other s.wrappers p (some th.task) q differs ∙ v.held u uh q eu hu,
            (λ h. differs (some-injective (sym h ∙ ht))),
          ))
        (λ q h. rw (some-injective (sym h ∙ ht)) (update-same s.wrappers p (some th.task)))
        (λ q w e. elim (update_cases s.wrappers p (some th.task) q (some w) e) [
          | inl (eq, ex) ↦ inl (ht ∙ ap some (sym eq))
          | inr (ne, old) ↦
              let (u, (uh, (eu, hu))) = v.no_leak q w old in
              inr (u, (uh, (old_thread u uh eu, (eu, hu))))
        ])
        tells
