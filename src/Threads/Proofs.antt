-- ===== src/Threads/Proofs.antt =====
-- Each step is one of the changes of Threads/Safety.antt, so every reachable state is valid.
use alloc.Base.{
  ℕ, ◌&&◌, some, ◌≡◌, inl, inr, refl, sym, ap, ◌∙◌, [], ◌∷◌, ◌++◌, Bool-cases, true≢false,
}
use mathlib.Core.List.{append-nil}
use alloc.Threads.{
  Hooks, init_hook, user_call, cleanup_hook, Stage, entry, loaded, released, ready_to_call, running,
  returned, gone, Thread, Process, put_thread, hook_event, alloc8_thread_trampoline, read_wrapper,
  free_wrapper, user_return, alloc8_pthread_exit,
}
use alloc.Threads.Invariant.{holder, called, Told, Valid, with_thread}
use alloc.Threads.Safety.{put_thread-Valid, release-Valid}

module _ (hooks : Hooks) (s : Process) (v : Valid hooks s) (t : ℕ) (th : Thread)
    (at : s.threads t ≡ some th) where
  pub trampoline-Valid :
      (st : Stage) → th.stage ≡ st → Valid hooks (alloc8_thread_trampoline hooks t th st s)
  unfolding alloc8_thread_trampoline read_wrapper free_wrapper put_thread holder Told called
      hook_event with_thread
  trampoline-Valid (entry p) e =
      let (w, (r, l)) = rw e at (v.told t th at) in
      rw (v.held t th p at (ap holder e), read_wrapper)
        (put_thread-Valid hooks s v t th at (record th { stage = loaded p th.task }) refl
          (sym (ap holder e)) (refl, (w, (r, l))))
  trampoline-Valid (loaded p w) e =
      let (ew, (wr, (r, l))) = rw e at (v.told t th at) in
      rw (v.held t th p at (ap holder e), free_wrapper)
        (release-Valid hooks s v t th at (record th { stage = released w }) p (ap holder e) refl
          (ew, (wr, (r, l))))
  trampoline-Valid (released w) e =
      let (ew, (wr, (r, l))) = rw e at (v.told t th at) in
      put_thread-Valid hooks s v t th at
        (record th { stage = ready_to_call w; log = th.log ++ hook_event hooks.init init_hook })
        refl (sym (ap holder e)) (ew, ((λ x. r), rw (l, wr) refl))
  trampoline-Valid (ready_to_call w) e =
      let (ew, (wr, l)) = rw e at (v.told t th at) in
      put_thread-Valid hooks s v t th at
        (record th { stage = running; log = th.log ++ (user_call w ∷ []) }) refl (sym (ap holder e))
        (wr, rw (l, ew) refl)
  trampoline-Valid running e = v
  trampoline-Valid returned e =
      let (wr, l) = rw e at (v.told t th at) in
      put_thread-Valid hooks s v t th at
        (record th {
          stage = gone;
          log = th.log ++ hook_event (th.wrapped && hooks.cleanup) cleanup_hook;
        })
        refl (sym (ap holder e))
        (elim (Bool-cases th.wrapped) [
          | inl b ↦ ((λ x. rw (l, b) refl), inr (rw (l, b) refl))
          | inr b ↦ (
            (λ x. absurd (true≢false (sym x ∙ b))),
            inl (
                ap (λ x. th.log ++ hook_event (x && hooks.cleanup) cleanup_hook) b
                ∙ (append-nil th.log ∙ l)),
          )
        ])
  trampoline-Valid gone e = v

  pub user_return-Valid : th.stage ≡ running → Valid hooks (user_return t th s)
  unfolding user_return put_thread holder Told with_thread
  user_return-Valid e =
      put_thread-Valid hooks s v t th at (record th { stage = returned }) refl (sym (ap holder e))
        (rw e at (v.told t th at))

  pub pthread_exit-Valid : th.stage ≡ running → Valid hooks (alloc8_pthread_exit hooks t th s)
  unfolding alloc8_pthread_exit put_thread holder Told called hook_event with_thread
  pthread_exit-Valid e =
      let (wr, l) = rw e at (v.told t th at) in
      put_thread-Valid hooks s v t th at
        (record th {
          stage = gone;
          log = th.log ++ hook_event (s.ready && hooks.cleanup) cleanup_hook;
        })
        refl (sym (ap holder e))
        (elim (Bool-cases s.ready) [
          | inl b ↦ ((λ x. rw (l, b) refl), inr (rw (l, b) refl))
          | inr b ↦ (
            (λ x. absurd (true≢false (sym (wr x) ∙ b))),
            inl (
                ap (λ x. th.log ++ hook_event (x && hooks.cleanup) cleanup_hook) b
                ∙ (append-nil th.log ∙ l)),
          )
        ])
