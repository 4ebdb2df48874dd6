-- ===== src/Forks/Released.antt =====
-- In every process the lock, if it is taken, is with one of the threads that the process has.
use alloc.Base.{
  ℕ, ◌≡◌, refl, sym, ap, ◌∙◌, Bool, true, false, Option, none, some, ◌==◌, inl, inr, Bool-cases,
  ==→eq, ==→ne, eq→==, true≢false,
}
use alloc.Machine.{Machine, M, Run, ok}
use alloc.Machine.Yields.{Yields, yields, yielded}
use alloc.Heap.{Allocator}
use alloc.Redirect.{alloc8_redirect}
use alloc.Linux.Wrapper
use alloc.Linux.Header
use alloc.Mac.{replace_malloc_fork_prepare, replace_malloc_fork_parent, replace_malloc_fork_child}
use alloc.Forks.{
  Handlers, Registers, library, header_only, macos, register_fork_handlers, Stage, outside, inside,
  prepared, in_parent, in_child, holds, Process, set, only, IsLock, Step, starts, ends, works,
  takes, gives_back, prepares, forks, is_born, after_in_parent, after_in_child, Reachable,
  starts_as, then_step,
}

-- The handlers are the lock and unlock of the allocator.
module _ {H : Type 0} (A : Allocator H) where
  pub record Guards (h : Handlers H) : Type 0 where
    pub prepare : h.prepare ≡ A.lock
    pub parent : h.parent ≡ A.unlock
    pub child : h.child ≡ A.unlock

  pub register_fork_handlers-Guards : (w : Registers) → Guards (register_fork_handlers w A)
  unfolding register_fork_handlers alloc8_redirect Wrapper.fork_prepare Wrapper.fork_parent
      Wrapper.fork_child Header.alloc8_fork_prepare Header.alloc8_fork_parent
      Header.alloc8_fork_child replace_malloc_fork_prepare replace_malloc_fork_parent
      replace_malloc_fork_child
  register_fork_handlers-Guards library = record { prepare = refl; parent = refl; child = refl }
  register_fork_handlers-Guards header_only = record { prepare = refl; parent = refl; child = refl }
  register_fork_handlers-Guards macos = record { prepare = refl; parent = refl; child = refl }

abbrev pub holds_at : Option Stage → Bool
holds_at none = false
holds_at (some st) = holds st

-- A lock, and the stages of the threads: a taken lock is with one thread.
pub record Kept (taken : Bool) (stage : ℕ → Option Stage) : Type 0 where
  pub with_thread : taken ≡ true → (t : ℕ) × (holds_at (stage t) ≡ true)
  pub for_thread : (t : ℕ) → holds_at (stage t) ≡ true → taken ≡ true
  pub one : (t k : ℕ) → holds_at (stage t) ≡ true → holds_at (stage k) ≡ true → t ≡ k

pub set-here : (t : ℕ) (st : Option Stage) (stage : ℕ → Option Stage) → set t st stage t ≡ st
unfolding set
set-here t st stage = rw (eq→== t t refl) refl

Kept-same :
    (b : Bool) (stage stage' : ℕ → Option Stage)
    → ((k : ℕ) → holds_at (stage' k) ≡ holds_at (stage k))
    → Kept b stage
    → Kept b stage'
Kept-same b stage stage' same i = record {
  with_thread = λ e. let (t, h) = i.with_thread e in (t, same t ∙ h);
  for_thread = λ t h. i.for_thread t (sym (same t) ∙ h);
  one = λ t k h h'. i.one t k (sym (same t) ∙ h) (sym (same k) ∙ h');
}

-- One thread goes from one stage to another of the same kind.
holds_at-set :
    (t : ℕ) (st : Option Stage) (stage : ℕ → Option Stage)
    → holds_at st ≡ holds_at (stage t)
    → (k : ℕ) → holds_at (set t st stage k) ≡ holds_at (stage k)
unfolding set
holds_at-set t st stage e k = elim (Bool-cases (k == t)) [
  | inl b ↦ rw b (e ∙ ap (λ (x : ℕ). holds_at (stage x)) (sym (==→eq k t b)))
  | inr b ↦ rw b refl
]

module _ (t : ℕ) (stage : ℕ → Option Stage) where
  Kept-take : (st : Stage) → holds st ≡ true → Kept false stage → Kept true (set t (some st) stage)
  unfolding set
  Kept-take st h i = record {
    with_thread = λ _. (t, rw (eq→== t t refl) h);
    for_thread = λ _ _. refl;
    one = λ k l hk hl. is_t k hk ∙ sym (is_t l hl);
  }
    where
      is_t : (k : ℕ) → holds_at (set t (some st) stage k) ≡ true → k ≡ t
      is_t k hk = elim (Bool-cases (k == t)) [
        | inl b ↦ ==→eq k t b
        | inr b ↦ absurd (true≢false (sym (i.for_thread k (rw b at hk))))
      ]

  Kept-free : holds_at (stage t) ≡ true → Kept true stage → Kept false (set t (some outside) stage)
  unfolding set holds
  Kept-free h i = record {
    with_thread = λ e. absurd (true≢false (sym e));
    for_thread = λ k hk. absurd (nowhere k hk);
    one = λ k l hk hl. absurd (nowhere k hk);
  }
    where
      nowhere : (k : ℕ) → holds_at (set t (some outside) stage k) ≡ true → ⊥
      nowhere k hk = elim (Bool-cases (k == t)) [
        | inl b ↦ true≢false (sym (rw b at hk))
        | inr b ↦ ==→ne k t b (i.one k t (rw b at hk) h)
      ]

Kept-only : (t : ℕ) (st : Stage) → Kept (holds st) (only t st)
unfolding only
Kept-only t st = record {
  with_thread = λ e. (t, rw (eq→== t t refl) e);
  for_thread = λ k hk. elim (Bool-cases (k == t)) [
    | inl b ↦ rw b at hk
    | inr b ↦ absurd (true≢false (sym (rw b at hk)))
  ];
  one = λ k l hk hl. is_t k hk ∙ sym (is_t l hl);
}
  where
    is_t : (k : ℕ) → holds_at (only t st k) ≡ true → k ≡ t
    is_t k hk = elim (Bool-cases (k == t)) [
      | inl b ↦ ==→eq k t b
      | inr b ↦ absurd (true≢false (sym (rw b at hk)))
    ]

-- A call that yields returns.
pub returned :
    {H : Type 0} {P : Unit {0} → Machine H → Type 0} {r : Run H (Unit {0})}
    → Yields P r
    → (m : Machine H) × (r ≡ ok tt m) × P tt m
returned (yields {a = a} {m = m} p) = (m, refl, p)

module _ {H : Type 0} (locked : H → Bool) (A : Allocator H) (is : IsLock locked A) (h : Handlers H)
    (g : Guards A h) where
  taken_after :
      (m m' : Machine H) → locked m.heap ≡ false → A.lock m ≡ ok tt m' → locked m'.heap ≡ true
  taken_after m m' free e =
      let y = is.lock-Taken m free in yielded (λ _ m'. locked m'.heap ≡ true) tt m' (rw e at y)

  free_after :
      (m m' : Machine H) → locked m.heap ≡ true → A.unlock m ≡ ok tt m' → locked m'.heap ≡ false
  free_after m m' taken e =
      let y = is.unlock-Freed m taken in yielded (λ _ m'. locked m'.heap ≡ false) tt m' (rw e at y)

  -- A thread that has the lock gives it back.
  freed-Kept :
      (t : ℕ) (s : Process H) (m' : Machine H) (st : Stage)
      → s.stage t ≡ some st
      → holds st ≡ true
      → A.unlock s.machine ≡ ok tt m'
      → Kept (locked s.machine.heap) s.stage
      → Kept (locked m'.heap) (set t (some outside) s.stage)
  freed-Kept t s m' st at h e i =
      let here = ap holds_at at ∙ h in
      let taken = i.for_thread t here in
      rw (free_after s.machine m' taken e) (Kept-free t s.stage here (rw taken at i))

  taken-Kept :
      (t : ℕ) (s : Process H) (m' : Machine H) (st : Stage)
      → holds st ≡ true
      → locked s.machine.heap ≡ false
      → A.lock s.machine ≡ ok tt m'
      → Kept (locked s.machine.heap) s.stage
      → Kept (locked m'.heap) (set t (some st) s.stage)
  taken-Kept t s m' st h free e i =
      rw (taken_after s.machine m' free e) (Kept-take t s.stage st h (rw free at i))

  Step-Kept :
      (t : ℕ) (s s' : Process H)
      → Step locked A h t s s'
      → Kept (locked s.machine.heap) s.stage
      → Kept (locked s'.machine.heap) s'.stage
  unfolding holds
  Step-Kept t s s' (starts k e) i =
      Kept-same _ s.stage _ (holds_at-set k (some outside) s.stage (sym (ap holds_at e))) i
  Step-Kept t s s' (ends e) i =
      Kept-same _ s.stage _ (holds_at-set t none s.stage (sym (ap holds_at e))) i
  Step-Kept t s s' (works m' same) i = rw same i
  Step-Kept t s s' (takes m' at free e) i = taken-Kept t s m' inside refl free e i
  Step-Kept t s s' (gives_back m' at e) i = freed-Kept t s m' inside at refl e i
  Step-Kept t s s' (prepares m' at free e) i =
      taken-Kept t s m' prepared refl free
        (sym (ap (λ (f : M H (Unit {0})). f s.machine) g.prepare) ∙ e) i
  Step-Kept t s s' (forks at) i =
      Kept-same _ s.stage _ (holds_at-set t (some in_parent) s.stage (sym (ap holds_at at))) i
  Step-Kept t s s' (is_born at) i = rw (i.for_thread t (ap holds_at at)) (Kept-only t in_child)
  Step-Kept t s s' (after_in_parent m' at e) i =
      freed-Kept t s m' in_parent at refl
        (sym (ap (λ (f : M H (Unit {0})). f s.machine) g.parent) ∙ e) i
  Step-Kept t s s' (after_in_child m' at e) i =
      freed-Kept t s m' in_child at refl
        (sym (ap (λ (f : M H (Unit {0})). f s.machine) g.child) ∙ e) i

  pub Reachable-Kept :
      (s : Process H) → Reachable locked A h s → Kept (locked s.machine.heap) s.stage
  unfolding holds
  Reachable-Kept s (starts_as t m free) = rw free (Kept-only t outside)
  Reachable-Kept s (then_step t s0 s1 r step) = Step-Kept t s0 s step (Reachable-Kept s0 r)
