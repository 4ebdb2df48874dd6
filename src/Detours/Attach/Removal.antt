-- ===== src/Detours/Attach/Removal.antt =====
-- RemoveDetours of win_wrapper_detours.cpp after InstallDetours, where no more than one module is a C
-- runtime.
use alloc.Base.{
  ℕ, ◌+◌, ◌≤◌, List, [], ◌∷◌, true, false, ◌&&◌, not, Option, none, some, ◌==◌, ◌≡◌, ◌≢◌, ◌⊎◌, refl,
  sym, ap, ◌∙◌, if◌then◌else◌, inl, inr, Bool-cases, ==→eq, ==→ne, eq→==, ne→==, arith,
}
use alloc.Machine.{Ptr, null}
use alloc.Detours.Attach.{
  DetourEntry, Module, Detoured, set_detour, attach_detour, attach_all, attach_modules,
  commit_pointer, commit_pointers, install_detours, detach_detour, detach_all, remove_detours,
}

pub set_detour-same : (d : Detoured) (p : Ptr) (f : Option Ptr) → set_detour d p f p ≡ f
unfolding set_detour
set_detour-same d p f = rw (eq→== p p refl) refl

pub set_detour-other :
    (d : Detoured) (p a : Ptr) (f : Option Ptr) → a ≢ p → set_detour d p f a ≡ d a
unfolding set_detour
set_detour-other d p a f ne = rw (ne→== a p ne) refl

-- How many modules are C runtimes.
unfoldable pub crt_count : List Module → ℕ
crt_count [] = 0
crt_count (h ∷ hs) = (if h.is_crt then 1 else 0) + crt_count hs

-- No transaction is open.
unfoldable pub NonePending : List DetourEntry → Type 0
NonePending [] = Unit
NonePending (e ∷ es) = (e.pending ≡ []) × NonePending es

-- An attached entry has the function at `a` pending, and no other.
Pends : List DetourEntry → Ptr → Type 0
Pends [] a = ⊥
Pends (e ∷ es) a = (e.attached ≡ true) × (e.pending ≡ a ∷ []) × (a ≢ null) ⊎ Pends es a

module _ (trampoline : Ptr → Ptr) (written : Ptr → List Ptr → Ptr) where
  commit_pointer-attached :
      (e : DetourEntry) → e.attached ≡ true → (commit_pointer trampoline written e).attached ≡ true
  unfolding commit_pointer
  commit_pointer-attached e at = go e.pending
    where
      go :
          (ps : List Ptr)
          → (elim ps as (λ _. DetourEntry) [
            | [] ↦ e
            | p ∷ qs ↦ record e { original = trampoline (written p qs); pending = [] }
          ]).attached
            ≡ true
      go [] = at
      go (p ∷ qs) = at

  commit_pointer-original :
      (e : DetourEntry) (a : Ptr)
      → e.pending ≡ a ∷ []
      → (commit_pointer trampoline written e).original ≡ trampoline (written a [])
  unfolding commit_pointer
  commit_pointer-original e a pe = rw pe refl

module _ (get_proc_address : Ptr → Ptr → Ptr) (attach_error : Ptr → ℕ) where
  attach_all-Pends :
      (h : Ptr) (es : List DetourEntry) (d : Detoured) (a : Ptr)
      → NonePending es
      → (let r = attach_all get_proc_address attach_error h es d in (r.2 a ≡ d a) ⊎ Pends r.1 a)
  unfolding attach_all attach_detour Pends NonePending
  attach_all-Pends h [] d a np = inl refl
  attach_all-Pends h (e ∷ es) d a (np, nps) =
      elim (Bool-cases (get_proc_address h e.name == null)) [
        | inl z ↦ rw z (later (attach_all-Pends h es d a nps))
        | inr nz ↦ elim (Bool-cases (attach_error (get_proc_address h e.name) == 0)) [
          | inr bad ↦ rw (nz, bad) (later (attach_all-Pends h es d a nps))
          | inl good ↦
              rw (nz, good)
                (elim (attach_all-Pends h es
                  (set_detour d (get_proc_address h e.name) (some e.detour)) a nps) [
                    | inr x ↦ inr (inr x)
                    | inl x ↦ elim (Bool-cases (a == get_proc_address h e.name)) [
                      | inr b ↦ inl (x ∙ set_detour-other d _ a _ (==→ne a _ b))
                      | inl b ↦
                          let here : a ≡ get_proc_address h e.name = ==→eq a _ b in
                          inr (inl (refl, np-cons (sym here), λ n. ==→ne _ null nz (sym here ∙ n)))
                    ]
                  ])
        ]
      ]
    where
      later : {A B C : Type 0} → A ⊎ B → A ⊎ (C ⊎ B)
      later (inl x) = inl x
      later (inr x) = inr (inr x)

      np-cons : {x y : Ptr} → x ≡ y → x ∷ e.pending ≡ y ∷ []
      np-cons q = rw (q, np) refl

  no_crt-eq :
      (hs : List Module) (es : List DetourEntry) (d : Detoured)
      → crt_count hs ≡ 0
      → attach_modules get_proc_address attach_error hs es d ≡ (false, es, d)
  unfolding attach_modules crt_count
  no_crt-eq [] es d c = refl
  no_crt-eq (h ∷ hs) es d c = elim (Bool-cases h.is_crt) [
    | inl b ↦ absurd (ground (arith, b, c))
    | inr b ↦ rw b (rw (no_crt-eq hs es d (ground (arith, b, c))) refl)
  ]

  attach_modules-Pends :
      (hs : List Module) (es : List DetourEntry) (d : Detoured) (a : Ptr)
      → crt_count hs ≤ 1
      → NonePending es
      → (let r = attach_modules get_proc_address attach_error hs es d in
          (r.2 a ≡ d a) ⊎ Pends r.1 a)
  unfolding attach_modules crt_count
  attach_modules-Pends [] es d a c np = inl refl
  attach_modules-Pends (h ∷ hs) es d a c np = elim (Bool-cases h.is_crt) [
    | inl b ↦
        let r = attach_all get_proc_address attach_error h.base es d in
        rw b (rw (no_crt-eq hs r.1 r.2 (ground (arith, b, c))) (attach_all-Pends h.base es d a np))
    | inr b ↦ rw b (attach_modules-Pends hs es d a (ground (arith, b, c)) np)
  ]

module _ (get_proc_address : Ptr → Ptr → Ptr) (attach_error : Ptr → ℕ)
    (trampoline target : Ptr → Ptr) (written : Ptr → List Ptr → Ptr)
    (trampoline-nonnull : (p : Ptr) → p ≢ null → trampoline p ≢ null)
    (target-trampoline : (p : Ptr) → p ≢ null → target (trampoline p) ≡ p)
    (written-only : (p : Ptr) → written p [] ≡ p) where
  -- An attached entry has the trampoline of the function at `a`.
  Covers : List DetourEntry → Ptr → Type 0
  Covers [] a = ⊥
  Covers (e ∷ es) a = (e.attached ≡ true) × (e.original ≡ trampoline a) × (a ≢ null) ⊎ Covers es a

  commit-Covers :
      (es : List DetourEntry) (a : Ptr)
      → Pends es a
      → Covers (commit_pointers trampoline written es) a
  unfolding commit_pointers Pends Covers
  commit-Covers [] a p = absurd p
  commit-Covers (e ∷ es) a (inr p) = inr (commit-Covers es a p)
  commit-Covers (e ∷ es) a (inl (at, pe, nn)) = inl (
    commit_pointer-attached trampoline written e at,
    commit_pointer-original trampoline written e a pe ∙ ap trampoline (written-only a),
    nn,
  )

  module _ (detach_error : Ptr → ℕ) (a : Ptr) where
    detach_all-none :
        (es : List DetourEntry) (d : Detoured)
        → detach_error a ≡ 0
        → (d a ≡ none) ⊎ Covers es a
        → (detach_all target detach_error es d).1 a ≡ none
    unfolding detach_all detach_detour Covers
    detach_all-none [] d good cov = elim cov [ inl x ↦ x | inr x ↦ absurd x ]
    detach_all-none (e ∷ es) d good cov =
        elim (Bool-cases (e.attached && not (e.original == null))) [
          | inr b ↦ rw b (detach_all-none es d good (kept b))
          | inl b ↦ elim (Bool-cases (detach_error (target e.original) == 0)) [
            | inl leaves ↦
                rw (b, leaves)
                  (detach_all-none es (set_detour d (target e.original) none) good detached)
            | inr bad ↦ rw (b, bad) (detach_all-none es d good (refused bad))
          ]
        ]
      where
        detached : (set_detour d (target e.original) none a ≡ none) ⊎ Covers es a
        detached = elim (Bool-cases (a == target e.original)) [
          | inl y ↦ inl (
              ap (set_detour d (target e.original) none) (==→eq a _ y)
              ∙ set_detour-same d (target e.original) none)
          | inr y ↦ elim cov [
            | inl z ↦ inl (set_detour-other d _ a none (==→ne a _ y) ∙ z)
            | inr (inl (at, o, nn)) ↦
                absurd (==→ne a _ y (sym (ap target o ∙ target-trampoline a nn)))
            | inr (inr z) ↦ inr z
          ]
        ]

        refused : (detach_error (target e.original) == 0) ≡ false → (d a ≡ none) ⊎ Covers es a
        refused bad = elim cov [
          | inl z ↦ inl z
          | inr (inl (at, o, nn)) ↦
              absurd (==→ne _ 0 bad (ap detach_error (ap target o ∙ target-trampoline a nn) ∙ good))
          | inr (inr z) ↦ inr z
        ]

        kept : (e.attached && not (e.original == null)) ≡ false → (d a ≡ none) ⊎ Covers es a
        kept b = elim cov [
          | inl z ↦ inl z
          | inr (inl (at, o, nn)) ↦ absurd (contra at (λ n. trampoline-nonnull a nn (sym o ∙ n)) b)
          | inr (inr z) ↦ inr z
        ]
          where
            contra :
                e.attached ≡ true
                → e.original ≢ null
                → (e.attached && not (e.original == null)) ≢ false
            contra at ne f = ground arith

    detach_all-kept :
        (es : List DetourEntry) (d : Detoured)
        → detach_error a ≢ 0
        → (detach_all target detach_error es d).1 a ≡ d a
    unfolding detach_all detach_detour
    detach_all-kept [] d bad = refl
    detach_all-kept (e ∷ es) d bad = elim (Bool-cases (e.attached && not (e.original == null))) [
      | inr b ↦ rw b (detach_all-kept es d bad)
      | inl b ↦ elim (Bool-cases (detach_error (target e.original) == 0)) [
        | inr stays ↦ rw (b, stays) (detach_all-kept es d bad)
        | inl leaves ↦
            rw (b, leaves)
              (detach_all-kept es (set_detour d (target e.original) none) bad
                ∙ set_detour-other d (target e.original) a none
                    (λ q. bad (ap detach_error q ∙ ==→eq _ 0 leaves)))
      ]
    ]

    remove-eq :
        (remove_error : ℕ) (es : List DetourEntry) (d : Detoured)
        → (d a ≡ none) ⊎ Covers es a
        → (remove_detours target detach_error remove_error es d).1 a
          ≡ (if remove_error == 0 && (detach_error a == 0) then none else d a)
    unfolding remove_detours
    remove-eq remove_error es d cov = elim (Bool-cases (remove_error == 0)) [
      | inr fails ↦ rw fails refl
      | inl commits ↦ elim (Bool-cases (detach_error a == 0)) [
        | inl good ↦ rw (commits, good) (detach_all-none es d (==→eq _ 0 good) cov)
        | inr bad ↦ rw (commits, bad) (detach_all-kept es d (==→ne _ 0 bad))
      ]
    ]

    -- Where no function is detoured, no transaction is open, at most one module is a C runtime,
    -- and Detours finds the function from its trampoline, RemoveDetours after InstallDetours,
    -- whichever attachments or commit of that failed, leaves no function detoured but those whose
    -- DetourDetach fails; these, and all of them where its own commit fails, are as InstallDetours
    -- left them.
    pub remove-install_detours :
        (commit_error remove_error : ℕ) (hs : List Module) (es : List DetourEntry)
        → crt_count hs ≤ 1
        → NonePending es
        → (let r =
              install_detours get_proc_address attach_error trampoline written commit_error hs es
                (λ p. none) in
            (remove_detours target detach_error remove_error r.1 r.2).1 a
            ≡ (if remove_error == 0 && (detach_error a == 0) then none else r.2 a))
    unfolding install_detours
    remove-install_detours commit_error remove_error hs es c np =
        elim (Bool-cases (commit_error == 0)) [
          | inl b ↦ rw b (
              remove-eq remove_error _ _
                (elim (attach_modules-Pends get_proc_address attach_error hs es (λ p. none) a c
                  np) [ inl same ↦ inl same | inr p ↦ inr (commit-Covers _ a p) ]))
          | inr b ↦ rw b (remove-eq remove_error _ _ (inl refl))
        ]
