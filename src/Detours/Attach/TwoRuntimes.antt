-- ===== src/Detours/Attach/TwoRuntimes.antt =====
-- RemoveDetours of win_wrapper_detours.cpp after InstallDetours, where two modules are C runtimes.
use alloc.Base.{
  ℕ, List, [], ◌∷◌, true, none, some, ◌≡◌, ◌≢◌, ◌⊎◌, ◌&&◌, not, ◌==◌, refl, sym, ◌∙◌, inl, inr,
  ne→==, Bool-cases,
}
use alloc.Machine.{Ptr, null}
use alloc.Detours.Attach.{
  DetourEntry, Module, Detoured, set_detour, attach_detour, attach_all, attach_modules,
  commit_pointer, commit_pointers, install_detours, detach_detour, detach_all, remove_detours,
}
use alloc.Detours.Attach.Removal.{set_detour-same, set_detour-other}

-- Two modules that are C runtimes.
pub two_runtimes : (b1 b2 : Ptr) → List Module
two_runtimes b1 b2 = record { base = b1; is_crt = true } ∷ record { base = b2; is_crt = true } ∷ []

-- Detaching one entry, whatever comes of it, leaves the functions alone that it does not have.
remove-other :
    (target : Ptr → Ptr) (detach_error : Ptr → ℕ) (remove_error : ℕ) (e : DetourEntry)
    (d : Detoured) (a : Ptr)
    → a ≢ target e.original
    → (remove_detours target detach_error remove_error (e ∷ []) d).1 a ≡ d a
unfolding remove_detours detach_all detach_detour
remove-other target detach_error remove_error e d a ne = elim (Bool-cases (remove_error == 0)) [
  | inr fails ↦ rw fails refl
  | inl commits ↦ elim (Bool-cases (e.attached && not (e.original == null))) [
    | inr b ↦ rw (commits, b) refl
    | inl b ↦ elim (Bool-cases (detach_error (target e.original) == 0)) [
      | inr stays ↦ rw (commits, b, stays) refl
      | inl good ↦ rw (commits, b, good) (set_detour-other d (target e.original) a none ne)
    ]
  ]
]

module _ (get_proc_address : Ptr → Ptr → Ptr) (attach_error : Ptr → ℕ)
    (trampoline target : Ptr → Ptr) (written : Ptr → List Ptr → Ptr)
    (trampoline-nonnull : (p : Ptr) → p ≢ null → trampoline p ≢ null)
    (target-trampoline : (p : Ptr) → p ≢ null → target (trampoline p) ≡ p) where
  -- Where two modules are C runtimes that export the name of an entry at different addresses, and
  -- both are attached and committed, one of the two functions stays detoured after RemoveDetours,
  -- whatever DetourDetach and its commit give: the entry keeps the trampoline of one function,
  -- whichever of the two the commit writes.
  pub two_runtimes-remain :
      (detach_error : Ptr → ℕ) (remove_error : ℕ) (b1 b2 : Ptr) (e : DetourEntry)
      → get_proc_address b1 e.name ≢ null
      → get_proc_address b2 e.name ≢ null
      → get_proc_address b1 e.name ≢ get_proc_address b2 e.name
      → attach_error (get_proc_address b1 e.name) ≡ 0
      → attach_error (get_proc_address b2 e.name) ≡ 0
      → e.pending ≡ []
      → (written (get_proc_address b2 e.name) (get_proc_address b1 e.name ∷ [])
          ≡ get_proc_address b1 e.name)
        ⊎ (written (get_proc_address b2 e.name) (get_proc_address b1 e.name ∷ [])
            ≡ get_proc_address b2 e.name)
      → (let r =
            install_detours get_proc_address attach_error trampoline written 0
              (two_runtimes b1 b2)
              (e ∷ [])
              (λ p. none) in
          let after = (remove_detours target detach_error remove_error r.1 r.2).1 in
          (after (get_proc_address b1 e.name) ≡ some e.detour)
          ⊎ (after (get_proc_address b2 e.name) ≡ some e.detour))
  unfolding install_detours attach_modules attach_all attach_detour commit_pointers commit_pointer
      two_runtimes
  two_runtimes-remain detach_error remove_error b1 b2 e n1 n2 ne e1 e2 pe (inl w) =
      rw (ne→== _ null n1, e1, ne→== _ null n2, e2, pe, w)
        (inr (
          remove-other target detach_error remove_error _ _ _
            (λ q. ne (sym (q ∙ target-trampoline _ n1)))
          ∙ set_detour-same (set_detour (λ p. none) (get_proc_address b1 e.name) (some e.detour))
              (get_proc_address b2 e.name) (some e.detour)))
  two_runtimes-remain detach_error remove_error b1 b2 e n1 n2 ne e1 e2 pe (inr w) =
      rw (ne→== _ null n1, e1, ne→== _ null n2, e2, pe, w)
        (inl (
          remove-other target detach_error remove_error _ _ _ (λ q. ne (q ∙ target-trampoline _ n2))
          ∙ set_detour-other (set_detour (λ p. none) (get_proc_address b1 e.name) (some e.detour))
              (get_proc_address b2 e.name) (get_proc_address b1 e.name) (some e.detour) ne
          ∙ set_detour-same (λ p. none) (get_proc_address b1 e.name) (some e.detour)))
