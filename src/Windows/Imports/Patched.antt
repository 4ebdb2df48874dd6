-- ===== src/Windows/Imports/Patched.antt =====
-- What PatchIATInAllModules does where every slot can be made writable: `redirected` describes the modules
-- afterwards, import by import, and `matches` counts the slots, without the loops' running state.
use alloc.Base.{
  ℕ, ◌+◌, List, [], ◌∷◌, true, Option, ◌==◌, ◌≡◌, refl, ap, ◌∙◌, if◌then◌else◌, Bool-cases, inl,
  inr, arith,
}
use mathlib.Core.List.{map}
use alloc.Machine.{Ptr}
use alloc.Windows.Imports.{
  Thunk, Import, Image, Progress, is_wanted, patch_thunk, patch_thunks, patch_imports,
  patch_modules, patch_iat_in_all_modules,
}

module _ (stricmp strcmp : Ptr → Ptr → ℕ) (dll func hook : Ptr) where
  pub redirected_thunk : Thunk → Thunk
  redirected_thunk t =
      if t.by_ordinal
      then t
      else if strcmp t.name func == 0
      then record t { function = hook }
      else t

  pub redirected_import : Import → Import
  unfolding redirected_thunk
  redirected_import i =
      if stricmp i.dll_name dll == 0 then record i { thunks = map redirected_thunk i.thunks } else i

  pub redirected : Image → Image
  unfolding redirected_import
  redirected m = if m.has_imports then record m { imports = map redirected_import m.imports } else m

  -- 1 for an import by that name, 0 for one by another name or by ordinal.
  one_match : Thunk → ℕ
  one_match t = if t.by_ordinal then 0 else if strcmp t.name func == 0 then 1 else 0

  thunk_matches : List Thunk → ℕ
  thunk_matches [] = 0
  thunk_matches (t ∷ ts) = one_match t + thunk_matches ts

  import_matches : List Import → ℕ
  unfolding thunk_matches
  import_matches [] = 0
  import_matches (i ∷ is) =
      (if stricmp i.dll_name dll == 0 then thunk_matches i.thunks else 0) + import_matches is

  pub matches : List Image → ℕ
  unfolding import_matches
  matches [] = 0
  matches (m ∷ ms) = (if m.has_imports then import_matches m.imports else 0) + matches ms

  thunk_lem :
      (t : Thunk) (w : Progress)
      → (let r = patch_thunk stricmp strcmp (λ p. true) func hook t w in
          (r.0 ≡ redirected_thunk t) × (r.1.patched ≡ w.patched + one_match t))
  unfolding patch_thunk redirected_thunk is_wanted one_match
  thunk_lem t w = elim (Bool-cases t.by_ordinal) [
    | inl o ↦ rw o (refl, omega arith)
    | inr o ↦ elim (Bool-cases (strcmp t.name func == 0)) [
      | inl b ↦ rw (o, b) (refl, omega arith)
      | inr b ↦ rw (o, b) (refl, omega arith)
    ]
  ]

  thunks_lem :
      (ts : List Thunk) (w : Progress)
      → (let r = patch_thunks stricmp strcmp (λ p. true) func hook ts w in
          (r.0 ≡ map redirected_thunk ts) × (r.1.patched ≡ w.patched + thunk_matches ts))
  unfolding patch_thunks thunk_matches
  thunks_lem [] w = (refl, omega arith)
  thunks_lem (t ∷ ts) w =
      let one = thunk_lem t w in
      let rest = thunks_lem ts (patch_thunk stricmp strcmp (λ p. true) func hook t w).1 in
      (rw (one.0, rest.0) refl, rest.1 ∙ rw one.1 (omega arith))

  import_lem :
      (i : Import) (w : Progress)
      → (let r =
            if stricmp i.dll_name dll == 0
            then patch_thunks stricmp strcmp (λ p. true) func hook i.thunks w
            else (i.thunks, w) in
          (record i { thunks = r.0 } ≡ redirected_import i)
          × (r.1.patched
              ≡ w.patched + (if stricmp i.dll_name dll == 0 then thunk_matches i.thunks else 0)))
  unfolding redirected_import
  import_lem i w = elim (Bool-cases (stricmp i.dll_name dll == 0)) [
    | inl b ↦
        rw b
          (ap (λ ts. record i { thunks = ts }) (thunks_lem i.thunks w).0, (thunks_lem i.thunks w).1)
    | inr b ↦ rw b (refl, omega arith)
  ]

  imports_lem :
      (is : List Import) (w : Progress)
      → (let r = patch_imports stricmp strcmp (λ p. true) dll func hook is w in
          (r.0 ≡ map redirected_import is) × (r.1.patched ≡ w.patched + import_matches is))
  unfolding patch_imports import_matches
  imports_lem [] w = (refl, omega arith)
  imports_lem (i ∷ is) w =
      let one = import_lem i w in
      let rest =
        imports_lem is
          (if stricmp i.dll_name dll == 0
            then patch_thunks stricmp strcmp (λ p. true) func hook i.thunks w
            else (i.thunks, w)).1 in
      (rw (one.0, rest.0) refl, rest.1 ∙ rw one.1 (omega arith))

  image_lem :
      (m : Image) (w : Progress)
      → (let r =
            if m.has_imports
            then patch_imports stricmp strcmp (λ p. true) dll func hook m.imports w
            else (m.imports, w) in
          (record m { imports = r.0 } ≡ redirected m)
          × (r.1.patched ≡ w.patched + (if m.has_imports then import_matches m.imports else 0)))
  unfolding redirected
  image_lem m w = elim (Bool-cases m.has_imports) [
    | inl b ↦ rw b (
      ap (λ is. record { has_imports = true; imports = is }) (imports_lem m.imports w).0,
      (imports_lem m.imports w).1,
    )
    | inr b ↦ rw b (refl, omega arith)
  ]

  modules_lem :
      (ms : List Image) (w : Progress)
      → (let r = patch_modules stricmp strcmp (λ p. true) dll func hook ms w in
          (r.0 ≡ map redirected ms) × (r.1.patched ≡ w.patched + matches ms))
  unfolding patch_modules matches
  modules_lem [] w = (refl, omega arith)
  modules_lem (m ∷ ms) w =
      let one = image_lem m w in
      let rest =
        modules_lem ms
          (if m.has_imports
            then patch_imports stricmp strcmp (λ p. true) dll func hook m.imports w
            else (m.imports, w)).1 in
      (rw (one.0, rest.0) refl, rest.1 ∙ rw one.1 (omega arith))

  -- Where every slot can be made writable, PatchIATInAllModules leaves every module as it was but
  -- for the slots of those imports from that DLL that are not by ordinal and have that name, which
  -- get the hook, and its result is how many these are.
  pub patch_iat_in_all_modules-redirected :
      (orig : Option Ptr) (ms : List Image)
      → (let r = patch_iat_in_all_modules stricmp strcmp (λ p. true) dll func hook orig ms in
          (r.0 ≡ map redirected ms) × (r.1.patched ≡ matches ms))
  unfolding patch_iat_in_all_modules
  patch_iat_in_all_modules-redirected orig ms =
      let r = modules_lem ms (record { orig = orig; patched = 0 }) in (r.0, r.1 ∙ omega arith)
