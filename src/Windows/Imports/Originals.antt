-- ===== src/Windows/Imports/Originals.antt =====
-- The originals that InstallPatches of alloc8_redirect.cpp saves, against the hooks: what one entry does to
-- its own original, and to the slots that another entry asks about.
pub mod Installed
use alloc.Base.{
  ℕ, zero, suc, ◌+◌, List, [], ◌∷◌, Bool, true, false, ◌&&◌, not, Option, none, some, ◌==◌, ◌≡◌,
  ◌≢◌, ◌⊎◌, refl, ap, sym, ◌∙◌, if◌then◌else◌, Bool-cases, inl, inr, ==→eq, ==→ne, arith,
}
use alloc.Machine.{Ptr, null}
use alloc.Windows.Imports.{
  Thunk, Import, Image, Progress, PatchEntry, is_wanted, patch_thunk, patch_thunks, patch_imports,
  patch_modules, patch_iat_in_all_modules, save_orig, patch_entries, install_patches, or_null,
}

-- A property of every slot of a list of thunks, descriptors or modules.
pub EveryThunk : (Thunk → Type 0) → List Thunk → Type 0
EveryThunk P [] = Unit
EveryThunk P (t ∷ ts) = P t × EveryThunk P ts

pub EveryImport : (Thunk → Type 0) → List Import → Type 0
unfolding EveryThunk
EveryImport P [] = Unit
EveryImport P (i ∷ is) = EveryThunk P i.thunks × EveryImport P is

unfoldable pub EverySlot : (Thunk → Type 0) → List Image → Type 0
unfolding EveryImport
EverySlot P [] = Unit
EverySlot P (m ∷ ms) = EveryImport P m.imports × EverySlot P ms

-- The slot is bound, and not to the hook.
unfoldable pub Unhooked : (hook : Ptr) → Thunk → Type 0
Unhooked hook t = (t.function ≢ null) × (t.function ≢ hook)

-- What holds of `*origFunc` for a hook: it is not the hook, and while it is null no slot has the hook.
unfoldable pub Sound : (hook orig : Ptr) → List Image → Type 0
unfolding EverySlot Unhooked
Sound hook orig ms = (orig ≢ hook) × (orig ≡ null → EverySlot (Unhooked hook) ms)

module _ (stricmp strcmp : Ptr → Ptr → ℕ) (change_protection : Ptr → Bool) (name hook : Ptr) where
  -- A step that saves an original keeps the two facts: `P` and `P'` are said of the slots before and after.
  Kept : (o : Ptr) → Type 0 → Option Ptr → Type 0 → Type 0
  Kept o P saved P' = (o' : Ptr) × (saved ≡ some o') × (o' ≢ hook) × (o' ≡ null → (o ≡ null) × P')

  own_thunk :
      (t : Thunk) (w : Progress) (o : Ptr)
      → w.orig ≡ some o
      → o ≢ hook
      → (o ≡ null → Unhooked hook t)
      → (let r = patch_thunk stricmp strcmp change_protection name hook t w in
          Kept o (Unhooked hook t) r.1.orig (Unhooked hook r.0))
  unfolding patch_thunk save_orig Kept Unhooked
  own_thunk t w o e ne free =
      elim (Bool-cases (is_wanted stricmp strcmp change_protection name t)) [
        | inr b ↦ rw b (o, e, ne, λ z. (z, free z))
        | inl b ↦ elim (Bool-cases (change_protection t.slot)) [
          | inl c ↦ rw (b, c, e) (saved c)
          | inr c ↦ rw (b, c, e) (saved c)
        ]
      ]
    where
      saved :
          {x y : Bool} {P : Type 0}
          → x ≡ y
          → (o' : Ptr) × ((if o == null then some t.function else some o) ≡ some o')
            × (o' ≢ hook)
            × (o' ≡ null → (o ≡ null) × P)
      saved c = elim (Bool-cases (o == null)) [
        | inl z ↦ let f = free (==→eq o null z) in rw z (t.function, refl, f.1, λ n. absurd (f.0 n))
        | inr z ↦ rw z (o, refl, ne, λ n. absurd (==→ne o null z n))
      ]

  own_thunks :
      (ts : List Thunk) (w : Progress) (o : Ptr)
      → w.orig ≡ some o
      → o ≢ hook
      → (o ≡ null → EveryThunk (Unhooked hook) ts)
      → (let r = patch_thunks stricmp strcmp change_protection name hook ts w in
          Kept o (EveryThunk (Unhooked hook) ts) r.1.orig (EveryThunk (Unhooked hook) r.0))
  unfolding patch_thunks Kept EveryThunk
  own_thunks [] w o e ne free = (o, e, ne, λ z. (z, tt))
  own_thunks (t ∷ ts) w o e ne free =
      let (o1, e1, ne1, back1) = own_thunk t w o e ne (λ z. (free z).0) in
      let (o2, e2, ne2, back2) = own_thunks ts _ o1 e1 ne1 (λ z. (free (back1 z).0).1) in
      (o2, e2, ne2, λ z. ((back1 (back2 z).0).0, ((back1 (back2 z).0).1, (back2 z).1)))

  own_imports :
      (dll : Ptr) (is : List Import) (w : Progress) (o : Ptr)
      → w.orig ≡ some o
      → o ≢ hook
      → (o ≡ null → EveryImport (Unhooked hook) is)
      → (let r = patch_imports stricmp strcmp change_protection dll name hook is w in
          Kept o (EveryImport (Unhooked hook) is) r.1.orig (EveryImport (Unhooked hook) r.0))
  unfolding patch_imports Kept EveryImport
  own_imports dll [] w o e ne free = (o, e, ne, λ z. (z, tt))
  own_imports dll (i ∷ is) w o e ne free = elim (Bool-cases (stricmp i.dll_name dll == 0)) [
    | inl b ↦ rw b (
        let (o1, e1, ne1, back1) = own_thunks i.thunks w o e ne (λ z. (free z).0) in
        let (o2, e2, ne2, back2) = own_imports dll is _ o1 e1 ne1 (λ z. (free (back1 z).0).1) in
        (o2, e2, ne2, λ z. ((back1 (back2 z).0).0, ((back1 (back2 z).0).1, (back2 z).1))))
    | inr b ↦ rw b (
        let (o2, e2, ne2, back2) = own_imports dll is w o e ne (λ z. (free z).1) in
        (o2, e2, ne2, λ z. ((back2 z).0, ((free (back2 z).0).0, (back2 z).1))))
  ]

  own_modules :
      (dll : Ptr) (ms : List Image) (w : Progress) (o : Ptr)
      → w.orig ≡ some o
      → o ≢ hook
      → (o ≡ null → EverySlot (Unhooked hook) ms)
      → (let r = patch_modules stricmp strcmp change_protection dll name hook ms w in
          Kept o (EverySlot (Unhooked hook) ms) r.1.orig (EverySlot (Unhooked hook) r.0))
  unfolding patch_modules Kept EverySlot
  own_modules dll [] w o e ne free = (o, e, ne, λ z. (z, tt))
  own_modules dll (m ∷ ms) w o e ne free = elim (Bool-cases m.has_imports) [
    | inl b ↦ rw b (
        let (o1, e1, ne1, back1) = own_imports dll m.imports w o e ne (λ z. (free z).0) in
        let (o2, e2, ne2, back2) = own_modules dll ms _ o1 e1 ne1 (λ z. (free (back1 z).0).1) in
        (o2, e2, ne2, λ z. ((back1 (back2 z).0).0, ((back1 (back2 z).0).1, (back2 z).1))))
    | inr b ↦ rw b (
        let (o2, e2, ne2, back2) = own_modules dll ms w o e ne (λ z. (free z).1) in
        (o2, e2, ne2, λ z. ((back2 z).0, ((free (back2 z).0).0, (back2 z).1))))
  ]

  -- PatchIATInAllModules for a hook keeps what holds of its own original.
  pub patch_iat-Sound :
      (dll o : Ptr) (ms : List Image)
      → Sound hook o ms
      → (let r =
            patch_iat_in_all_modules stricmp strcmp change_protection dll name hook (some o) ms in
          Sound hook (or_null r.1.orig) r.0)
  unfolding patch_iat_in_all_modules Sound Kept or_null
  patch_iat-Sound dll o ms (ne, free) =
      let (o', e, ne', back) =
        own_modules dll ms (record { orig = some o; patched = 0 }) o refl ne free in
      rw e (ne', λ z. (back z).1)

  -- Patching for this hook leaves every slot that is not bound to another hook so.
  other_thunk :
      (q : Ptr) (t : Thunk) (w : Progress)
      → hook ≢ null
      → hook ≢ q
      → Unhooked q t
      → Unhooked q (patch_thunk stricmp strcmp change_protection name hook t w).0
  unfolding patch_thunk Unhooked
  other_thunk q t w nn ne free =
      elim (Bool-cases (is_wanted stricmp strcmp change_protection name t)) [
        | inr b ↦ rw b free
        | inl b ↦ elim (Bool-cases (change_protection t.slot)) [
          | inl c ↦ rw (b, c) (nn, ne)
          | inr c ↦ rw (b, c) free
        ]
      ]

  other_thunks :
      (q : Ptr) (ts : List Thunk) (w : Progress)
      → hook ≢ null
      → hook ≢ q
      → EveryThunk (Unhooked q) ts
      → EveryThunk (Unhooked q) (patch_thunks stricmp strcmp change_protection name hook ts w).0
  unfolding patch_thunks EveryThunk
  other_thunks q [] w nn ne free = tt
  other_thunks q (t ∷ ts) w nn ne (f, fs) =
      (other_thunk q t w nn ne f, other_thunks q ts _ nn ne fs)

  other_imports :
      (q dll : Ptr) (is : List Import) (w : Progress)
      → hook ≢ null
      → hook ≢ q
      → EveryImport (Unhooked q) is
      → EveryImport
          (Unhooked q)
          (patch_imports stricmp strcmp change_protection dll name hook is w).0
  unfolding patch_imports EveryImport
  other_imports q dll [] w nn ne free = tt
  other_imports q dll (i ∷ is) w nn ne (f, fs) = elim (Bool-cases (stricmp i.dll_name dll == 0)) [
    | inl b ↦ rw b (other_thunks q i.thunks w nn ne f, other_imports q dll is _ nn ne fs)
    | inr b ↦ rw b (f, other_imports q dll is w nn ne fs)
  ]

  pub other_modules :
      (q dll : Ptr) (ms : List Image) (w : Progress)
      → hook ≢ null
      → hook ≢ q
      → EverySlot (Unhooked q) ms
      → EverySlot (Unhooked q) (patch_modules stricmp strcmp change_protection dll name hook ms w).0
  unfolding patch_modules EverySlot
  other_modules q dll [] w nn ne free = tt
  other_modules q dll (m ∷ ms) w nn ne (f, fs) = elim (Bool-cases m.has_imports) [
    | inl b ↦ rw b (other_imports q dll m.imports w nn ne f, other_modules q dll ms _ nn ne fs)
    | inr b ↦ rw b (f, other_modules q dll ms w nn ne fs)
  ]
