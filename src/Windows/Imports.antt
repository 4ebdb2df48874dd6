-- ===== src/Windows/Imports.antt =====
-- PatchIATInAllModules and InstallPatches of src/platform/windows/alloc8_redirect.cpp: the search of
-- the import tables of all loaded modules for a function of a DLL, and the replacement of its slot.
-- The comparisons of libc and the change of the page protection are parameters; strings are named by
-- their addresses. The list of modules, the PE headers and the arrays of descriptors and thunks are
-- read as lists.
pub mod Patched
pub mod Originals
use alloc.Base.{ℕ, suc, List, [], ◌∷◌, Bool, ◌&&◌, not, Option, none, some, ◌==◌, if◌then◌else◌}
use alloc.Machine.{Ptr, null}

-- An import: by ordinal or by name, and the slot with the address of the function.
pub record Thunk : Type 0 where
  pub by_ordinal : Bool
  pub name : Ptr
  pub slot : Ptr
  pub function : Ptr

-- IMAGE_IMPORT_DESCRIPTOR
pub record Import : Type 0 where
  pub dll_name : Ptr
  pub thunks : List Thunk

-- A loaded module, whether it has a base address, the two signatures and an import directory, and the
-- descriptors in the directory.
pub record Image : Type 0 where
  pub has_imports : Bool
  pub imports : List Import

-- `*origFunc`, `none` where `origFunc` is null, and how many slots are patched.
pub record Progress : Type 0 where
  pub orig : Option Ptr
  pub patched : ℕ

pub save_orig : Option Ptr → Ptr → Option Ptr
save_orig none f = none
save_orig (some o) f = if o == null then some f else some o

module _ (stricmp strcmp : Ptr → Ptr → ℕ) (change_protection : Ptr → Bool) where
  -- Is this the import of `func_name`?
  pub is_wanted : (func_name : Ptr) → Thunk → Bool
  is_wanted func_name t = not t.by_ordinal && (strcmp t.name func_name == 0)

  pub patch_thunk : (func_name new_func : Ptr) → Thunk → Progress → Thunk × Progress
  unfolding is_wanted save_orig
  patch_thunk func_name new_func t w =
      if is_wanted func_name t
      then (let w' = record w { orig = save_orig w.orig t.function } in
          if change_protection t.slot
          then (record t { function = new_func }, record w' { patched = suc w.patched })
          else (t, w'))
      else (t, w)

  pub patch_thunks : (func_name new_func : Ptr) → List Thunk → Progress → List Thunk × Progress
  unfolding patch_thunk
  patch_thunks func_name new_func [] w = ([], w)
  patch_thunks func_name new_func (t ∷ ts) w =
      let r = patch_thunk func_name new_func t w in
      let rest = patch_thunks func_name new_func ts r.1 in (r.0 ∷ rest.0, rest.1)

  pub patch_imports :
      (target_dll func_name new_func : Ptr) → List Import → Progress → List Import × Progress
  unfolding patch_thunks
  patch_imports target_dll func_name new_func [] w = ([], w)
  patch_imports target_dll func_name new_func (i ∷ is) w =
      let r =
        if stricmp i.dll_name target_dll == 0
        then patch_thunks func_name new_func i.thunks w
        else (i.thunks, w) in
      let rest = patch_imports target_dll func_name new_func is r.1 in
      (record i { thunks = r.0 } ∷ rest.0, rest.1)

  pub patch_modules :
      (target_dll func_name new_func : Ptr) → List Image → Progress → List Image × Progress
  unfolding patch_imports
  patch_modules target_dll func_name new_func [] w = ([], w)
  patch_modules target_dll func_name new_func (m ∷ ms) w =
      let r =
        if m.has_imports
        then patch_imports target_dll func_name new_func m.imports w
        else (m.imports, w) in
      let rest = patch_modules target_dll func_name new_func ms r.1 in
      (record m { imports = r.0 } ∷ rest.0, rest.1)

  -- The modules, `*orig_func`, and the result, from `patched = 0`.
  pub patch_iat_in_all_modules :
      (target_dll func_name new_func : Ptr) → Option Ptr → List Image → List Image × Progress
  unfolding patch_modules
  patch_iat_in_all_modules target_dll func_name new_func orig_func ms =
      patch_modules target_dll func_name new_func ms (record { orig = orig_func; patched = 0 })

-- An entry of `patches`, with the value of the pointer that it has the address of.
pub record PatchEntry : Type 0 where
  pub name : Ptr
  pub hook : Ptr
  pub orig : Ptr

pub or_null : Option Ptr → Ptr
or_null none = null
or_null (some p) = p

module _ (stricmp strcmp : Ptr → Ptr → ℕ) (change_protection : Ptr → Bool) where
  -- `for (auto& p : patches)`, for one DLL.
  pub patch_entries : (dll : Ptr) → List PatchEntry → List Image → List PatchEntry × List Image
  unfolding patch_iat_in_all_modules or_null
  patch_entries dll [] ms = ([], ms)
  patch_entries dll (p ∷ ps) ms =
      let r =
        patch_iat_in_all_modules stricmp strcmp change_protection dll p.name p.hook (some p.orig)
          ms in
      let rest = patch_entries dll ps r.0 in (record p { orig = or_null r.1.orig } ∷ rest.0, rest.1)

  -- `for (const char** dll = crtDlls; *dll; dll++)`
  pub install_patches :
      (crt_dlls : List Ptr) → List PatchEntry → List Image → List PatchEntry × List Image
  unfolding patch_entries
  install_patches [] ps ms = (ps, ms)
  install_patches (dll ∷ dlls) ps ms =
      let r = patch_entries dll ps ms in install_patches dlls r.0 r.1
