-- ===== src/Detours/Attach.antt =====
-- How win_wrapper_detours.cpp installs and removes its functions: the entries g_CRTDetours, each with the
-- pointer to the original, and their attachment to every module that is a C runtime. Windows and the
-- Detours library are parameters: GetProcAddress, the results of DetourAttach, of DetourDetach and of the
-- commits, the trampoline that Detours makes for a function, and which of the functions attached through
-- one pointer the commit writes the trampoline of.
pub mod Removal
pub mod TwoRuntimes
use alloc.Base.{
  ℕ, List, [], ◌∷◌, Bool, true, false, ◌&&◌, not, ◌||◌, Option, none, some, ◌==◌, if◌then◌else◌,
}
use alloc.Machine.{Ptr, null}

-- `name` is the address of the name, `original` is `*ppOriginal`, and `pending` has the functions that
-- the open transaction attaches through that pointer, the last first.
pub record DetourEntry : Type 0 where
  pub name : Ptr
  pub original : Ptr
  pub detour : Ptr
  pub attached : Bool
  pub pending : List Ptr

-- A module, and whether its file name has one of the words that a C runtime has (CRT, msvcr, ...).
pub record Module : Type 0 where
  pub base : Ptr
  pub is_crt : Bool

-- The function that runs in the place of the one at an address, `none` where it is not detoured.
abbrev pub Detoured : Type 0
Detoured = Ptr → Option Ptr

pub set_detour : Detoured → Ptr → Option Ptr → Detoured
set_detour d p f a = if a == p then f else d a

module _ (get_proc_address : Ptr → Ptr → Ptr) (attach_error : Ptr → ℕ) where
  -- DetourAttach adds the function that `*ppOriginal` points at to the transaction, where it succeeds
  -- (NO_ERROR is 0). The detours are given as they are once the transaction is committed.
  pub attach_detour : Ptr → DetourEntry → Detoured → Bool × DetourEntry × Detoured
  unfolding set_detour
  attach_detour h entry d =
      let proc = get_proc_address h entry.name in
      if proc == null
      then (false, entry, d)
      else if attach_error proc == 0
      then (
        true,
        record entry { original = proc; attached = true; pending = proc ∷ entry.pending },
        set_detour d proc (some entry.detour),
      )
      else (false, record entry { original = proc }, d)

  -- The loop over the entries, for one module.
  pub attach_all : Ptr → List DetourEntry → Detoured → Bool × List DetourEntry × Detoured
  unfolding attach_detour
  attach_all h [] d = (false, [], d)
  attach_all h (e ∷ es) d =
      let r = attach_detour h e d in
      let rest = attach_all h es r.2 in (r.0 || rest.0, r.1 ∷ rest.1, rest.2)

  -- The loop over the modules.
  pub attach_modules :
      List Module → List DetourEntry → Detoured → Bool × List DetourEntry × Detoured
  unfolding attach_all
  attach_modules [] es d = (false, es, d)
  attach_modules (h ∷ hs) es d =
      let r = if h.is_crt then attach_all h.base es d else (false, es, d) in
      let rest = attach_modules hs r.1 r.2 in (r.0 || rest.0, rest.1, rest.2)

module _ (trampoline : Ptr → Ptr) (written : Ptr → List Ptr → Ptr) where
  -- What DetourTransactionCommit does to a pointer.
  pub commit_pointer : DetourEntry → DetourEntry
  commit_pointer e = elim e.pending [
    | [] ↦ e
    | p ∷ ps ↦ record e { original = trampoline (written p ps); pending = [] }
  ]

  pub commit_pointers : List DetourEntry → List DetourEntry
  unfolding commit_pointer
  commit_pointers [] = []
  commit_pointers (e ∷ es) = commit_pointer e ∷ commit_pointers es

-- DetourTransactionAbort
pub abort_pointers : List DetourEntry → List DetourEntry
abort_pointers [] = []
abort_pointers (e ∷ es) = record e { pending = [] } ∷ abort_pointers es

module _ (get_proc_address : Ptr → Ptr → Ptr) (attach_error : Ptr → ℕ) (trampoline : Ptr → Ptr)
    (written : Ptr → List Ptr → Ptr) where
  -- `modules` are those that EnumProcessModules and GetModuleFileName answer for. A commit that fails
  -- leaves no function detoured.
  pub install_detours :
      (commit_error : ℕ)
      → List Module
      → List DetourEntry
      → Detoured
      → Bool × List DetourEntry × Detoured
  unfolding attach_modules commit_pointers abort_pointers
  install_detours commit_error modules es d =
      let r = attach_modules get_proc_address attach_error modules es d in
      if commit_error == 0
      then (r.0, commit_pointers trampoline written r.1, r.2)
      else (false, abort_pointers r.1, d)

  -- InitializeAlloc8: the entries, the detours, and g_initComplete.
  initialize_alloc8 :
      (commit_error : ℕ)
      → List Module
      → List DetourEntry
      → Detoured
      → List DetourEntry × Detoured × Bool
  unfolding install_detours
  initialize_alloc8 commit_error modules es d =
      let r = install_detours commit_error modules es d in (r.1, r.2, true)

-- The pointers as they were before, and the marks as they are.
keep_pointers : List DetourEntry → List DetourEntry → List DetourEntry
keep_pointers (e ∷ es) (new ∷ news) = record new { original = e.original } ∷ keep_pointers es news
keep_pointers _ news = news

-- `target` gives the function that a trampoline stands for, and `detach_error` what DetourDetach gives for
-- this function.
module _ (target : Ptr → Ptr) (detach_error : Ptr → ℕ) where
  -- DetourDetach adds the removal to the transaction, where it succeeds; its result is not looked at. The
  -- detours and the pointer are given as they are once the transaction is committed.
  pub detach_detour : DetourEntry → Detoured → DetourEntry × Detoured
  unfolding set_detour
  detach_detour entry d =
      if entry.attached && not (entry.original == null)
      then (if detach_error (target entry.original) == 0
          then (
            record entry { original = target entry.original; attached = false },
            set_detour d (target entry.original) none,
          )
          else (record entry { attached = false }, d))
      else (entry, d)

  -- The loop over the entries.
  pub detach_all : List DetourEntry → Detoured → List DetourEntry × Detoured
  unfolding detach_detour
  detach_all [] d = ([], d)
  detach_all (e ∷ es) d =
      let r = detach_detour e d in let rest = detach_all es r.1 in (r.0 ∷ rest.0, rest.1)

  -- The result of the commit is not looked at either: one that fails leaves every detour and every pointer
  -- as it was, though the entries are no longer marked as attached.
  pub remove_detours :
      (commit_error : ℕ) → List DetourEntry → Detoured → List DetourEntry × Detoured
  unfolding detach_all keep_pointers
  remove_detours commit_error es d =
      let r = detach_all es d in if commit_error == 0 then r else (keep_pointers es r.0, d)
