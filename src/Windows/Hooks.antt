-- ===== src/Windows/Hooks.antt =====
-- The hooked functions and the exported interface of src/platform/windows/alloc8_redirect.cpp. A function
-- pointer is an Option; those of the C runtime, `orig_*`, are what was saved when the slots were patched.
use alloc.Base.{ℕ, Bool, true, false, Option, none, some}
use alloc.Machine.{Ptr, null, M, pure, skip}

pub record Callbacks (H : Type 0) : Type 0 where
  pub malloc : Option (ℕ → M H Ptr)
  pub free : Option (Ptr → M H (Unit {0}))
  pub calloc : Option (ℕ → ℕ → M H Ptr)
  pub realloc : Option (Ptr → ℕ → M H Ptr)
  pub msize : Option (Ptr → M H ℕ)

-- The globals of the DLL: `p_xx*`, `orig_*`, g_redirectEnabled and g_initialized.
pub record Globals (H : Type 0) : Type 0 where
  pub xx : Callbacks H
  pub orig : Callbacks H
  pub enabled : Bool
  pub initialized : Bool

-- `enabled && ours ? ours : theirs`
unfoldable pub choose : {A : Type 0} → Bool → Option A → Option A → Option A
choose true (some f) theirs = some f
choose true none theirs = theirs
choose false ours theirs = theirs

module _ {H : Type 0} where
  unfoldable pub hooked_malloc : Globals H → ℕ → M H Ptr
  unfolding choose
  hooked_malloc g size = elim (choose g.enabled g.xx.malloc g.orig.malloc) [
    | some f ↦ f size
    | none ↦ pure null
  ]

  unfoldable pub hooked_free : Globals H → Ptr → M H (Unit {0})
  unfolding choose
  hooked_free g ptr = elim (choose g.enabled g.xx.free g.orig.free) [ some f ↦ f ptr | none ↦ skip ]

  unfoldable pub hooked_calloc : Globals H → ℕ → ℕ → M H Ptr
  unfolding choose
  hooked_calloc g count size = elim (choose g.enabled g.xx.calloc g.orig.calloc) [
    | some f ↦ f count size
    | none ↦ pure null
  ]

  unfoldable pub hooked_realloc : Globals H → Ptr → ℕ → M H Ptr
  unfolding choose
  hooked_realloc g ptr size = elim (choose g.enabled g.xx.realloc g.orig.realloc) [
    | some f ↦ f ptr size
    | none ↦ pure null
  ]

  unfoldable pub hooked_msize : Globals H → Ptr → M H ℕ
  unfolding choose
  hooked_msize g ptr = elim (choose g.enabled g.xx.msize g.orig.msize) [
    | some f ↦ f ptr
    | none ↦ pure 0
  ]

  unfoldable pub alloc8_redirect_init : Callbacks H → Globals H → Globals H
  alloc8_redirect_init cbs g = record g { xx = cbs }

  unfoldable pub alloc8_redirect_enable : Globals H → Globals H
  alloc8_redirect_enable g = record g { enabled = true }

  unfoldable pub alloc8_redirect_disable : Globals H → Globals H
  alloc8_redirect_disable g = record g { enabled = false }

  -- DllMain on attach: nothing where ntdll lacks the function, and else the patches, which leave
  -- `saved` in `orig_*`. The result says whether the load goes on.
  dll_process_attach : (init_ntdll : Bool) → (saved : Callbacks H) → Globals H → Bool × Globals H
  dll_process_attach false saved g = (false, g)
  dll_process_attach true saved g = (true, record g { orig = saved; initialized = true })

  -- DllMain on detach.
  dll_process_detach : Globals H → Globals H
  dll_process_detach g = record g { enabled = false }
