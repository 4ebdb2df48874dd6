-- ===== src/Examples/DieHard/Windows.antt =====
-- examples/diehard/diehard_redirect_win.cpp: DllMain, which gives DieHard's functions to the redirection
-- of src/platform/windows/alloc8_redirect.cpp.
use alloc.Base.{Bool, true, false, some, ◌==◌, if◌then◌else◌}
use alloc.Machine.{Ptr, null}
use alloc.Heap.{Allocator}
use alloc.Windows.Hooks.{
  Callbacks, Globals, alloc8_redirect_init, alloc8_redirect_enable, alloc8_redirect_disable,
}
use alloc.Examples.DieHard.{diehard}

module _ {H : Type 0} (D : Allocator H) (scalable : Bool) where
  diehard_callbacks : Callbacks H
  unfolding diehard
  diehard_callbacks =
      let xx = diehard D scalable in
      record {
        malloc = some xx.xxmalloc;
        free = some xx.xxfree;
        calloc = some xx.xxcalloc;
        realloc = some xx.xxrealloc;
        msize = some xx.xxmalloc_usable_size;
      }

  -- DLL_PROCESS_ATTACH
  diehard_process_attach : Globals H → Globals H
  unfolding diehard_callbacks alloc8_redirect_init alloc8_redirect_enable
  diehard_process_attach g = alloc8_redirect_enable (alloc8_redirect_init diehard_callbacks g)

-- DLL_PROCESS_DETACH: `lpv_reserved` is null where the library is freed, and else the process is
-- terminated, where the Boolean is false.
diehard_process_detach : {H : Type 0} → (lpv_reserved : Ptr) → Globals H → Bool × Globals H
unfolding alloc8_redirect_disable
diehard_process_detach lpv_reserved g =
    if lpv_reserved == null then (true, alloc8_redirect_disable g) else (false, g)
