-- ===== src/Programs/Platforms.antt =====
-- The malloc, free, calloc and realloc of each wrapper, over any allocator.
pub mod Portable
pub mod Unix
pub mod Windows
use alloc.Base.{ℕ, ◌<◌, ◌≡◌, Option, none, some, Bool, true, false}
use alloc.Machine.{Ptr, M}
use alloc.Heap.{Allocator}
use alloc.Xx.{Xx}
use alloc.Redirect.{alloc8_redirect}
use alloc.Linux.Header
use alloc.Linux.Wrapper.{custom_malloc, custom_free, custom_calloc, custom_realloc}
use alloc.Common.{common_calloc, common_realloc}
use alloc.Table.{make_allocator_table}
use alloc.Table.Dispatch.{rt_functions}
use alloc.Mac.{replace_malloc, replace_free, replace_calloc, replace_realloc}
use alloc.Windows.Hooks.{
  Callbacks, Globals, hooked_malloc, hooked_free, hooked_calloc, hooked_realloc,
  alloc8_redirect_init, alloc8_redirect_enable,
}
use alloc.Detours.{detour_malloc, detour_free, detour_calloc, detour_realloc}
use alloc.Programs.{Libc}

module _ {H : Type 0} (X : Xx H) where
  abbrev pub linux_libc : Libc H
  linux_libc = record {
    malloc = custom_malloc X;
    free = custom_free X;
    calloc = custom_calloc X;
    realloc = custom_realloc X;
  }

  abbrev pub mac_libc : Libc H
  mac_libc = record {
    malloc = replace_malloc X;
    free = replace_free X;
    calloc = replace_calloc X;
    realloc = replace_realloc X;
  }

  -- The functions as they are.
  abbrev pub xx_libc : Libc H
  xx_libc = record {
    malloc = X.xxmalloc;
    free = X.xxfree;
    calloc = X.xxcalloc;
    realloc = X.xxrealloc;
  }

  -- The functions of wrapper_common.cpp, as they are built for macOS or not.
  abbrev pub common_libc : (apple : Bool) → Libc H
  common_libc apple = record {
    malloc = X.xxmalloc;
    free = X.xxfree;
    calloc = common_calloc X;
    realloc = common_realloc X apple;
  }

  -- What the DLL that has the allocator registers.
  abbrev pub callbacks : Callbacks H
  callbacks = record {
    malloc = some X.xxmalloc;
    free = some X.xxfree;
    calloc = some X.xxcalloc;
    realloc = some X.xxrealloc;
    msize = some X.xxmalloc_usable_size;
  }

  -- After it has registered them, and enabled the redirection.
  abbrev pub registered : Globals H → Globals H
  registered g = alloc8_redirect_enable (alloc8_redirect_init callbacks g)

  abbrev pub windows_libc : Globals H → Libc H
  windows_libc g = record {
    malloc = hooked_malloc (registered g);
    free = hooked_free (registered g);
    calloc = hooked_calloc (registered g);
    realloc = hooked_realloc (registered g);
  }

  -- `ours` and `init_complete` are those of Detours.antt.
  abbrev pub detours_libc : (ours : H → Ptr → Bool) → (init_complete : Bool) → Libc H
  detours_libc ours init_complete = record {
    malloc = detour_malloc X ours;
    free = detour_free X ours init_complete;
    calloc = detour_calloc X ours;
    realloc = detour_realloc X ours init_complete;
  }

-- The header-only wrapper, which calls the allocator itself.
abbrev pub header_libc : {H : Type 0} → Allocator H → Libc H
header_libc A = record {
  malloc = Header.malloc A;
  free = Header.free A;
  calloc = Header.calloc A;
  realloc = Header.realloc A;
}

-- What a program is built with: the wrapper of its platform, the header, the common functions, or the
-- table of functions; on Windows, with the globals of the redirecting DLL, or
-- with what Detours knows of the pointers.
pub data Platform (H : Type 0) : Type 0 where
  linux : Platform H
  macos : Platform H
  header : Platform H
  common : (apple : Bool) → Platform H
  table : Platform H
  windows : Globals H → Platform H
  detours : (ours : H → Ptr → Bool) → (init_complete : Bool) → Platform H

-- The four functions that a program gets there, over an allocator.
abbrev pub libc_on : {H : Type 0} → Platform H → Allocator H → Libc H
libc_on linux A = linux_libc (alloc8_redirect A)
libc_on macos A = mac_libc (alloc8_redirect A)
libc_on header A = header_libc A
libc_on (common apple) A = common_libc (alloc8_redirect A) apple
libc_on table A = xx_libc (rt_functions (make_allocator_table A))
libc_on (windows g) A = windows_libc (alloc8_redirect A) g
libc_on (detours ours init_complete) A = detours_libc (alloc8_redirect A) ours init_complete

-- Whether realloc to the size 0 may give a small block.
abbrev pub small_block_on : {H : Type 0} → Platform H → Bool
small_block_on linux = false
small_block_on macos = true
small_block_on header = false
small_block_on (common apple) = apple
small_block_on table = false
small_block_on (windows g) = false
small_block_on (detours ours init_complete) = true

-- What a platform asks of the allocator beside its contract: the header does not use a realloc of the
-- allocator's own, and the detours take a block of no bytes for a foreign one.
unfoldable pub Suits : {H : Type 0} → (H → Ptr → Option ℕ) → Allocator H → Platform H → Type 0
Suits live A linux = Unit {0}
Suits live A macos = Unit {0}
Suits live A header = A.native_realloc ≡ none
Suits live A (common apple) = Unit {0}
Suits live A table = Unit {0}
Suits live A (windows g) = Unit {0}
Suits live A (detours ours init_complete) =
    (h : _) (p : Ptr) (n : ℕ) → live h p ≡ some n → (ours h p ≡ true) × (0 < n)
