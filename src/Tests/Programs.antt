-- ===== src/Tests/Programs.antt =====
-- The theorems on patched code and on Hoard's buffer, at small programs.
use alloc.Base.{
  List, if◌then◌else◌, ◌==◌, ℕ, ◌+◌, ◌-◌, ◌≤◌, none, false, inr, size_mod, ◌<◌, ◌≡◌, refl, ◌⊎◌, [],
  ◌∷◌, true, false, some, arith, round_up,
}
use mathlib.Core.List.{map}
use alloc.Machine.{Ptr, Machine, pure, skip, abort, crash, null}
use alloc.Windows.Jump.{ManualPatch, apply_manual_patch, remove_manual_patch, jump_size}
use alloc.Windows.Jump.Patching.{landing, apply_manual_patch-lands, remove-apply_manual_patch}
use alloc.Windows.Imports.{Image, patch_iat_in_all_modules}
use alloc.Windows.Imports.Patched.{redirected, matches, patch_iat_in_all_modules-redirected}
use alloc.Examples.Hoard.{State, Kernel, hoard_xxrealloc}
use alloc.Examples.Hoard.EarlyBuffer.{
  allocates, frees, run, total, all_small, run-abort, xxrealloc-crash,
}
use alloc.Windows.Imports.{PatchEntry, install_patches}
use alloc.Windows.Imports.Originals.{EverySlot, Unhooked, Sound}
use alloc.Windows.Imports.Originals.Installed.{
  Apart, DistinctHooks, AllSound, install_patches-AllSound,
}
use alloc.Detours.Attach.{DetourEntry, Module, install_detours, remove_detours}
use alloc.Detours.Attach.Removal.{crt_count, NonePending, remove-install_detours}
use alloc.Detours.Attach.TwoRuntimes.{two_runtimes, two_runtimes-remain}
use alloc.Examples.SimpleHeap
use alloc.Examples.SimpleHeap.Peak.{peak-wraps}
use alloc.Examples.SimpleHeap.Early.{early_blocks, InOrder, AllUpTo, early_blocks-InOrder}

-- Code in which each byte is 144, and a patch of the function named 5, at 4096.
abbrev nops : Ptr → ℕ
nops p = 144

abbrev malloc_patch : ManualPatch
malloc_patch = record {
  name = 5;
  replacement = 1000000;
  original = null;
  saved = [];
  applied = false;
}

lands_example :
    let r = apply_manual_patch (λ n. 4096) (λ p. true) (λ p. true) true malloc_patch nops in
    (r.0 ≡ true)
    × (landing true r.2 4096 ≡ some 1000000)
    × ((a : Ptr) → (a < 4096) ⊎ (4096 + jump_size true ≤ a) → r.2 a ≡ nops a)
lands_example =
    apply_manual_patch-lands (λ n. 4096) (λ p. true) (λ p. true) true malloc_patch nops 4096 refl
      (omega arith) refl refl (omega arith)

restores_example :
    let r = apply_manual_patch (λ n. 4096) (λ p. true) (λ p. true) false malloc_patch nops in
    let r' = remove_manual_patch (λ n. 4096) (λ p. true) (λ p. true) false r.1 r.2 in
    (r'.0 ≡ true) × (r'.1.applied ≡ false) × ((a : Ptr) → r'.2 a ≡ nops a)
restores_example =
    remove-apply_manual_patch (λ n. 4096) (λ p. true) (λ p. true) false malloc_patch nops 4096 refl
      (omega arith) refl refl

-- Heaps that are never asked.
abbrev idle : Kernel (Unit {0})
idle = record {
  malloc = λ n. pure null;
  free = λ p. skip;
  get_size = λ p. pure 0;
  clear = skip;
  make_heap = skip;
  find_unused_heap = skip;
  release_heap = skip;
  free_heap = skip;
}

abbrev early : Machine (State (Unit {0}))
early = record {
  heap = record { initialized_tsd = false; has_heap = false; buffer_pos = 40; heaps = tt };
  mem = λ a. some 0;
  errno = 0;
}

run_example :
    run idle 4096 (allocates 20000000 ∷ frees 4144 ∷ allocates 20000000 ∷ []) early ≡ abort
run_example =
    run-abort idle 4096 (omega arith) (allocates 20000000 ∷ frees 4144 ∷ allocates 20000000 ∷ [])
      early refl (omega arith) (unfold all_small in refl) (unfold total in omega arith)

xxrealloc_example : hoard_xxrealloc idle 4096 (4096 + 16) 64 early ≡ crash
xxrealloc_example =
    xxrealloc-crash idle 4096 (omega arith) 16 64 early refl (omega arith) (omega arith)
      (omega arith) (unfold round_up in omega arith) (unfold round_up in omega arith)

-- Strings that compare as their addresses do.
compare_address : Ptr → Ptr → ℕ
compare_address p q = if p == q then 0 else 1

-- A program that imports the functions 5 and 6 of the DLL 1, and one without imports.
abbrev loaded : List Image
loaded =
    record {
      has_imports = true;
      imports =
          record {
            dll_name = 1;
            thunks =
                record { by_ordinal = false; name = 5; slot = 100; function = 900 }
                ∷ record { by_ordinal = false; name = 6; slot = 108; function = 901 }
                ∷ [];
          }
          ∷ [];
    }
    ∷ record { has_imports = false; imports = [] }
    ∷ []

patched_example :
    let r =
      patch_iat_in_all_modules compare_address compare_address
        (λ p. true)
        1
        5
        7777
        (some null)
        loaded in
    (r.0 ≡ map (redirected compare_address compare_address 1 5 7777) loaded)
    × (r.1.patched ≡ matches compare_address compare_address 1 5 7777 loaded)
patched_example =
    patch_iat_in_all_modules-redirected compare_address compare_address 1 5 7777 (some null) loaded

-- The entries for the functions 5 and 6, with the hooks 7777 and 8888.
abbrev patches : List PatchEntry
patches =
    record { name = 5; hook = 7777; orig = null }
    ∷ record { name = 6; hook = 8888; orig = null }
    ∷ []

patches-DistinctHooks : DistinctHooks patches
unfolding DistinctHooks Apart
patches-DistinctHooks = ((omega arith), ((omega arith), (omega arith), tt), ((omega arith), tt, tt))

patches-AllSound : AllSound patches loaded
unfolding AllSound Sound EverySlot Unhooked
patches-AllSound = (
  (
    (omega arith),
    λ _. (((((omega arith), (omega arith)), (((omega arith), (omega arith)), tt)), tt), (tt, tt)),
  ),
  (
    (
      (omega arith),
      λ _. (((((omega arith), (omega arith)), (((omega arith), (omega arith)), tt)), tt), (tt, tt)),
    ),
    tt,
  ),
)

originals_example :
    let r =
      install_patches compare_address compare_address (λ p. true) (1 ∷ 2 ∷ []) patches loaded in
    AllSound r.0 r.1
originals_example =
    install_patches-AllSound compare_address compare_address (λ p. true) (1 ∷ 2 ∷ []) patches loaded
      patches-DistinctHooks patches-AllSound

-- One function, at 100 above the base of a module; a trampoline is 1000000 above its function.
abbrev entries : List DetourEntry
entries = record { name = 5; original = null; detour = 77; attached = false; pending = [] } ∷ []

abbrev one_runtime : List Module
one_runtime = record { base = 4096; is_crt = true } ∷ record { base = 8192; is_crt = false } ∷ []

removed_example :
    let r =
      install_detours
        (λ h n. h + 100)
        (λ p. 0)
        (λ p. p + 1000000)
        (λ p ps. p)
        0
        one_runtime
        entries
        (λ p. none) in
    (remove_detours (λ p. p - 1000000) (λ p. 0) 0 r.1 r.2).1 4196 ≡ none
removed_example =
    remove-install_detours (λ h n. h + 100) (λ p. 0) (λ p. p + 1000000) (λ p. p - 1000000)
      (λ p ps. p) (λ p ne. omega arith) (λ p ne. omega arith) (λ p. refl) (λ p. 0) 4196 0 0
      one_runtime entries (unfold crt_count in omega arith) (unfold NonePending in (refl, tt))

remain_example :
    let e : DetourEntry = record {
      name = 5;
      original = null;
      detour = 77;
      attached = false;
      pending = [];
    } in
    let r =
      install_detours
        (λ h n. h + 100)
        (λ p. 0)
        (λ p. p + 1000000)
        (λ p ps. p)
        0
        (two_runtimes 4096 8192)
        (e ∷ [])
        (λ p. none) in
    let after = (remove_detours (λ p. p - 1000000) (λ p. 0) 0 r.1 r.2).1 in
    (after 4196 ≡ some 77) ⊎ (after 8292 ≡ some 77)
remain_example =
    two_runtimes-remain (λ h n. h + 100) (λ p. 0) (λ p. p + 1000000) (λ p. p - 1000000) (λ p ps. p)
      (λ p ne. omega arith) (λ p ne. omega arith) (λ p. 0) 0 4096 8192
      (record { name = 5; original = null; detour = 77; attached = false; pending = [] })
      (omega arith) (omega arith) (omega arith) refl refl refl (inr refl)

abbrev counters : SimpleHeap.State
counters = record {
  init_buffer_pos = 0;
  initializing = false;
  resolved = true;
  total_allocated = 0;
  total_freed = 0;
  alloc_count = 0;
  free_count = 0;
  peak_usage = 0;
}

outside_buffer : SimpleHeap.is_init_buffer_ptr 4096 100 ≡ false
unfolding SimpleHeap.is_init_buffer_ptr
outside_buffer = refl

-- 10 bytes in a block that can hold 24, and then 4 bytes.
peak_example :
    let s1 = (SimpleHeap.simple_malloc 4096 100 10 counters).1 in
    let s2 = (SimpleHeap.simple_free 4096 24 100 s1).1 in
    let s3 = (SimpleHeap.simple_malloc 4096 100 4 s2).1 in s3.peak_usage ≡ size_mod - 10
peak_example =
    peak-wraps 4096 100 100 10 24 4 counters refl refl refl (omega arith) (omega arith)
      (omega arith) outside_buffer (omega arith) (omega arith)

-- The second request is refused.
early_example :
    InOrder 4100 (4100 + 0) (4100 + 65536) (early_blocks 4100 (100 ∷ 70000 ∷ 33 ∷ []) counters)
early_example =
    early_blocks-InOrder 4100 (omega arith) (100 ∷ 70000 ∷ 33 ∷ []) counters (omega arith)
      (unfold AllUpTo in (omega arith, (omega arith, (omega arith, tt))))
