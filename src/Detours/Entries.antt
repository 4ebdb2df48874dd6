-- ===== src/Detours/Entries.antt =====
-- g_CRTDetours of src/platform/windows/win_wrapper_detours.cpp: which function each export of a C runtime is
-- detoured to.
pub mod Contracts
use alloc.Base.{ℕ, Bool, List, [], ◌∷◌}
use alloc.Machine.{Ptr, M}
use alloc.Xx.{Xx}
use alloc.Detours.{
  detour_malloc, detour_free, detour_calloc, detour_realloc, detour_msize, detour_expand,
  detour_recalloc, detour_strdup, detour_malloc_dbg, detour_free_dbg, detour_realloc_dbg,
  detour_calloc_dbg, detour_msize_dbg,
}

-- The exported names; the operators have one mangled name for 64 bits and one for 32.
pub data Export : Type 0 where
  malloc free calloc realloc msize expand recalloc strdup : Export
  malloc_base malloc_crt free_base free_crt : Export
  realloc_base realloc_crt calloc_base calloc_crt : Export
  malloc_dbg free_dbg realloc_dbg calloc_dbg msize_dbg : Export
  new_64 new_array_64 delete_64 delete_array_64 : Export
  new_32 new_array_32 delete_32 delete_array_32 : Export

-- A detour, by the arguments that it takes; those that the debug variants ignore are left out.
pub data Detour (H : Type 0) : Type 0 where
  of_size : (ℕ → M H Ptr) → Detour H
  of_count : (ℕ → ℕ → M H Ptr) → Detour H
  of_pointer : (Ptr → M H (Unit {0})) → Detour H
  of_resize : (Ptr → ℕ → M H Ptr) → Detour H
  in_place : (Ptr → ℕ → M H Ptr) → Detour H
  of_recount : (Ptr → ℕ → ℕ → M H Ptr) → Detour H
  of_measure : (Ptr → M H ℕ) → Detour H
  of_text : (Ptr → M H Ptr) → Detour H

module _ {H : Type 0} (X : Xx H) (ours : H → Ptr → Bool) (init_complete : Bool) where
  unfoldable pub crt_detours : List (Export × Detour H)
  unfolding detour_malloc detour_free detour_calloc detour_realloc detour_msize detour_expand
      detour_recalloc detour_strdup detour_malloc_dbg detour_free_dbg detour_realloc_dbg
      detour_calloc_dbg detour_msize_dbg
  crt_detours =
      (malloc, of_size (detour_malloc X ours))
      ∷ (free, of_pointer (detour_free X ours init_complete))
      ∷ (calloc, of_count (detour_calloc X ours))
      ∷ (realloc, of_resize (detour_realloc X ours init_complete))
      ∷ (msize, of_measure (detour_msize X ours))
      ∷ (expand, in_place (detour_expand X ours))
      ∷ (recalloc, of_recount (detour_recalloc X ours init_complete))
      ∷ (strdup, of_text (detour_strdup X ours))
      ∷ (malloc_base, of_size (detour_malloc X ours))
      ∷ (malloc_crt, of_size (detour_malloc X ours))
      ∷ (free_base, of_pointer (detour_free X ours init_complete))
      ∷ (free_crt, of_pointer (detour_free X ours init_complete))
      ∷ (realloc_base, of_resize (detour_realloc X ours init_complete))
      ∷ (realloc_crt, of_resize (detour_realloc X ours init_complete))
      ∷ (calloc_base, of_count (detour_calloc X ours))
      ∷ (calloc_crt, of_count (detour_calloc X ours))
      ∷ (malloc_dbg, of_size (detour_malloc_dbg X ours))
      ∷ (free_dbg, of_pointer (detour_free_dbg X ours init_complete))
      ∷ (realloc_dbg, of_resize (detour_realloc_dbg X ours init_complete))
      ∷ (calloc_dbg, of_count (detour_calloc_dbg X ours))
      ∷ (msize_dbg, of_measure (detour_msize_dbg X ours))
      ∷ (new_64, of_size (detour_malloc X ours))
      ∷ (new_array_64, of_size (detour_malloc X ours))
      ∷ (delete_64, of_pointer (detour_free X ours init_complete))
      ∷ (delete_array_64, of_pointer (detour_free X ours init_complete))
      ∷ (new_32, of_size (detour_malloc X ours))
      ∷ (new_array_32, of_size (detour_malloc X ours))
      ∷ (delete_32, of_pointer (detour_free X ours init_complete))
      ∷ (delete_array_32, of_pointer (detour_free X ours init_complete))
      ∷ []
