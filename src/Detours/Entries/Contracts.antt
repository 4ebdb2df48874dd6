-- ===== src/Detours/Entries/Contracts.antt =====
-- What each entry of g_CRTDetours does, by the arguments that it takes.
use alloc.Base.{
  ℕ, ◌+◌, ◌*◌, ◌<◌, ◌≡◌, refl, ◌≢◌, ◌⊎◌, Bool, true, Option, some, List, [], ◌∷◌, arith, size_mod,
  ne→==,
}
use native.Mathlib.Nat.{mod-eq_of_lt}
use alloc.Machine.{Ptr, null, Machine, ok}
use alloc.Machine.Yields.{Yields, yields}
use alloc.Heap.Contract.{WellFormed, Allocated, Failed, Freed, ZeroedProduct}
use alloc.Heap.Resizing.{Resized}
use alloc.Heap.Strings.{IsString, InBlock, Duplicated, copy_steps-Duplicated, strlen-IsString}
use alloc.Xx.{Xx, IsXx}
use alloc.Detours.{
  detour_malloc, detour_calloc, detour_msize, detour_expand, detour_strdup, detour_malloc_dbg,
  detour_free_dbg, detour_realloc_dbg, detour_calloc_dbg, detour_msize_dbg, detour_free,
  detour_realloc, detour_recalloc,
}
use alloc.Detours.Foreign.{detour_free-Freed, detour_realloc-Resized, safe_size-live}
use alloc.Detours.Recalloc.Resizing.{Recalloced, recalloc-Recalloced}
use alloc.Detours.Entries.{
  Export, malloc, free, calloc, realloc, msize, expand, recalloc, strdup, malloc_base, malloc_crt,
  free_base, free_crt, realloc_base, realloc_crt, calloc_base, calloc_crt, malloc_dbg, free_dbg,
  realloc_dbg, calloc_dbg, msize_dbg, new_64, new_array_64, delete_64, delete_array_64, new_32,
  new_array_32, delete_32, delete_array_32, Detour, of_size, of_count, of_pointer, of_resize,
  in_place, of_recount, of_measure, of_text, crt_detours,
}

-- What a function of a C runtime does, in a word.
data Kind : Type 0 where
  allocates clears frees resizes expands resizes_array measures duplicates : Kind

-- The kind of the function that a C runtime exports under a name.
kind_of : Export → Kind
kind_of malloc = allocates
kind_of malloc_base = allocates
kind_of malloc_crt = allocates
kind_of malloc_dbg = allocates
kind_of new_64 = allocates
kind_of new_array_64 = allocates
kind_of new_32 = allocates
kind_of new_array_32 = allocates
kind_of calloc = clears
kind_of calloc_base = clears
kind_of calloc_crt = clears
kind_of calloc_dbg = clears
kind_of free = frees
kind_of free_base = frees
kind_of free_crt = frees
kind_of free_dbg = frees
kind_of delete_64 = frees
kind_of delete_array_64 = frees
kind_of delete_32 = frees
kind_of delete_array_32 = frees
kind_of realloc = resizes
kind_of realloc_base = resizes
kind_of realloc_crt = resizes
kind_of realloc_dbg = resizes
kind_of expand = expands
kind_of recalloc = resizes_array
kind_of msize = measures
kind_of msize_dbg = measures
kind_of strdup = duplicates

module _ {H : Type 0} (live : H → Ptr → Option ℕ) where
  -- The function keeps the contract of the kind, which one with other arguments does not: that of malloc,
  -- which gives a new block of the size or null; of calloc; of free; of realloc; of an _expand that always
  -- fails; of realloc for the product of two numbers, with zeros behind the product; of _msize; of strdup. A
  -- block has at least one byte.
  Meets : Kind → Detour H → Type 0
  Meets allocates (of_size f) =
      (sz : ℕ) (m : Machine H)
      → sz < size_mod
      → WellFormed live m
      → Yields (Allocated live sz m) (f sz m)
  Meets clears (of_count f) =
      (count size : ℕ) (m : Machine H)
      → WellFormed live m
      → Yields (ZeroedProduct live count size m) (f count size m)
  Meets frees (of_pointer f) =
      (p : Ptr) (n : ℕ) (m : Machine H)
      → WellFormed live m
      → live m.heap p ≡ some n
      → 0 < n
      → (f null m ≡ ok tt m) × Yields (Freed live p m) (f p m)
  Meets resizes (of_resize f) =
      (p : Ptr) (sz : ℕ) (m : Machine H)
      → sz < size_mod
      → WellFormed live m
      → (p ≡ null) ⊎ ((n : ℕ) × (live m.heap p ≡ some n) × (0 < n))
      → Yields (Resized live true p sz m) (f p sz m)
  Meets expands (in_place f) =
      (p : Ptr) (sz : ℕ) (m : Machine H) → WellFormed live m → Yields (Failed live m) (f p sz m)
  Meets resizes_array (of_recount f) =
      (p : Ptr) (count size : ℕ) (m : Machine H)
      → count * size < size_mod
      → WellFormed live m
      → (p ≡ null) ⊎ ((n : ℕ) × (live m.heap p ≡ some n) × (0 < n))
      → Yields (Recalloced live p (count * size) m) (f p count size m)
  Meets measures (of_measure f) =
      (p : Ptr) (n : ℕ) (m : Machine H)
      → WellFormed live m
      → live m.heap p ≡ some n
      → (f null m ≡ ok 0 m) × (f p m ≡ ok n m)
  Meets duplicates (of_text f) =
      (s : Ptr) (n : ℕ) (m : Machine H)
      → WellFormed live m
      → s ≢ null
      → IsString m.mem s n
      → InBlock live m s (n + 1)
      → Yields (Duplicated live s (n + 1) m) (f s m)
  Meets _ _ = ⊥

  -- Each function keeps the contract of the name that it stands behind.
  pub AllMeet : List (Export × Detour H) → Type 0
  unfolding Meets kind_of
  AllMeet [] = Unit {0}
  AllMeet (x ∷ xs) = Meets (kind_of x.0) x.1 × AllMeet xs

  module _ (X : Xx H) (is : IsXx live X) (ours : H → Ptr → Bool)
      (ours-live : (h : H) (p : Ptr) (n : ℕ) → live h p ≡ some n → ours h p ≡ true)
      (init_complete : Bool) where
    frees_lem : Meets frees (of_pointer (detour_free X ours init_complete))
    unfolding Meets detour_free
    frees_lem p n m w own pos =
        (refl, detour_free-Freed live X is ours ours-live init_complete p n m w own pos)

    resizes_lem : Meets resizes (of_resize (detour_realloc X ours init_complete))
    unfolding Meets
    resizes_lem p sz m small w b =
        detour_realloc-Resized live X is ours ours-live init_complete p sz m small w b

    measures_lem : Meets measures (of_measure (detour_msize X ours))
    unfolding Meets detour_msize
    measures_lem p n m w own = (refl, safe_size-live live X is ours ours-live p n m w own)

    duplicates_lem : Meets duplicates (of_text (detour_strdup X ours))
    unfolding Meets detour_strdup
    duplicates_lem s n m w ne str at =
        let small : n + 1 < size_mod = omega (arith, str.fits) in
        rw (ne→== s null ne, strlen-IsString s n m str, mod-eq_of_lt small)
          (copy_steps-Duplicated live X.xxmalloc s (n + 1) m
            (is.xxmalloc-Allocated (n + 1) m small w) at)

    allocates_lem : Meets allocates (of_size (detour_malloc X ours))
    unfolding Meets detour_malloc
    allocates_lem = is.xxmalloc-Allocated

    zeroes_lem : Meets clears (of_count (detour_calloc X ours))
    unfolding Meets detour_calloc
    zeroes_lem = is.xxcalloc-ZeroedProduct

    expands_lem : Meets expands (in_place (detour_expand X ours))
    unfolding Meets detour_expand
    expands_lem p sz m w =
        yields (record { is_null = refl; same = λ _. refl; kept = λ _ _ _ _ _ _. refl; valid = w })

    recounts_lem : Meets resizes_array (of_recount (detour_recalloc X ours init_complete))
    unfolding Meets
    recounts_lem p count size m small w b =
        recalloc-Recalloced live X is ours ours-live init_complete p count size m small w b

    -- Over an interface that keeps its contract, and where every live block is known as ours, each
    -- of the 29 entries of g_CRTDetours keeps, during the start and after it, what its exported
    -- name calls for: that of malloc for the malloc family, and for operator new, which may give
    -- null; of calloc, which zeroes, for the calloc family; of free for the free family and
    -- operator delete; of realloc for the realloc family; _expand fails, _msize gives the size,
    -- and strdup duplicates. _recalloc is realloc of the product, where this fits a size_t, with
    -- zeros from its end on. The blocks that are passed in are live and have at least one byte, or
    -- are nullptr.
    pub crt_detours-AllMeet : AllMeet (crt_detours X ours init_complete)
    unfolding AllMeet crt_detours detour_malloc_dbg detour_free_dbg detour_realloc_dbg
        detour_calloc_dbg detour_msize_dbg
    crt_detours-AllMeet = (
      allocates_lem,
      (
        frees_lem,
        (
          zeroes_lem,
          (
            resizes_lem,
            (
              measures_lem,
              (
                expands_lem,
                (
                  recounts_lem,
                  (
                    duplicates_lem,
                    (
                      allocates_lem,
                      (
                        allocates_lem,
                        (
                          frees_lem,
                          (
                            frees_lem,
                            (
                              resizes_lem,
                              (
                                resizes_lem,
                                (
                                  zeroes_lem,
                                  (
                                    zeroes_lem,
                                    (
                                      allocates_lem,
                                      (
                                        frees_lem,
                                        (
                                          resizes_lem,
                                          (
                                            zeroes_lem,
                                            (
                                              measures_lem,
                                              (
                                                allocates_lem,
                                                (
                                                  allocates_lem,
                                                  (
                                                    frees_lem,
                                                    (
                                                      frees_lem,
                                                      (
                                                        allocates_lem,
                                                        (
                                                          allocates_lem,
                                                          (frees_lem, (frees_lem, tt)),
                                                        ),
                                                      ),
                                                    ),
                                                  ),
                                                ),
                                              ),
                                            ),
                                          ),
                                        ),
                                      ),
                                    ),
                                  ),
                                ),
                              ),
                            ),
                          ),
                        ),
                      ),
                    ),
                  ),
                ),
              ),
            ),
          ),
        ),
      ),
    )
