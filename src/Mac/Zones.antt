-- ===== src/Mac/Zones.antt =====
-- src/platform/macos/mac_zones.cpp: malloc zones. There is one zone, whose address is `zone`, and
-- every function ignores the zone that it is given.
pub mod Batch
pub mod Default
use alloc.Base.{ℕ, zero, suc, List, [], ◌∷◌, ◌==◌, if◌then◌else◌}
use alloc.Machine.{Ptr, null, M, pure, skip, ◌>>=◌, ◌>>◌}
use alloc.Xx.{Xx}
use alloc.Mac.{
  replace_malloc, replace_malloc_usable_size, replace_calloc, replace_realloc, replace_valloc,
  replace_memalign,
}

-- malloc_zone_t: the members that the code sets, other than to null, and but for the name.
pub record Zone (H : Type 0) : Type 0 where
  pub size : Ptr → Ptr → M H ℕ
  pub malloc : Ptr → ℕ → M H Ptr
  pub calloc : Ptr → ℕ → ℕ → M H Ptr
  pub valloc : Ptr → ℕ → M H Ptr
  pub free : Ptr → Ptr → M H (Unit {0})
  pub realloc : Ptr → Ptr → ℕ → M H Ptr
  pub batch_malloc : Ptr → ℕ → ℕ → M H (ℕ × List Ptr)
  pub batch_free : Ptr → List Ptr → M H (Unit {0})
  pub version : ℕ
  pub memalign : Ptr → ℕ → ℕ → M H Ptr
  pub free_definite_size : Ptr → Ptr → ℕ → M H (Unit {0})

module _ {H : Type 0} (X : Xx H) where
  replace_internal_malloc_zone_size : Ptr → Ptr → M H ℕ
  unfolding replace_malloc_usable_size
  replace_internal_malloc_zone_size z ptr = replace_malloc_usable_size X ptr

  replace_malloc_zone_malloc : Ptr → ℕ → M H Ptr
  unfolding replace_malloc
  replace_malloc_zone_malloc z size = replace_malloc X size

  replace_malloc_zone_calloc : Ptr → ℕ → ℕ → M H Ptr
  unfolding replace_calloc
  replace_malloc_zone_calloc z count size = replace_calloc X count size

  replace_malloc_zone_realloc : Ptr → Ptr → ℕ → M H Ptr
  unfolding replace_realloc
  replace_malloc_zone_realloc z ptr size = replace_realloc X ptr size

  replace_malloc_zone_valloc : (page : ℕ) → Ptr → ℕ → M H Ptr
  unfolding replace_valloc
  replace_malloc_zone_valloc page z size = replace_valloc X page size

  replace_malloc_zone_memalign : Ptr → ℕ → ℕ → M H Ptr
  unfolding replace_memalign
  replace_malloc_zone_memalign z alignment size = replace_memalign X alignment size

  replace_malloc_zone_free : Ptr → Ptr → M H (Unit {0})
  replace_malloc_zone_free z ptr = X.xxfree ptr

  replace_malloc_zone_free_definite_size : Ptr → Ptr → ℕ → M H (Unit {0})
  replace_malloc_zone_free_definite_size z ptr size = X.xxfree ptr

  -- The loop of batch_malloc, with `left` rounds to go: how far `i` gets, and the entries of `results`
  -- that it fills, the null that ends it early included.
  pub batch_malloc_loop : (size left : ℕ) → M H (ℕ × List Ptr)
  unfolding replace_malloc
  batch_malloc_loop size zero = pure (0, [])
  batch_malloc_loop size (suc left) = do
    p ← replace_malloc X size
    if p == null
        then pure (0, p ∷ [])
        else do r ← batch_malloc_loop size left; pure (suc r.0, p ∷ r.1)

  pub replace_malloc_zone_batch_malloc : Ptr → ℕ → (num_requested : ℕ) → M H (ℕ × List Ptr)
  unfolding batch_malloc_loop
  replace_malloc_zone_batch_malloc z size num_requested = batch_malloc_loop size num_requested

  pub replace_malloc_zone_batch_free : Ptr → (to_be_freed : List Ptr) → M H (Unit {0})
  replace_malloc_zone_batch_free z [] = skip
  replace_malloc_zone_batch_free z (p ∷ ps) = do X.xxfree p; replace_malloc_zone_batch_free z ps

  -- initializeZone, but for the zone name, `destroy`, which does nothing, and the null members.
  pub initialize_zone : (page : ℕ) → Zone H
  unfolding replace_internal_malloc_zone_size replace_malloc_zone_malloc replace_malloc_zone_calloc
      replace_malloc_zone_valloc replace_malloc_zone_free replace_malloc_zone_realloc
      replace_malloc_zone_batch_malloc replace_malloc_zone_batch_free replace_malloc_zone_memalign
      replace_malloc_zone_free_definite_size
  initialize_zone page = record {
    size = replace_internal_malloc_zone_size;
    malloc = replace_malloc_zone_malloc;
    calloc = replace_malloc_zone_calloc;
    valloc = replace_malloc_zone_valloc page;
    free = replace_malloc_zone_free;
    realloc = replace_malloc_zone_realloc;
    batch_malloc = replace_malloc_zone_batch_malloc;
    batch_free = replace_malloc_zone_batch_free;
    version = 8;
    memalign = replace_malloc_zone_memalign;
    free_definite_size = replace_malloc_zone_free_definite_size;
  }
