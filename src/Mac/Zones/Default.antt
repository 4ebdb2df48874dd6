-- ===== src/Mac/Zones/Default.antt =====
-- The functions of src/platform/macos/mac_zones.cpp that know one zone only: `zone` is the address of
-- theDefaultZone, which getDefaultZone gives.
use alloc.Base.{ℕ, Bool, true}
use alloc.Machine.{Ptr, null, M, pure, skip}

module _ {H : Type 0} (zone : Ptr) where
  get_default_zone : M H Ptr
  get_default_zone = pure zone

  replace_malloc_create_zone : ℕ → ℕ → M H Ptr
  unfolding get_default_zone
  replace_malloc_create_zone start_size flags = get_default_zone

  replace_malloc_default_zone : M H Ptr
  unfolding get_default_zone
  replace_malloc_default_zone = get_default_zone

  replace_malloc_default_purgeable_zone : M H Ptr
  unfolding get_default_zone
  replace_malloc_default_purgeable_zone = get_default_zone

  replace_malloc_zone_from_ptr : Ptr → M H Ptr
  unfolding get_default_zone
  replace_malloc_zone_from_ptr p = get_default_zone

module _ {H : Type 0} where
  replace_malloc_destroy_zone : Ptr → M H (Unit {0})
  replace_malloc_destroy_zone z = skip

  -- The result, `*addresses` and `*count`.
  replace_malloc_get_all_zones : M H (ℕ × Ptr × ℕ)
  replace_malloc_get_all_zones = pure (0, null, 0)

  replace_malloc_set_zone_name : Ptr → Ptr → M H (Unit {0})
  replace_malloc_set_zone_name z zone_name = skip

  replace_malloc_jumpstart : ℕ → M H ℕ
  replace_malloc_jumpstart n = pure 1

  replace_malloc_zone_check : Ptr → M H Bool
  replace_malloc_zone_check z = pure true

  replace_malloc_zone_register : Ptr → M H (Unit {0})
  replace_malloc_zone_register z = skip

  replace_malloc_zone_unregister : Ptr → M H (Unit {0})
  replace_malloc_zone_unregister z = skip
