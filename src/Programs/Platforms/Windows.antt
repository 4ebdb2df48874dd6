-- ===== src/Programs/Platforms/Windows.antt =====
-- The two wrappers of Windows keep the contract of libc.
use alloc.Base.{ℕ, ◌≤◌, ◌<◌, ◌≡◌, refl, arith, inl, inr, Option, some, Bool, true, false, size_mod}
use alloc.Machine.{Ptr, Machine}
use alloc.Machine.Yields.{Yields}
use alloc.Heap.Contract.{WellFormed, IsBlock}
use alloc.Heap.Resizing.{Resized}
use alloc.Xx.{Xx, IsXxUpTo}
use alloc.Windows.Hooks.{
  Globals, choose, hooked_malloc, hooked_free, hooked_calloc, hooked_realloc, alloc8_redirect_init,
  alloc8_redirect_enable,
}
use alloc.Detours.{detour_malloc, detour_free, detour_calloc, detour_realloc}
use alloc.Detours.Foreign.{detour_free-Freed, detour_realloc-Resized}
use alloc.Programs.{IsLibc}
use alloc.Programs.Platforms.{windows_libc, detours_libc}
use alloc.Programs.Platforms.Portable.{xx_libc-IsLibc}

module _ {H : Type 0} (live : H → Ptr → Option ℕ) {limit : ℕ} (fits : limit ≤ size_mod) (X : Xx H)
    (is : IsXxUpTo live limit X) where
  pub windows_libc-IsLibc : (g : Globals H) → IsLibc live limit false (windows_libc X g)
  unfolding hooked_malloc hooked_free hooked_calloc hooked_realloc alloc8_redirect_enable
      alloc8_redirect_init choose
  windows_libc-IsLibc g = xx_libc-IsLibc live fits X is

  module _ (ours : H → Ptr → Bool)
      (suits : (h : H) (p : Ptr) (n : ℕ) → live h p ≡ some n → (ours h p ≡ true) × (0 < n))
      (init_complete : Bool) where
    realloc_lem :
        (p : Ptr) (sz : ℕ) (m : Machine H)
        → sz < limit
        → WellFormed live m
        → IsBlock live p m
        → Yields (Resized live true p sz m) (detour_realloc X ours init_complete p sz m)
    realloc_lem p sz m small w (inl e) =
        detour_realloc-Resized live X is ours (λ h p n own. (suits h p n own).0) init_complete p sz
          m (omega arith) w (inl e)
    realloc_lem p sz m small w (inr (n, own)) =
        detour_realloc-Resized live X is ours (λ h p n own. (suits h p n own).0) init_complete p sz
          m (omega arith) w (inr (n, own, (suits m.heap p n own).1))

    pub detours_libc-IsLibc : IsLibc live limit true (detours_libc X ours init_complete)
    unfolding detour_malloc detour_free detour_calloc
    detours_libc-IsLibc = record {
      malloc-Allocated = is.xxmalloc-Allocated;
      free-Freed = λ p n m w own.
          detour_free-Freed live X is ours (λ h p n own. (suits h p n own).0) init_complete p n m w
            own (suits m.heap p n own).1;
      free-null = λ m. refl;
      calloc-ZeroedProduct = is.xxcalloc-ZeroedProduct;
      realloc-Resized = realloc_lem;
    }
