-- ===== src/Linux/Header/Agreement.antt =====
-- include/alloc8/gnu_wrapper.h against src/platform/linux/gnu_wrapper.cpp with HeapRedirect between.
use alloc.Base.{
  ℕ, ◌≡◌, refl, ◌≢◌, inl, inr, none, ◌==◌, ne→==, Bool-cases, mul_size, product_exceeds,
}
use mathlib.Core.Bool.{and-true}
use alloc.Machine.{Ptr, null, Machine}
use alloc.Heap.{Allocator}
use alloc.Redirect.{alloc8_redirect}
use alloc.Linux.Header
use alloc.Linux.Wrapper
use alloc.NewDelete

module _ {H : Type 0} (A : Allocator H) (m : Machine H) where
  free-agrees : (p : Ptr) → Header.free A p m ≡ Wrapper.custom_free (alloc8_redirect A) p m
  unfolding Header.free Wrapper.custom_free alloc8_redirect
  free-agrees p = elim (Bool-cases (p == null)) [ inl e ↦ rw e | inr e ↦ rw e ]

  realloc-agrees :
      (p : Ptr) (sz : ℕ)
      → A.native_realloc ≡ none
      → Header.realloc A p sz m ≡ Wrapper.custom_realloc (alloc8_redirect A) p sz m
  unfolding Header.realloc Wrapper.custom_realloc alloc8_redirect
  realloc-agrees p sz plain = elim (Bool-cases (p == null)) [
    | inl e ↦ rw (plain, e)
    | inr e ↦ rw (plain, e)
  ]

  reallocarray-agrees :
      (p : Ptr) (n sz : ℕ)
      → A.native_realloc ≡ none
      → Header.reallocarray A p n sz m ≡ Wrapper.custom_reallocarray (alloc8_redirect A) p n sz m
  unfolding Header.reallocarray Wrapper.custom_reallocarray Wrapper.custom_realloc alloc8_redirect
  reallocarray-agrees p n sz plain = elim (Bool-cases (product_exceeds n sz)) [
    | inl e ↦ rw e
    | inr e ↦ rw e (realloc-agrees p (mul_size n sz) plain)
  ]

  -- Over an allocator without a realloc of its own, ten functions of the header do the same as those of
  -- the library behind HeapRedirect, at every argument and in every state.
  pub entry_points-agree :
      (p : Ptr) (a b : ℕ)
      → A.native_realloc ≡ none
      → (Header.malloc A a m ≡ Wrapper.custom_malloc (alloc8_redirect A) a m)
        × (Header.free A p m ≡ Wrapper.custom_free (alloc8_redirect A) p m)
        × (Header.calloc A a b m ≡ Wrapper.custom_calloc (alloc8_redirect A) a b m)
        × (Header.realloc A p a m ≡ Wrapper.custom_realloc (alloc8_redirect A) p a m)
        × (Header.reallocarray A p a b m ≡ Wrapper.custom_reallocarray (alloc8_redirect A) p a b m)
        × (Header.posix_memalign A a b m ≡ Wrapper.custom_posix_memalign (alloc8_redirect A) a b m)
        × (Header.aligned_alloc A a b m ≡ Wrapper.custom_aligned_alloc (alloc8_redirect A) a b m)
        × (Header.strdup A p m ≡ Wrapper.custom_strdup (alloc8_redirect A) p m)
        × (Header.strndup A p a m ≡ Wrapper.custom_strndup (alloc8_redirect A) p a m)
        × (Header.pvalloc A a m ≡ Wrapper.custom_pvalloc (alloc8_redirect A) a m)
  unfolding Header.malloc Header.calloc Header.posix_memalign Header.aligned_alloc Header.strdup
      Header.strndup Header.pvalloc Wrapper.custom_malloc Wrapper.custom_calloc
      Wrapper.custom_posix_memalign Wrapper.custom_aligned_alloc Wrapper.custom_strdup
      Wrapper.custom_strndup Wrapper.custom_pvalloc alloc8_redirect
  entry_points-agree p a b plain = (
    refl,
    free-agrees p,
    refl,
    realloc-agrees p a plain,
    reallocarray-agrees p a b plain,
    refl,
    refl,
    refl,
    refl,
    refl,
  )

  -- malloc_usable_size does the same in both at a pointer that is not null.
  pub usable_size-agrees :
      (p : Ptr)
      → p ≢ null
      → Header.malloc_usable_size A p m ≡ Wrapper.custom_malloc_usable_size (alloc8_redirect A) p m
  unfolding Header.malloc_usable_size Wrapper.custom_malloc_usable_size alloc8_redirect
  usable_size-agrees p ne = rw (ne→== p null ne)

  -- operator new does the same in both for a size that is not zero.
  pub operator_new-agrees :
      (sz : ℕ)
      → sz ≢ 0
      → Header.operator_new A sz m ≡ NewDelete.operator_new (alloc8_redirect A) sz m
  unfolding Header.operator_new NewDelete.operator_new alloc8_redirect
  operator_new-agrees sz ne = rw (ne→== sz 0 ne) (simp and-true)
