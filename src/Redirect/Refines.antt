-- ===== src/Redirect/Refines.antt =====
-- HeapRedirect keeps the contract: from an allocator that meets its own, the xxmalloc interface.
use alloc.Base.{
  ℕ, ◌*◌, ◌≤◌, ◌<◌, ◌≡◌, refl, ◌≢◌, inl, inr, Option, none, some, arith, ◌==◌, size_mod, eq→==,
  ne→==, ==→eq, ==→ne, Bool-cases, product_overflows, product_overflows_iff,
  lt_of_product_overflows,
}
use native.Mathlib.Nat.{mod-eq_of_lt}
use alloc.Machine.{Ptr, null, Machine, M, ok}
use alloc.Machine.Yields.{Yields, yields, sequence, weaken}
use alloc.Heap.{Allocator}
use alloc.Heap.Contract.{
  WellFormed, IsBlock, Freed, Reallocated, allocated, released, resized, ZeroedProduct, IsAllocator,
  IsAllocatorUpTo,
}
use alloc.Heap.Moving.{move-MovedOrKept}
use alloc.Heap.Filling.{zero_fill-Zeroed}
use alloc.Xx.{IsXx, IsXxUpTo}
use alloc.Redirect.{
  free, get_size, default_realloc, native_or_default, realloc, calloc, alloc8_redirect,
}

module _ {H : Type 0} (live : H → Ptr → Option ℕ) (A : Allocator H) (limit : ℕ)
    (limit_fits : limit ≤ size_mod) (is : IsAllocatorUpTo live limit A) where
  ne_null :
      (p : Ptr) (n : ℕ) (m : Machine H) → WellFormed live m → live m.heap p ≡ some n → p ≢ null
  ne_null p n m w own e = ground (arith, w.null_free)

  free-Freed :
      (p : Ptr) (n : ℕ) (m : Machine H)
      → WellFormed live m
      → live m.heap p ≡ some n
      → Yields (Freed live p m) (free A p m)
  unfolding free
  free-Freed p n m w own = rw (ne→== p null (ne_null p n m w own)) (is.free-Freed p n m w own)

  get_size-live :
      (p : Ptr) (n : ℕ) (m : Machine H)
      → WellFormed live m
      → live m.heap p ≡ some n
      → get_size A p m ≡ ok n m
  unfolding get_size
  get_size-live p n m w own = rw (ne→== p null (ne_null p n m w own)) (is.get_size-live p n m w own)

  -- The fallback keeps the contract of realloc.
  default_realloc-Reallocated :
      (p : Ptr) (sz : ℕ) (m : Machine H)
      → sz < size_mod
      → WellFormed live m
      → IsBlock live p m
      → Yields (Reallocated live p sz m) (default_realloc A p sz m)
  unfolding default_realloc
  default_realloc-Reallocated p sz m small w (inl e) =
      rw (eq→== p null e) (weaken (is.malloc-Allocated sz m small w) λ q m' got. allocated e got)
  default_realloc-Reallocated p sz m small w (inr (old, own)) =
      rw (ne→== p null (ne_null p old m w own)) (elim (Bool-cases (sz == 0)) [
        | inl z ↦ rw z (
            sequence (is.free-Freed p old m w own)
              λ _ m' fr. yields (released (ne_null p old m w own) (==→eq sz 0 z) refl fr))
        | inr nz ↦
            rw (nz, is.get_size-live p old m w own)
              (weaken
                (move-MovedOrKept live A.malloc A.free (λ q. q) (λ q e. e) is.malloc-Allocated
                  is.free-Freed p old sz m w own small)
                λ q m' got. resized old own (==→ne sz 0 nz) got)
      ])

  pick-Reallocated :
      (p : Ptr) (sz : ℕ) (m : Machine H) (o : Option (Ptr → ℕ → M H Ptr))
      → sz < limit
      → WellFormed live m
      → IsBlock live p m
      → A.native_realloc ≡ o
      → Yields (Reallocated live p sz m) (native_or_default A o p sz m)
  unfolding native_or_default
  pick-Reallocated p sz m none small w b e = default_realloc-Reallocated p sz m (omega arith) w b
  pick-Reallocated p sz m (some f) small w b e = is.native_realloc-Reallocated f p sz m e small w b

  realloc-Reallocated :
      (p : Ptr) (sz : ℕ) (m : Machine H)
      → sz < limit
      → WellFormed live m
      → IsBlock live p m
      → Yields (Reallocated live p sz m) (realloc A p sz m)
  unfolding realloc
  realloc-Reallocated p sz m small w b = pick-Reallocated p sz m A.native_realloc small w b refl

  calloc-ZeroedProduct :
      (count size : ℕ) (m : Machine H)
      → WellFormed live m
      → Yields (ZeroedProduct live count size m) (calloc A count size m)
  unfolding calloc
  calloc-ZeroedProduct count size m w = elim (Bool-cases (product_overflows count size)) [
    | inl over ↦
        let large = (product_overflows_iff count size).0 over in
        rw over (yields (inr (large, refl, refl)))
    | inr fits ↦
        let small : count * size < size_mod = lt_of_product_overflows count size fits in
        rw (fits, mod-eq_of_lt small)
          (weaken
            (zero_fill-Zeroed live A.malloc (count * size) m
              (is.malloc-Allocated (count * size) m small w))
            λ p m' z. inl (small, z))
  ]

  pub alloc8_redirect-IsXxUpTo : IsXxUpTo live limit (alloc8_redirect A)
  unfolding alloc8_redirect
  alloc8_redirect-IsXxUpTo = record {
    xxmalloc-Allocated = is.malloc-Allocated;
    xxmemalign-AllocatedAt = is.memalign-AllocatedAt;
    xxfree-Freed = free-Freed;
    xxfree-null = λ m. refl;
    usable_size-live = get_size-live;
    usable_size-null = λ m. refl;
    xxrealloc-Reallocated = realloc-Reallocated;
    xxcalloc-ZeroedProduct = calloc-ZeroedProduct;
  }

-- An allocator that meets its contract makes an xxmalloc interface that meets its own: HeapRedirect
-- adds the null checks of free and getSize, the fallback of realloc, and calloc.
pub alloc8_redirect-IsXx :
    {H : Type 0} (live : H → Ptr → Option ℕ) (A : Allocator H)
    → IsAllocator live A
    → IsXx live (alloc8_redirect A)
alloc8_redirect-IsXx live A is = alloc8_redirect-IsXxUpTo live A size_mod (omega arith) is
