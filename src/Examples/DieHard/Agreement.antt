-- ===== src/Examples/DieHard/Agreement.antt =====
-- The functions of diehard_alloc8.cpp against HeapRedirect over the same heap.
use alloc.Base.{
  ℕ, ◌+◌, ◌*◌, ◌<◌, ◌≤◌, ◌≡◌, ◌≢◌, refl, inl, inr, Option, some, arith, ◌==◌, Bool-cases, true,
  false, ne→==, size_mod, mul_size, product_overflows, product_overflows_iff,
}
use alloc.Machine.{Ptr, null, Machine, ok, filled}
use alloc.Machine.Memory.{memset-ok}
use alloc.Machine.Yields.{yielded}
use alloc.Heap.{Allocator}
use alloc.Heap.Contract.{WellFormed, Allocated, Fresh, IsAllocator}
use alloc.Heap.Filling.{write-Fresh, Fresh-IsMapped}
use alloc.Heap.Writes.{filled-WritesIn}
use alloc.Redirect.{free, get_size, default_realloc, calloc}
use alloc.Examples.DieHard.{diehard_xxrealloc, diehard_xxcalloc}

module _ {H : Type 0} (D : Allocator H) where
  -- On every argument and machine xxrealloc is the fallback of HeapRedirect, and, where the product fits a
  -- size_t, xxcalloc is its calloc.
  pub diehard-eq-redirect :
      (ptr : Ptr) (new_size count sz : ℕ) (m : Machine H)
      → count * sz < size_mod
      → (diehard_xxrealloc D ptr new_size m ≡ default_realloc D ptr new_size m)
        × (diehard_xxcalloc D count sz m ≡ calloc D count sz m)
  diehard-eq-redirect ptr new_size count sz m small = (reallocs, callocs)
    where
      reallocs : diehard_xxrealloc D ptr new_size m ≡ default_realloc D ptr new_size m
      reallocs =
          unfold diehard_xxrealloc default_realloc in
          elim (Bool-cases (ptr == null)) [
            | inl b ↦ rw b refl
            | inr b ↦ unfold free get_size in rw b refl
          ]

      callocs : diehard_xxcalloc D count sz m ≡ calloc D count sz m
      callocs =
          let fits : product_overflows count sz ≡ false =
            ground (arith, product_overflows_iff count sz) in
          unfold diehard_xxcalloc calloc in rw fits refl

  -- Where the product needs more than a size_t, and malloc gives a block for what it leaves modulo
  -- 2^64, which is less, xxcalloc of DieHard returns this block, with the heap as that malloc left
  -- it and that many bytes zero, while the calloc of HeapRedirect gives null and does nothing.
  pub diehard_xxcalloc-wraps :
      (live : H → Ptr → Option ℕ)
      → IsAllocator live D
      → (count sz : ℕ) (q : Ptr) (m m1 : Machine H) → size_mod ≤ count * sz
      → WellFormed live m
      → D.malloc (mul_size count sz) m ≡ ok q m1
      → q ≢ null
      → (calloc D count sz m ≡ ok null m)
        × (mul_size count sz < count * sz)
        × (m' : Machine H) × (diehard_xxcalloc D count sz m ≡ ok q m')
        × (m'.heap ≡ m1.heap)
        × Fresh live (mul_size count sz) m q m'
        × ((i : ℕ) → i < mul_size count sz → m'.mem (q + i) ≡ some 0)
  diehard_xxcalloc-wraps live is count sz q m m1 large w e nn =
      let total = mul_size count sz in
      let given = is.malloc-Allocated total m (omega arith) w in
      elim (yielded (Allocated live total m) q m1 (rw e at given)) [
        | inl f ↦ absurd (nn f.is_null)
        | inr new ↦ (
          rejected,
          omega arith,
          record m1 { mem = filled m1.mem q 0 total },
          made new,
          refl,
          write-Fresh live total m m1 q _ new
              (filled-WritesIn m1.mem q 0 new.size total new.enough),
          λ i lt. ground arith,
        )
      ]
    where
      rejected : calloc D count sz m ≡ ok null m
      rejected =
          let over : product_overflows count sz ≡ true =
            ground (arith, product_overflows_iff count sz) in
          unfold calloc in rw over refl

      made :
          Fresh live (mul_size count sz) m q m1
          → diehard_xxcalloc D count sz m
            ≡ ok q (record m1 { mem = filled m1.mem q 0 (mul_size count sz) })
      made new =
          let mapped =
            Fresh-IsMapped live (mul_size count sz) (mul_size count sz) m m1 q new (omega arith) in
          unfold diehard_xxcalloc in
          rw (e, ne→== q null nn, memset-ok m1 q 0 (mul_size count sz) mapped) refl
