-- ===== src/Programs/Platforms/Portable.antt =====
-- The interface itself, and the common functions over it, keep the contract of libc.
use alloc.Base.{ℕ, ◌≤◌, arith, refl, Option, Bool, false, size_mod}
use alloc.Machine.{Ptr, Machine}
use alloc.Machine.Yields.{weaken}
use alloc.Heap.Contract.{Reallocated}
use alloc.Heap.Resizing.{Resized, AfterFree}
use alloc.Xx.{Xx, IsXxUpTo}
use alloc.Common.Allocation.{common_calloc-ZeroedProduct, common_realloc-Resized}
use alloc.Programs.{IsLibc}
use alloc.Programs.Platforms.{xx_libc, common_libc}

module _ {H : Type 0} (live : H → Ptr → Option ℕ) where
  -- A realloc that frees at the size 0, and gives null.
  pub Resized-of_Reallocated :
      (p : Ptr) (sz : ℕ) (m : Machine H) (q : Ptr) (m' : Machine H)
      → Reallocated live p sz m q m'
      → Resized live false p sz m q m'
  unfolding AfterFree
  Resized-of_Reallocated p sz m q m' (Reallocated.allocated e a) = Resized.allocated e a
  Resized-of_Reallocated p sz m q m' (Reallocated.released ne z e fr) =
      Resized.replaced m' ne z fr (e, refl)
  Resized-of_Reallocated p sz m q m' (Reallocated.resized old own nz mv) =
      Resized.resized old own nz mv

  module _ {limit : ℕ} (fits : limit ≤ size_mod) (X : Xx H) (is : IsXxUpTo live limit X) where
    pub xx_libc-IsLibc : IsLibc live limit false (xx_libc X)
    xx_libc-IsLibc = record {
      malloc-Allocated = is.xxmalloc-Allocated;
      free-Freed = is.xxfree-Freed;
      free-null = is.xxfree-null;
      calloc-ZeroedProduct = is.xxcalloc-ZeroedProduct;
      realloc-Resized = λ p sz m small w b.
          weaken (is.xxrealloc-Reallocated p sz m small w b)
            λ q m' got. Resized-of_Reallocated p sz m q m' got;
    }

    pub common_libc-IsLibc : (apple : Bool) → IsLibc live limit apple (common_libc X apple)
    common_libc-IsLibc apple = record {
      malloc-Allocated = is.xxmalloc-Allocated;
      free-Freed = is.xxfree-Freed;
      free-null = is.xxfree-null;
      calloc-ZeroedProduct = common_calloc-ZeroedProduct live X is;
      realloc-Resized =
          λ p sz m small w b. common_realloc-Resized live X is apple p sz m (omega arith) w b;
    }
