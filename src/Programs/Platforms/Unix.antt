-- ===== src/Programs/Platforms/Unix.antt =====
-- The wrappers of Linux and macOS keep the contract of libc.
use alloc.Base.{ℕ, ◌≤◌, ◌≡◌, refl, Option, none, some, true, false, arith, ne→==, ◌∙◌, size_mod}
use alloc.Machine.{Ptr, null, Machine}
use alloc.Machine.Yields.{Yields, weaken}
use alloc.Heap.{Allocator}
use alloc.Heap.Contract.{WellFormed, Freed, IsAllocatorUpTo}
use alloc.Xx.{Xx, IsXxUpTo}
use alloc.Redirect.{alloc8_redirect}
use alloc.Redirect.Refines.{alloc8_redirect-IsXxUpTo}
use alloc.Linux.Header.Agreement.{entry_points-agree}
use alloc.Linux.Wrapper.{custom_malloc, custom_free, custom_calloc, custom_realloc}
use alloc.Mac.{replace_malloc, replace_free, replace_calloc}
use alloc.Mac.Allocation.{replace_realloc-Resized}
use alloc.Programs.{IsLibc}
use alloc.Programs.Platforms.Portable.{Resized-of_Reallocated}
use alloc.Programs.Platforms.{linux_libc, mac_libc, header_libc}

module _ {H : Type 0} (live : H → Ptr → Option ℕ) where
  module _ {limit : ℕ} (fits : limit ≤ size_mod) (X : Xx H) (is : IsXxUpTo live limit X) where
    custom_free-Freed :
        (p : Ptr) (n : ℕ) (m : Machine H)
        → WellFormed live m
        → live m.heap p ≡ some n
        → Yields (Freed live p m) (custom_free X p m)
    unfolding custom_free
    custom_free-Freed p n m w own =
        rw (ne→== p null (λ e. ground (arith, w.null_free))) (is.xxfree-Freed p n m w own)

    pub linux_libc-IsLibc : IsLibc live limit false (linux_libc X)
    unfolding custom_malloc custom_free custom_calloc custom_realloc
    linux_libc-IsLibc = record {
      malloc-Allocated = is.xxmalloc-Allocated;
      free-Freed = custom_free-Freed;
      free-null = λ m. refl;
      calloc-ZeroedProduct = is.xxcalloc-ZeroedProduct;
      realloc-Resized = λ p sz m small w b.
          weaken (is.xxrealloc-Reallocated p sz m small w b)
            λ q m' got. Resized-of_Reallocated live p sz m q m' got;
    }

    pub mac_libc-IsLibc : IsLibc live limit true (mac_libc X)
    unfolding replace_malloc replace_free replace_calloc
    mac_libc-IsLibc = record {
      malloc-Allocated = is.xxmalloc-Allocated;
      free-Freed = is.xxfree-Freed;
      free-null = is.xxfree-null;
      calloc-ZeroedProduct = is.xxcalloc-ZeroedProduct;
      realloc-Resized =
          λ p sz m small w b. replace_realloc-Resized live X is p sz m (omega arith) w b;
    }

  -- The header does what the library does.
  pub header_libc-IsLibc :
      {limit : ℕ} (A : Allocator H)
      → limit ≤ size_mod
      → IsAllocatorUpTo live limit A
      → A.native_realloc ≡ none
      → IsLibc live limit false (header_libc A)
  header_libc-IsLibc {limit = limit} A fits is plain = record {
    malloc-Allocated = λ sz m small w.
        rw (entry_points-agree A m null sz 0 plain).0 (lib.malloc-Allocated sz m small w);
    free-Freed =
        λ p n m w own. rw (entry_points-agree A m p 0 0 plain).1 (lib.free-Freed p n m w own);
    free-null = λ m. (entry_points-agree A m null 0 0 plain).1 ∙ lib.free-null m;
    calloc-ZeroedProduct = λ count size m w.
        rw (entry_points-agree A m null count size plain).2
          (lib.calloc-ZeroedProduct count size m w);
    realloc-Resized = λ p sz m small w b.
        rw (entry_points-agree A m p sz 0 plain).3 (lib.realloc-Resized p sz m small w b);
  }
    where
      lib : IsLibc live limit false (linux_libc (alloc8_redirect A))
      lib =
          linux_libc-IsLibc fits (alloc8_redirect A) (alloc8_redirect-IsXxUpTo live A limit fits is)
