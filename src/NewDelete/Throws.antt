-- ===== src/NewDelete/Throws.antt =====
-- When operator new throws.
use alloc.Base.{
  ℕ, ◌%◌, ◌≡◌, IsPow2, ◌<◌, inl, inr, Option, ◌==◌, size_mod, eq→==, ne→==, if◌then◌else◌,
}
use alloc.Machine.{Ptr, null, Machine, Run, ok, bad_alloc, and_then, throw_bad_alloc, pure}
use alloc.Machine.Yields.{Yields, yields}
use alloc.Heap.Contract.{WellFormed, Failed, Failed-null, Fresh, Allocated, AllocatedAt}
use alloc.Xx.{Xx, IsXx}
use alloc.NewDelete.{operator_new, operator_new_aligned}

module _ {H : Type 0} (live : H → Ptr → Option ℕ) where
  -- A block that meets `P`, or std::bad_alloc with every block as it was.
  pub data NewOrThrows (P : Machine H → Ptr → Machine H → Type 0) (m : Machine H)
      : Run H Ptr → Type 0 where
    made : (p : Ptr) (m' : Machine H) → P m p m' → NewOrThrows P m (ok p m')
    throws : (m' : Machine H) → Failed live m null m' → NewOrThrows P m (bad_alloc m')

  module _ (X : Xx H) (is : IsXx live X) where
    -- operator new gives a new block of at least the size asked for, or throws std::bad_alloc and leaves
    -- every block as it was; it never returns a null pointer.
    pub operator_new-NewOrThrows :
        (sz : ℕ) (m : Machine H)
        → sz < size_mod
        → WellFormed live m
        → NewOrThrows (Fresh live sz) m (operator_new X sz m)
    unfolding operator_new
    operator_new-NewOrThrows sz m small w = go (is.xxmalloc-Allocated sz m small w)
      where
        go :
            {r : Run H Ptr}
            → Yields (Allocated live sz m) r
            → NewOrThrows
                (Fresh live sz)
                m
                (and_then r (λ ptr. if ptr == null then throw_bad_alloc else pure ptr))
        go (yields {a = p} {m = m'} (inl f)) =
            rw (eq→== p null f.is_null) (throws m' (Failed-null live f))
        go (yields {a = p} {m = m'} (inr new)) = rw (ne→== p null new.nonnull) (made p m' new)

    -- The aligned form does the same, at a multiple of the alignment, which is a power of two.
    operator_new_aligned-NewOrThrows :
        (sz al : ℕ) (m : Machine H)
        → IsPow2 al
        → al < size_mod
        → sz < size_mod
        → WellFormed live m
        → NewOrThrows
            (λ m p m'. Fresh live sz m p m' × (p % al ≡ 0))
            m
            (operator_new_aligned X sz al m)
    unfolding operator_new_aligned
    operator_new_aligned-NewOrThrows sz al m pow small small' w =
        go (is.xxmemalign-AllocatedAt al sz m pow small small' w)
      where
        go :
            {r : Run H Ptr}
            → Yields (AllocatedAt live al sz m) r
            → NewOrThrows
                (λ m p m'. Fresh live sz m p m' × (p % al ≡ 0))
                m
                (and_then r (λ ptr. if ptr == null then throw_bad_alloc else pure ptr))
        go (yields {a = p} {m = m'} (inl f)) =
            rw (eq→== p null f.is_null) (throws m' (Failed-null live f))
        go (yields {a = p} {m = m'} (inr (new, at))) =
            rw (ne→== p null new.nonnull) (made p m' (new, at))
