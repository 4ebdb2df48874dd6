-- ===== src/Examples/SimpleHeap/Whole/Keeps.antt =====
-- SimpleHeap keeps the contract of an allocator where the malloc of libc does.
use alloc.Base.{
  ℕ, ◌<◌, ◌≡◌, refl, ◌≢◌, inl, inr, ◌∙◌, sym, ap, false, Option, some, ne→==, size_mod, IsPow2,
  none≢some,
}
use alloc.Machine.{Ptr, null, Machine, Run, M, ok, bad_alloc, abort, crash}
use alloc.Machine.Yields.{Yields, yields, sequence, weaken}
use alloc.Heap.{Allocator}
use alloc.Heap.Contract.{WellFormed, Failed, Fresh, Freed, Allocated, AllocatedAt, IsAllocator}
use alloc.Examples.SimpleHeap.{simple_get_size, simple_free, is_init_buffer_ptr}
use alloc.Examples.SimpleHeap.Whole.{
  Started, under, over, call, step, simple_heap, malloc_real, memalign_real, free-Stays,
}

module _ {H : Type 0} (live : H → Ptr → Option ℕ) where
  -- The blocks are those of libc.
  abbrev pub live_under : Started H → Ptr → Option ℕ
  live_under h p = live h.libc p

  WellFormed-under : (m : Machine (Started H)) → WellFormed live_under m → WellFormed live (under m)
  WellFormed-under m w = record {
    null_free = w.null_free;
    blocks_mapped = w.blocks_mapped;
    blocks_apart = w.blocks_apart;
    blocks_fit = w.blocks_fit;
  }

  WellFormed-over : (m : Machine (Started H)) → WellFormed live (under m) → WellFormed live_under m
  WellFormed-over m w = record {
    null_free = w.null_free;
    blocks_mapped = w.blocks_mapped;
    blocks_apart = w.blocks_apart;
    blocks_fit = w.blocks_fit;
  }

  Failed-over :
      (m m' : Machine (Started H)) (q : Ptr)
      → Failed live (under m) q (under m')
      → Failed live_under m q m'
  Failed-over m m' q f = record {
    is_null = f.is_null;
    same = f.same;
    kept = f.kept;
    valid = WellFormed-over m' f.valid;
  }

  Fresh-over :
      (sz : ℕ) (m m' : Machine (Started H)) (q : Ptr)
      → Fresh live sz (under m) q (under m')
      → Fresh live_under sz m q m'
  Fresh-over sz m m' q new = record {
    size = new.size;
    nonnull = new.nonnull;
    unused = new.unused;
    owned = new.owned;
    enough = new.enough;
    others = new.others;
    kept = new.kept;
    valid = WellFormed-over m' new.valid;
  }

  Freed-over :
      (p : Ptr) (m m' : Machine (Started H))
      → Freed live p (under m) tt (under m')
      → Freed live_under p m tt m'
  Freed-over p m m' fr = record {
    gone = fr.gone;
    others = fr.others;
    kept = fr.kept;
    valid = WellFormed-over m' fr.valid;
  }

  call-Yields :
      {A : Type 0} (P : A → Machine H → Type 0) (m : Machine (Started H)) (r : Run H A)
      → Yields P r
      → Yields
          (λ a m'. P a (under m'))
          (elim r [
            | ok a m' ↦ ok a (over m m')
            | bad_alloc m' ↦ bad_alloc (over m m')
            | abort ↦ abort
            | crash ↦ crash
          ])
  call-Yields P m r (yields p) = yields p

  module _ (buffer : Ptr) (libc : Allocator H) (is : IsAllocator live libc)
      (outside : (h : H) (p : Ptr) (n : ℕ)
        → live h p ≡ some n
        → is_init_buffer_ptr buffer p ≡ false)
      (acquire release : M (Started H) (Unit {0})) where
    malloc_lem :
        (sz : ℕ) (m : Machine (Started H))
        → sz < size_mod
        → WellFormed live_under m
        → Yields (Allocated live_under sz m) ((simple_heap buffer libc acquire release).malloc sz m)
    unfolding simple_heap call step
    malloc_lem sz m small w =
        sequence
          (call-Yields (Allocated live sz (under m)) m (libc.malloc sz (under m))
            (is.malloc-Allocated sz (under m) small (WellFormed-under m w)))
          λ q m1 got. rw (malloc_real buffer q sz m1.heap.globals m1.heap.looked_up) (
            yields (elim got [
              | inl f ↦ inl (Failed-over m _ q f)
              | inr new ↦ inr (Fresh-over sz m _ q new)
            ]))

    memalign_lem :
        (al sz : ℕ) (m : Machine (Started H))
        → IsPow2 al
        → al < size_mod
        → sz < size_mod
        → WellFormed live_under m
        → Yields
            (AllocatedAt live_under al sz m)
            ((simple_heap buffer libc acquire release).memalign al sz m)
    unfolding simple_heap call step
    memalign_lem al sz m pow small small' w =
        sequence
          (call-Yields (AllocatedAt live al sz (under m)) m (libc.memalign al sz (under m))
            (is.memalign-AllocatedAt al sz (under m) pow small small' (WellFormed-under m w)))
          λ q m1 got. rw (memalign_real buffer q al sz m1.heap.globals m1.heap.looked_up) (
            yields (elim got [
              | inl f ↦ inl (Failed-over m _ q f)
              | inr (new, at) ↦ inr (Fresh-over sz m _ q new, at)
            ]))

    module _ (p : Ptr) (n : ℕ) (m : Machine (Started H)) (w : WellFormed live_under m)
        (own : live_under m.heap p ≡ some n) where
      nonnull : p ≢ null
      nonnull z = none≢some (sym w.null_free ∙ ap (live_under m.heap) (sym z) ∙ own)

      size_lem : call (libc.get_size p) m ≡ ok n m
      unfolding call
      size_lem = rw (call, is.get_size-live p n (under m) (WellFormed-under m w) own) refl

      get_size_lem : (simple_heap buffer libc acquire release).get_size p m ≡ ok n m
      unfolding simple_heap simple_get_size
      get_size_lem = rw (ne→== p null nonnull, outside m.heap.libc p n own, size_lem) refl

      -- After the counters are raised.
      abbrev counted : Machine (Started H)
      counted = record m {
        heap = record {
          globals = (simple_free buffer n p m.heap.globals).1;
          looked_up = free-Stays buffer n p m.heap.globals m.heap.looked_up;
          libc = m.heap.libc;
        };
      }

      free_lem : Yields (Freed live_under p m) ((simple_heap buffer libc acquire release).free p m)
      unfolding simple_heap call step
      free_lem =
          rw (ne→== p null nonnull, outside m.heap.libc p n own, size_lem)
            (weaken
              (call-Yields (Freed live p (under m)) counted (libc.free p (under m))
                (is.free-Freed p n (under m) (WellFormed-under m w) own))
              λ u m' fr. Freed-over p m m' fr)

    -- Where libc keeps the contract of an allocator and gives no block in the early buffer, SimpleHeap keeps it
    -- too once the functions of libc are looked up, with the blocks of libc.
    pub simple_heap-IsAllocator : IsAllocator live_under (simple_heap buffer libc acquire release)
    unfolding simple_heap
    simple_heap-IsAllocator = record {
      malloc-Allocated = malloc_lem;
      memalign-AllocatedAt = memalign_lem;
      free-Freed = free_lem;
      get_size-live = get_size_lem;
      native_realloc-Reallocated = λ f p sz m e _ _ _. absurd (none≢some e);
    }
