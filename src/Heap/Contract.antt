-- ===== src/Heap/Contract.antt =====
-- What the wrappers rely on in an allocator: the documented contract of malloc, free and getSize.
-- `live h p` is the usable size of the block that `p` heads in the allocator's state `h`, and `none`
-- where `p` heads no live block.
use alloc.Base.{
  ℕ, ◌+◌, ◌*◌, ◌%◌, ◌≤◌, ◌<◌, ◌≡◌, refl, ◌≢◌, ◌⊎◌, Bool, true, false, Option, none, some, size_mod,
  is_some, IsPow2,
}
use alloc.Machine.{Ptr, null, Machine, M, ok}
use alloc.Machine.Memory.{Apart}
use alloc.Machine.Yields.{Yields}
use alloc.Heap.{Allocator}
use alloc.Errno.{einval, enomem}

module _ {H : Type 0} (live : H → Ptr → Option ℕ) where
  -- The live blocks are mapped, inside the address space, disjoint, and none is at `nullptr`.
  pub record WellFormed (m : Machine H) : Type 0 where
    pub null_free : live m.heap null ≡ none
    pub blocks_mapped :
        (p : Ptr) (n : ℕ) (a : Ptr)
        → live m.heap p ≡ some n
        → p ≤ a
        → a < p + n
        → is_some (m.mem a) ≡ true
    pub blocks_apart :
        (p q : Ptr) (n k : ℕ)
        → live m.heap p ≡ some n
        → live m.heap q ≡ some k
        → p ≢ q
        → Apart p n q k
    pub blocks_fit : (p : Ptr) (n : ℕ) → live m.heap p ≡ some n → p + n ≤ size_mod

  -- The bytes of the blocks that were live in `m` are unchanged.
  abbrev pub Keeps : Machine H → Machine H → Type 0
  Keeps m m' =
      (q : Ptr) (n : ℕ) (a : Ptr) → live m.heap q ≡ some n → q ≤ a → a < q + n → m'.mem a ≡ m.mem a

  -- The same, of all blocks but the one at `p`.
  abbrev pub KeepsBut : Ptr → Machine H → Machine H → Type 0
  KeepsBut p m m' =
      (q : Ptr) (n : ℕ) (a : Ptr)
      → q ≢ p
      → live m.heap q ≡ some n
      → q ≤ a
      → a < q + n
      → m'.mem a ≡ m.mem a

  -- An allocation that failed: a null result, and every block as it was.
  pub record Failed (m : Machine H) (p : Ptr) (m' : Machine H) : Type 0 where
    pub is_null : p ≡ null
    pub same : (q : Ptr) → live m'.heap q ≡ live m.heap q
    pub kept : Keeps m m'
    pub valid : WellFormed m'

  pub Failed-null : {m : Machine H} {p : Ptr} {m' : Machine H} → Failed m p m' → Failed m null m'
  Failed-null f = record { is_null = refl; same = f.same; kept = f.kept; valid = f.valid }

  -- An allocation that succeeded: one more block, of at least `sz` bytes.
  pub record Fresh (sz : ℕ) (m : Machine H) (p : Ptr) (m' : Machine H) : Type 0 where
    pub size : ℕ
    pub nonnull : p ≢ null
    pub unused : live m.heap p ≡ none
    pub owned : live m'.heap p ≡ some size
    pub enough : sz ≤ size
    pub others : (q : Ptr) → q ≢ p → live m'.heap q ≡ live m.heap q
    pub kept : Keeps m m'
    pub valid : WellFormed m'

  -- What malloc gives.
  abbrev pub Allocated : ℕ → Machine H → Ptr → Machine H → Type 0
  Allocated sz m p m' = Failed m p m' ⊎ Fresh sz m p m'

  -- What memalign gives.
  abbrev pub AllocatedAt : ℕ → ℕ → Machine H → Ptr → Machine H → Type 0
  AllocatedAt al sz m p m' = Failed m p m' ⊎ Fresh sz m p m' × (p % al ≡ 0)

  -- The block at `p` is gone, and the others are as they were.
  pub record Freed (p : Ptr) (m : Machine H) (u : Unit {0}) (m' : Machine H) : Type 0 where
    pub gone : live m'.heap p ≡ none
    pub others : (q : Ptr) → q ≢ p → live m'.heap q ≡ live m.heap q
    pub kept : KeepsBut p m m'
    pub valid : WellFormed m'

  -- The block at `p`, of `old` bytes, has become the block at `q`, of at least `sz` bytes, and the
  -- bytes that fit both are the same.
  pub record Moved (p : Ptr) (old sz : ℕ) (m : Machine H) (q : Ptr) (m' : Machine H) : Type 0 where
    pub size : ℕ
    pub nonnull : q ≢ null
    pub owned : live m'.heap q ≡ some size
    pub enough : sz ≤ size
    pub unused : q ≢ p → live m.heap q ≡ none
    pub gone : q ≢ p → live m'.heap p ≡ none
    pub others : (r : Ptr) → r ≢ p → r ≢ q → live m'.heap r ≡ live m.heap r
    pub copied_bytes : (i : ℕ) → i < old → i < sz → m'.mem (q + i) ≡ m.mem (p + i)
    pub kept : KeepsBut p m m'
    pub valid : WellFormed m'

  -- What realloc gives at a live block and a size that is not zero: the block as it was, where
  -- memory ran out, or the moved block.
  abbrev pub MovedOrKept : Ptr → ℕ → ℕ → Machine H → Ptr → Machine H → Type 0
  MovedOrKept p old sz m q m' = Failed m q m' ⊎ Moved p old sz m q m'

  -- The argument of free and realloc: `nullptr`, or the head of a live block.
  abbrev pub IsBlock : Ptr → Machine H → Type 0
  IsBlock p m = (p ≡ null) ⊎ ((n : ℕ) × (live m.heap p ≡ some n))

  -- What realloc gives, at each kind of argument.
  pub data Reallocated (p : Ptr) (sz : ℕ) (m : Machine H) (q : Ptr) (m' : Machine H) : Type 0 where
    allocated : p ≡ null → Allocated sz m q m' → Reallocated p sz m q m'
    released : p ≢ null → sz ≡ 0 → q ≡ null → Freed p m tt m' → Reallocated p sz m q m'
    resized :
        (old : ℕ)
        → live m.heap p ≡ some old
        → sz ≢ 0
        → MovedOrKept p old sz m q m'
        → Reallocated p sz m q m'

  -- What calloc gives: a failure, or a new block whose first `total` bytes are zero.
  abbrev pub Zeroed : ℕ → Machine H → Ptr → Machine H → Type 0
  Zeroed total m p m' =
      Failed m p m' ⊎ Fresh total m p m' × ((i : ℕ) → i < total → m'.mem (p + i) ≡ some 0)

  -- The same for a product, which fails and does nothing else where it needs more than a `size_t`.
  abbrev pub ZeroedProduct : ℕ → ℕ → Machine H → Ptr → Machine H → Type 0
  ZeroedProduct count size m p m' =
      (count * size < size_mod) × Zeroed (count * size) m p m'
      ⊎ (size_mod ≤ count * size) × (p ≡ null) × (m' ≡ m)

  -- What posix_memalign gives: the error number, what `*memptr` holds, and the machine. Unless `strict`,
  -- a null pointer for no bytes counts as success.
  pub data PosixAligned (strict : Bool) (al sz : ℕ) (m : Machine H) (out : ℕ × Ptr) (m' : Machine H)
      : Type 0 where
    invalid :
        ¬ (IsPow2 al × (8 ≤ al))
        → out ≡ (einval, null)
        → m' ≡ m
        → PosixAligned strict al sz m out m'
    exhausted :
        IsPow2 al × (8 ≤ al)
        → out ≡ (enomem, null)
        → Failed m null m'
        → PosixAligned strict al sz m out m'
    aligned :
        IsPow2 al × (8 ≤ al)
        → out.0 ≡ 0
        → Fresh sz m out.1 m'
        → out.1 % al ≡ 0
        → PosixAligned strict al sz m out m'
    nothing :
        strict ≡ false
        → sz ≡ 0
        → IsPow2 al × (8 ≤ al)
        → out ≡ (0, null)
        → Failed m null m'
        → PosixAligned strict al sz m out m'

  -- A realloc of the allocator's own is asked only for sizes below `limit`.
  pub record IsAllocatorUpTo (limit : ℕ) (A : Allocator H) : Type 0 where
    pub malloc-Allocated :
        (sz : ℕ) (m : Machine H)
        → sz < size_mod
        → WellFormed m
        → Yields (Allocated sz m) (A.malloc sz m)
    pub memalign-AllocatedAt :
        (al sz : ℕ) (m : Machine H)
        → IsPow2 al
        → al < size_mod
        → sz < size_mod
        → WellFormed m
        → Yields (AllocatedAt al sz m) (A.memalign al sz m)
    pub free-Freed :
        (p : Ptr) (n : ℕ) (m : Machine H)
        → WellFormed m
        → live m.heap p ≡ some n
        → Yields (Freed p m) (A.free p m)
    pub get_size-live :
        (p : Ptr) (n : ℕ) (m : Machine H)
        → WellFormed m
        → live m.heap p ≡ some n
        → A.get_size p m ≡ ok n m
    pub native_realloc-Reallocated :
        (f : Ptr → ℕ → M H Ptr) (p : Ptr) (sz : ℕ) (m : Machine H)
        → A.native_realloc ≡ some f
        → sz < limit
        → WellFormed m
        → IsBlock p m
        → Yields (Reallocated p sz m) (f p sz m)

  abbrev pub IsAllocator : Allocator H → Type 0
  IsAllocator = IsAllocatorUpTo size_mod
