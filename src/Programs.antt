-- ===== src/Programs.antt =====
-- Programs that allocate: what stands above every platform wrapper. A program has pointer variables, which
-- are null or have a block, and remembers the size that it asked for.
pub mod Arrays
pub mod Owners
pub mod Replacing
pub mod Accesses
pub mod Allocations
pub mod Reallocations
pub mod Runs
pub mod Platforms
pub mod Everywhere
pub mod Clearing
use alloc.Base.{
  ℕ, ◌+◌, ◌*◌, ◌≡◌, ◌<◌, Bool, ◌&&◌, not, Option, some, List, [], ◌∷◌, ◌++◌, ◌==◌, if◌then◌else◌,
  ltb, size_mod,
}
use alloc.Machine.{Ptr, null, Machine, M, ok, pure, ◌>>=◌, ◌>>◌, load, store}
use alloc.Machine.Yields.{Yields}
use alloc.Heap.Contract.{WellFormed, IsBlock, Allocated, Freed, ZeroedProduct}
use alloc.Heap.Resizing.{Resized}

-- The functions of the C library that a program calls.
pub record Libc (H : Type 0) : Type 0 where
  pub malloc : ℕ → M H Ptr
  pub free : Ptr → M H (Unit {0})
  pub calloc : ℕ → ℕ → M H Ptr
  pub realloc : Ptr → ℕ → M H Ptr

-- What each wrapper promises of them. `one` says whether realloc to the size 0 gives a small block, and
-- `limit` is above the sizes that realloc is asked for.
pub record IsLibc {H : Type 0} (live : H → Ptr → Option ℕ) (limit : ℕ) (one : Bool) (C : Libc H)
    : Type 0 where
  pub malloc-Allocated :
      (sz : ℕ) (m : Machine H)
      → sz < size_mod
      → WellFormed live m
      → Yields (Allocated live sz m) (C.malloc sz m)
  pub free-Freed :
      (p : Ptr) (n : ℕ) (m : Machine H)
      → WellFormed live m
      → live m.heap p ≡ some n
      → Yields (Freed live p m) (C.free p m)
  pub free-null : (m : Machine H) → C.free null m ≡ ok tt m
  pub calloc-ZeroedProduct :
      (count size : ℕ) (m : Machine H)
      → WellFormed live m
      → Yields (ZeroedProduct live count size m) (C.calloc count size m)
  pub realloc-Resized :
      (p : Ptr) (sz : ℕ) (m : Machine H)
      → sz < limit
      → WellFormed live m
      → IsBlock live p m
      → Yields (Resized live one p sz m) (C.realloc p sz m)

-- The statements of a program, on the variable `i`.
pub data Command : Type 0 where
  mallocs : (i n : ℕ) → Command
  callocs : (i n size : ℕ) → Command
  reallocs : (i n : ℕ) → Command
  frees : (i : ℕ) → Command
  writes : (i j v : ℕ) → Command
  reads : (i j : ℕ) → Command

pub record Variables : Type 0 where
  pub pointer : ℕ → Ptr
  pub size : ℕ → ℕ

-- The variable `i` gets `q`, asked for `n` bytes.
pub put : ℕ → Ptr → ℕ → Variables → Variables
put i q n c = record {
  pointer = λ k. if k == i then q else c.pointer k;
  size = λ k. if k == i then (if q == null then 0 else n) else c.size k;
}

module _ {H : Type 0} (C : Libc H) where
  -- What a statement does, and what it prints. An allocation frees the block that its variable has; after
  -- a realloc that failed the variable keeps its block; a read or write is within the size asked for.
  pub exec : Command → Variables → M H (Variables × List ℕ)
  unfolding put
  exec (mallocs i n) c = do C.free (c.pointer i); q ← C.malloc n; pure (put i q n c, [])
  exec (callocs i n size) c = do
    C.free (c.pointer i)
    q ← C.calloc n size
    pure (put i q (n * size) c, [])
  exec (reallocs i n) c = do
    q ← C.realloc (c.pointer i) n
    pure (if (q == null) && not (n == 0) then c else put i q n c, [])
  exec (frees i) c = do C.free (c.pointer i); pure (put i null 0 c, [])
  exec (writes i j v) c =
      if ltb j (c.size i) then (do store (c.pointer i + j) v; pure (c, [])) else pure (c, [])
  exec (reads i j) c =
      if ltb j (c.size i) then (do v ← load (c.pointer i + j); pure (c, v ∷ [])) else pure (c, [])

  unfoldable pub run : List Command → Variables → M H (Variables × List ℕ)
  unfolding exec
  run [] c = pure (c, [])
  run (x ∷ xs) c = do r ← exec x c; rest ← run xs r.0; pure (rest.0, r.1 ++ rest.1)
