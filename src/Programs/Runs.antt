-- ===== src/Programs/Runs.antt =====
-- Whole programs: what a run over a libc that keeps its contract does, seen as a run over arrays.
use alloc.Base.{ℕ, ◌<◌, ◌≡◌, refl, Option, none, List, [], ◌∷◌, Bool, size_mod}
use alloc.Machine.{Ptr, null, Machine}
use alloc.Machine.Yields.{Yields, yields, sequence}
use alloc.Heap.Contract.{WellFormed}
use alloc.Programs.{
  Variables, Libc, IsLibc, Command, mallocs, callocs, reallocs, frees, writes, reads, exec, run,
}
use alloc.Programs.Arrays.{Step, Runs, SameArray-refl}
use alloc.Programs.Owners.{Owned, arrays}
use alloc.Programs.Accesses.{writes-Step, reads-Step}
use alloc.Programs.Allocations.{mallocs-Step, callocs-Step, frees-Step}
use alloc.Programs.Reallocations.{reallocs-Step}

-- The sizes that a statement asks for are those of a `size_t`, and for realloc below `limit`; the product of
-- a calloc may be too large.
unfoldable pub Sized : (limit : ℕ) → Command → Type 0
Sized limit (mallocs i n) = n < size_mod
Sized limit (callocs i n size) = Unit {0}
Sized limit (reallocs i n) = n < limit
Sized limit (frees i) = Unit {0}
Sized limit (writes i j v) = Unit {0}
Sized limit (reads i j) = Unit {0}

unfoldable pub AllSized : (limit : ℕ) → List Command → Type 0
unfolding Sized
AllSized limit [] = Unit {0}
AllSized limit (x ∷ xs) = Sized limit x × AllSized limit xs

-- The variables of a program that has not begun.
abbrev pub no_variables : Variables
no_variables = record { pointer = λ _. null; size = λ _. 0 }

module _ {H : Type 0} (live : H → Ptr → Option ℕ) where
  pub Owned-no_variables :
      (m : Machine H)
      → WellFormed live m
      → ((p : Ptr) → live m.heap p ≡ none)
      → Owned live no_variables m
  Owned-no_variables m w nothing = record {
    valid = w;
    block = λ k ne. absurd (ne refl);
    empty = λ k _. refl;
    unshared = λ j k _ _. refl;
    no_leak = λ p b own. absurd (cc (own, nothing p));
  }

  module _ (limit : ℕ) (one : Bool) (C : Libc H) (is : IsLibc live limit one C) where
    exec-Step :
        (x : Command) (c : Variables) (m : Machine H)
        → Sized limit x
        → Owned live c m
        → Yields
            (λ r m'. Owned live r.0 m' × Step x (arrays c m) r.1 (arrays r.0 m'))
            (exec C x c m)
    unfolding Sized
    exec-Step (mallocs i n) c m small o = mallocs-Step live limit one C is c m o i n small
    exec-Step (callocs i n size) c m _ o = callocs-Step live limit one C is c m o i n size
    exec-Step (reallocs i n) c m small o = reallocs-Step live limit one C is c m o i n small
    exec-Step (frees i) c m _ o = frees-Step live limit one C is c m o i
    exec-Step (writes i j v) c m _ o = writes-Step live C c m o i j v
    exec-Step (reads i j) c m _ o = reads-Step live C c m o i j

    -- Any program returns; its variables own their blocks, and no block is left without a variable;
    -- and what it prints and leaves is what it may over separate arrays.
    pub run-Runs :
        (xs : List Command) (c : Variables) (m : Machine H)
        → AllSized limit xs
        → Owned live c m
        → Yields
            (λ r m'. Owned live r.0 m' × Runs xs (arrays c m) r.1 (arrays r.0 m'))
            (run C xs c m)
    unfolding run Runs AllSized
    run-Runs [] c m _ o = yields (o, (refl, λ k. SameArray-refl))
    run-Runs (x ∷ xs) c m (small, rest) o = sequence (exec-Step x c m small o) λ r m1 (o1, s).
        sequence (run-Runs xs r.0 m1 rest o1)
          λ r' m' (o', ss). yields (o', (arrays r.0 m1, r.1, r'.1, refl, s, ss))
