-- ===== src/Programs/Clearing.antt =====
-- Programs that free all their variables at the end.
use alloc.Base.{
  ℕ, zero, suc, ◌≤◌, ◌<◌, ◌≡◌, refl, ◌∙◌, sym, ap, Bool, true, false, not, Option, none, some, List,
  [], ◌∷◌, ◌++◌, arith, inl, inr, Bool-cases, ==→eq, ==→ne, ◌==◌, size_mod, ◌≢◌,
}
use alloc.Machine.{Ptr, null, Machine}
use alloc.Machine.Yields.{Yields, weaken}
use alloc.Heap.{Allocator}
use alloc.Heap.Contract.{WellFormed, IsAllocatorUpTo}
use alloc.Programs.{Variables, Command, mallocs, callocs, reallocs, frees, writes, reads, run}
use alloc.Programs.Arrays.{Arrays, Others, Step, Runs}
use alloc.Programs.Owners.{Owned, arrays}
use alloc.Programs.Runs.{Sized, AllSized, no_variables}
use alloc.Programs.Platforms.{Platform, libc_on, Suits}
use alloc.Programs.Everywhere.{program-Ended}

unfoldable pub variable : Command → ℕ
variable (mallocs i n) = i
variable (callocs i n size) = i
variable (reallocs i n) = i
variable (frees i) = i
variable (writes i j v) = i
variable (reads i j) = i

-- The program has the variables below `n`.
unfoldable pub Uses : ℕ → List Command → Type 0
unfolding variable
Uses n [] = Unit {0}
Uses n (x ∷ xs) = (variable x < n) × Uses n xs

unfoldable pub free_all : ℕ → List Command
free_all zero = []
free_all (suc n) = frees n ∷ free_all n

-- The variables from `n` on are null.
AbsentFrom : ℕ → Arrays → Type 0
AbsentFrom n a = (k : ℕ) → n ≤ k → (a k).present ≡ false

true_of_not : (b : Bool) → not b ≡ false → b ≡ true
true_of_not true e = refl
true_of_not false e = sym e

Step-Others : (x : Command) (a a' : Arrays) (o : List ℕ) → Step x a o a' → Others (variable x) a a'
unfolding Step variable
Step-Others (mallocs i n) a a' o s = s.1
Step-Others (callocs i n size) a a' o s = s.1
Step-Others (reallocs i n) a a' o s = s.1
Step-Others (frees i) a a' o s = s.1
Step-Others (writes i j v) a a' o s = s.1
Step-Others (reads i j) a a' o s = s.0

free_all-AbsentFrom :
    (n : ℕ) (a a' : Arrays) (o : List ℕ)
    → Runs (free_all n) a o a'
    → AbsentFrom n a
    → AbsentFrom 0 a'
unfolding free_all Runs Step AbsentFrom
free_all-AbsentFrom zero a a' o (e, same) absent = λ k le. (same k).present ∙ absent k (omega arith)
free_all-AbsentFrom (suc n) a a' o (a1, o1, o2, e, s, r) absent =
    free_all-AbsentFrom n a1 a' o2 r λ k le. elim (Bool-cases (k == n)) [
      | inl b ↦ ap (λ (t : ℕ). (a1 t).present) (==→eq k n b) ∙ s.2.0
      | inr b ↦ (s.1 k (==→ne k n b)).present ∙ absent k (omega (arith, ==→ne k n b))
    ]

program-AbsentFrom :
    (n : ℕ) (xs : List Command) (a a' : Arrays) (o : List ℕ)
    → Uses n xs
    → Runs (xs ++ free_all n) a o a'
    → AbsentFrom n a
    → AbsentFrom 0 a'
unfolding Uses Runs AbsentFrom
program-AbsentFrom n [] a a' o _ r absent = free_all-AbsentFrom n a a' o r absent
program-AbsentFrom n (x ∷ xs) a a' o (lt, uses) (a1, o1, o2, e, s, r) absent =
    program-AbsentFrom n xs a1 a' o2 uses r
      λ k le. (Step-Others x a a1 o1 s k (apart k le)).present ∙ absent k le
  where
    apart : (k : ℕ) → n ≤ k → k ≢ variable x
    apart k le e = omega arith

free_all-AllSized : (limit n : ℕ) → AllSized limit (free_all n)
unfolding AllSized Sized free_all
free_all-AllSized limit zero = tt
free_all-AllSized limit (suc n) = (tt, free_all-AllSized limit n)

AllSized-append :
    (limit : ℕ) (xs ys : List Command)
    → AllSized limit xs
    → AllSized limit ys
    → AllSized limit (xs ++ ys)
unfolding AllSized
AllSized-append limit [] ys _ s = s
AllSized-append limit (x ∷ xs) ys (small, rest) s = (small, AllSized-append limit xs ys rest s)

module _ {H : Type 0} (live : H → Ptr → Option ℕ) where
  -- No block is live.
  abbrev pub Cleared : Machine H → Type 0
  Cleared m = (p : Ptr) → live m.heap p ≡ none

  Cleared-Owned :
      (c : Variables) (m : Machine H) → Owned live c m → AbsentFrom 0 (arrays c m) → Cleared m
  unfolding AbsentFrom
  Cleared-Owned c m o absent p = go (live m.heap p) refl
    where
      go : (b : Option ℕ) → live m.heap p ≡ b → live m.heap p ≡ none
      go none e = e
      go (some b) e =
          let (k, at) = o.no_leak p b e in
          let z : c.pointer k ≡ null =
            ==→eq (c.pointer k) null (true_of_not _ (absent k (omega arith))) in
          ap (live m.heap) (sym at ∙ z) ∙ o.valid.null_free

  -- Over an allocator, with a wrapper and from a start as for every program, one that has the
  -- variables below n, followed by a free of each of these, ends with no block live, whatever it
  -- did with them: no wrapper leaks.
  pub program-Cleared :
      (on : Platform H) (A : Allocator H) (limit n : ℕ) (xs : List Command) (m : Machine H)
      → limit ≤ size_mod
      → IsAllocatorUpTo live limit A
      → Suits live A on
      → AllSized limit xs
      → Uses n xs
      → WellFormed live m
      → Cleared m
      → Yields (λ _ m'. Cleared m') (run (libc_on on A) (xs ++ free_all n) no_variables m)
  unfolding AbsentFrom
  program-Cleared on A limit n xs m fits is suits sized uses w nothing =
      weaken
        (program-Ended live on A limit (xs ++ free_all n) m fits is suits
          (AllSized-append limit xs (free_all n) sized (free_all-AllSized limit n)) w nothing)
        λ r m' (o, runs). Cleared-Owned r.0 m' o (
          program-AbsentFrom n xs (arrays no_variables m) (arrays r.0 m') r.1 uses runs
            λ k le. refl)
