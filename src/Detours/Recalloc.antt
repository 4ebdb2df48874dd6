-- ===== src/Detours/Recalloc.antt =====
-- Detour_recalloc: which bytes of the block it sets to zero.
pub mod Resizing
use alloc.Base.{
  ℕ, ◌+◌, ◌-◌, ◌*◌, ◌<◌, ◌≡◌, refl, ◌≢◌, inl, inr, Bool, true, Option, some, arith, ltb,
  if◌then◌else◌, size_mod, eq→==, ne→==, Bool-cases,
}
use native.Mathlib.Nat.{mod-eq_of_lt}
use alloc.Machine.{Ptr, null, Machine, Run, ok, filled}
use alloc.Machine.Memory.{memset-ok}
use alloc.Machine.Yields.{Yields, yields, yielded}
use alloc.Heap.Contract.{WellFormed, Failed, Fresh, Allocated}
use alloc.Heap.Filling.{write-Fresh}
use alloc.Xx.{Xx, IsXx}
use alloc.Detours.{detour_recalloc, detour_realloc}
use alloc.Detours.Foreign.{safe_size-live}

module _ {H : Type 0} (live : H → Ptr → Option ℕ) (X : Xx H) (is : IsXx live X)
    (ours : H → Ptr → Bool)
    (ours-live : (h : H) (p : Ptr) (n : ℕ) → live h p ≡ some n → ours h p ≡ true) where
  Fresh-of_nonnull :
      (sz : ℕ) (m m1 : Machine H) (q : Ptr)
      → sz < size_mod
      → WellFormed live m
      → X.xxmalloc sz m ≡ ok q m1
      → q ≢ null
      → Fresh live sz m q m1
  Fresh-of_nonnull sz m m1 q small w e nn =
      let given = is.xxmalloc-Allocated sz m small w in
      elim (yielded (Allocated live sz m) q m1 (rw e at given)) [
        | inl f ↦ absurd (nn f.is_null)
        | inr new ↦ new
      ]

  -- The state after the bytes behind those asked for are set to zero.
  tail_zeroed : (sz : ℕ) (m1 : Machine H) (q : Ptr) → ℕ → Machine H
  tail_zeroed sz m1 q n =
      if ltb sz n then record m1 { mem = filled m1.mem (q + sz) 0 (n - sz) } else m1

  tail-Fresh :
      (sz : ℕ) (m m1 : Machine H) (q : Ptr) (new : Fresh live sz m q m1)
      → Fresh live sz m q (tail_zeroed sz m1 q new.size)
  unfolding tail_zeroed
  tail-Fresh sz m m1 q new = elim (Bool-cases (ltb sz new.size)) [
    | inl more ↦ rw more (
        write-Fresh live sz m m1 q _ new
          (record { outside = λ a out. ground arith; mapped_still = λ a h. ground arith }))
    | inr none_left ↦ rw none_left new
  ]

  tail-kept :
      (sz : ℕ) (m1 : Machine H) (q : Ptr) (n i : ℕ)
      → i < sz
      → (tail_zeroed sz m1 q n).mem (q + i) ≡ m1.mem (q + i)
  unfolding tail_zeroed
  tail-kept sz m1 q n i lt = elim (Bool-cases (ltb sz n)) [
    | inl more ↦ rw more (ground arith)
    | inr none_left ↦ rw none_left refl
  ]

  recalloc-tail :
      (init_complete : Bool) (num size : ℕ) (m m1 : Machine H) (q : Ptr)
      (new : Fresh live (num * size) m q m1)
      → num * size < size_mod
      → X.xxmalloc (num * size) m ≡ ok q m1
      → detour_recalloc X ours init_complete null num size m
        ≡ ok q (tail_zeroed (num * size) m1 q new.size)
  unfolding detour_recalloc detour_realloc tail_zeroed
  recalloc-tail init_complete num size m m1 q new small e =
      let known = safe_size-live live X is ours ours-live q new.size m1 new.valid new.owned in
      elim (Bool-cases (ltb (num * size) new.size)) [
        | inl more ↦
            rw
              (
                mod-eq_of_lt small,
                e,
                ne→== q null new.nonnull,
                known,
                more,
                memset-ok m1 (q + num * size) 0 (new.size - num * size) λ a lo hi.
                    new.valid.blocks_mapped q new.size a new.owned (omega arith)
                      (omega (arith, new.enough)),
              )
              refl
        | inr none_left ↦
            rw (mod-eq_of_lt small, e, ne→== q null new.nonnull, known, none_left) refl
      ]

  recalloc-null :
      (init_complete : Bool) (num size : ℕ) (m m1 : Machine H) (q : Ptr)
      → num * size < size_mod
      → q ≡ null
      → X.xxmalloc (num * size) m ≡ ok q m1
      → detour_recalloc X ours init_complete null num size m ≡ ok q m1
  unfolding detour_recalloc detour_realloc
  recalloc-null init_complete num size m m1 q small z e =
      rw (mod-eq_of_lt small, e, eq→== q null z) refl

  -- At nullptr, where xxmalloc gives a block for the product of num and size, which fits a size_t,
  -- _recalloc gives that block and leaves the bytes asked for as xxmalloc left them: what it sets
  -- to zero begins behind them.
  pub recalloc-unzeroed :
      (init_complete : Bool) (num size : ℕ) (m m1 : Machine H) (q : Ptr)
      → num * size < size_mod
      → WellFormed live m
      → X.xxmalloc (num * size) m ≡ ok q m1
      → q ≢ null
      → (m' : Machine H) × (detour_recalloc X ours init_complete null num size m ≡ ok q m')
        × ((i : ℕ) → i < num * size → m'.mem (q + i) ≡ m1.mem (q + i))
  recalloc-unzeroed init_complete num size m m1 q small w e nn =
      let new = Fresh-of_nonnull (num * size) m m1 q small w e nn in
      (
        tail_zeroed (num * size) m1 q new.size,
        recalloc-tail init_complete num size m m1 q new small e,
        λ i lt. tail-kept (num * size) m1 q new.size i lt,
      )
