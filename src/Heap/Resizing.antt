-- ===== src/Heap/Resizing.antt =====
-- The realloc of the macOS, Windows and common wrappers: a block that would shrink by less than half
-- stays, and the size 0 frees the block and then may allocate a small one.
use alloc.Base.{
  ℕ, ◌/◌, ◌≤◌, ◌<◌, ◌≡◌, ◌≢◌, inl, inr, Bool, true, false, ◌&&◌, Option, some, arith, ltb, leb,
  ◌==◌, if◌then◌else◌, size_mod, eq→==, ne→==, ==→eq, ==→ne, Bool-cases,
}
use alloc.Machine.{Ptr, null, Machine, M, pure, ◌>>=◌, ◌>>◌}
use alloc.Machine.Yields.{Yields, yields, sequence, weaken}
use alloc.Heap.Contract.{WellFormed, Allocated, Freed, MovedOrKept, IsBlock}
use alloc.Heap.Moving.{move, in_place-Moved, move-MovedOrKept}
use alloc.Xx.{Xx, IsXxUpTo}

-- `small` is what comes after the free, and `failed` what is returned in place of a null pointer.
abbrev pub resize : {H : Type 0} → Xx H → (Ptr → Ptr) → M H Ptr → Ptr → ℕ → M H Ptr
resize X failed small ptr sz =
    if ptr == null then X.xxmalloc sz else if sz == 0 then (do X.xxfree ptr; small) else do
      old ← X.xxmalloc_usable_size ptr
      if ltb (old / 2) sz && leb sz old
          then pure ptr
          else move X.xxmalloc X.xxfree failed ptr old sz

module _ {H : Type 0} (live : H → Ptr → Option ℕ) where
  -- What the size 0 leads to, from the state after the free: a block of a byte or a failure, or null.
  unfoldable pub AfterFree : (one : Bool) → Machine H → Ptr → Machine H → Type 0
  AfterFree true m q m' = Allocated live 1 m q m'
  AfterFree false m q m' = (q ≡ null) × (m' ≡ m)

  -- What such a realloc gives, at each kind of argument.
  pub data Resized (one : Bool) (p : Ptr) (sz : ℕ) (m : Machine H) (q : Ptr) (m' : Machine H)
      : Type 0 where
    allocated : p ≡ null → Allocated live sz m q m' → Resized one p sz m q m'
    replaced :
        (m1 : Machine H)
        → p ≢ null
        → sz ≡ 0
        → Freed live p m tt m1
        → AfterFree one m1 q m'
        → Resized one p sz m q m'
    resized :
        (old : ℕ)
        → live m.heap p ≡ some old
        → sz ≢ 0
        → MovedOrKept live p old sz m q m'
        → Resized one p sz m q m'

  pub fits_of : (a b : Bool) → (a && b) ≡ true → b ≡ true
  fits_of true b e = e
  fits_of false b e = ground arith

  pub le_of_leb : (a b : ℕ) → leb a b ≡ true → a ≤ b
  le_of_leb a b e = ground arith

  module _ {limit : ℕ} (X : Xx H) (is : IsXxUpTo live limit X) (failed : Ptr → Ptr)
      (failed-null : (q : Ptr) → q ≡ null → failed q ≡ null) (one : Bool) (small : M H Ptr)
      (small-AfterFree : (m : Machine H)
        → WellFormed live m
        → Yields (AfterFree one m) (small m)) where
    pub resize-Resized :
        (p : Ptr) (sz : ℕ) (m : Machine H)
        → sz < size_mod
        → WellFormed live m
        → IsBlock live p m
        → Yields (Resized one p sz m) (resize X failed small p sz m)
    resize-Resized p sz m fit w (inl e) =
        rw (eq→== p null e) (weaken (is.xxmalloc-Allocated sz m fit w) λ q m' got. allocated e got)
    resize-Resized p sz m fit w (inr (old, own)) =
        let ne : p ≢ null = λ e. ground (arith, w.null_free) in
        rw (ne→== p null ne) (elim (Bool-cases (sz == 0)) [
          | inl z ↦ rw z (
              sequence (is.xxfree-Freed p old m w own) λ _ m1 fr.
                weaken (small-AfterFree m1 fr.valid)
                  λ q m' got. replaced m1 ne (==→eq sz 0 z) fr got)
          | inr nz ↦
              rw (nz, is.usable_size-live p old m w own)
                (elim (Bool-cases (ltb (old / 2) sz && leb sz old)) [
                  | inl stays ↦ rw stays (
                      yields (
                        resized old own (==→ne sz 0 nz) (
                          inr (
                            in_place-Moved live p old sz m w own
                              (le_of_leb sz old (fits_of (ltb (old / 2) sz) (leb sz old) stays))))))
                  | inr moves ↦ rw moves (
                      weaken
                        (move-MovedOrKept live X.xxmalloc X.xxfree failed failed-null
                          is.xxmalloc-Allocated is.xxfree-Freed p old sz m w own fit)
                        λ q m' got. resized old own (==→ne sz 0 nz) got)
                ])
        ])
