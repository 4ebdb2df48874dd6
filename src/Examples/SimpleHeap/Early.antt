-- ===== src/Examples/SimpleHeap/Early.antt =====
-- The blocks that SimpleHeap gives out of its early buffer.
use alloc.Base.{
  ℕ, ◌+◌, ◌-◌, ◌*◌, ◌%◌, ◌≤◌, ◌<◌, ◌≡◌, refl, List, [], ◌∷◌, ◌==◌, if◌then◌else◌, Bool-cases, inl,
  inr, ltb, round_up, round_up_bounds, size_mod, arith, ◌⊎◌, ne→==,
}
use native.Mathlib.Nat.{mod-eq_of_lt}
use alloc.Machine.{Ptr, null}
use alloc.Examples.SimpleHeap.{State, init_buffer_size, init_buffer_alloc}

-- A block, and how many bytes were asked for.
pub record Block : Type 0 where
  pub start : Ptr
  pub size : ℕ

-- What the early buffer gives for requests of these sizes, one after the other.
pub early_blocks : (buffer : Ptr) → List ℕ → State → List Block
unfolding init_buffer_alloc
early_blocks buffer [] s = []
early_blocks buffer (sz ∷ szs) s =
    let r = init_buffer_alloc buffer sz s in
    let rest = early_blocks buffer szs r.1 in
    if r.0 == null then rest else record { start = r.0; size = sz } ∷ rest

-- The blocks stand one behind the other from `lo` up to `hi`, at multiples of 16 from the start of the buffer.
pub InOrder : (buffer lo hi : Ptr) → List Block → Type 0
InOrder buffer lo hi [] = Unit
InOrder buffer lo hi (b ∷ bs) =
    (lo ≤ b.start)
    × ((b.start - buffer) % 16 ≡ 0)
    × (b.start + b.size ≤ hi)
    × InOrder buffer (b.start + b.size) hi bs

-- Each size is at most `n`.
unfoldable pub AllUpTo : (n : ℕ) → List ℕ → Type 0
AllUpTo n [] = Unit
AllUpTo n (sz ∷ szs) = (sz ≤ n) × AllUpTo n szs

module _ (buffer : Ptr) (at_word : 0 < buffer) where
  alloc-cases :
      (sz : ℕ) (s : State)
      → s.init_buffer_pos ≤ init_buffer_size
      → sz ≤ size_mod - 2 * init_buffer_size
      → (init_buffer_alloc buffer sz s ≡ (null, s))
        ⊎ (round_up s.init_buffer_pos 16 + sz ≤ init_buffer_size)
          × (init_buffer_alloc buffer sz s ≡ (
            buffer + round_up s.init_buffer_pos 16,
            record s { init_buffer_pos = round_up s.init_buffer_pos 16 + sz },
          ))
  unfolding init_buffer_alloc
  alloc-cases sz s low small =
      let (lo, hi, whole) = round_up_bounds s.init_buffer_pos 4 (omega arith) (omega arith) in
      let fits : round_up s.init_buffer_pos 16 + sz < size_mod = omega arith in
      elim (Bool-cases (ltb init_buffer_size (round_up s.init_buffer_pos 16 + sz))) [
        | inl b ↦ rw (mod-eq_of_lt fits, b) (inl refl)
        | inr b ↦ rw (mod-eq_of_lt fits, b) (inr (ground arith, refl))
      ]

  -- Where the buffer is not at nullptr, its position is inside it, and no size is within twice the
  -- buffer of 2^64, the blocks that the early buffer of the simple heap gives stand one behind the
  -- other from its position to its end, at multiples of 16 from its start, whichever requests it
  -- refuses.
  pub early_blocks-InOrder :
      (szs : List ℕ) (s : State)
      → s.init_buffer_pos ≤ init_buffer_size
      → AllUpTo (size_mod - 2 * init_buffer_size) szs
      → InOrder buffer
          (buffer + s.init_buffer_pos)
          (buffer + init_buffer_size)
          (early_blocks buffer szs s)
  unfolding early_blocks InOrder AllUpTo
  early_blocks-InOrder [] s low small = tt
  early_blocks-InOrder (sz ∷ szs) s low (small, smaller) = elim (alloc-cases sz s low small) [
    | inl e ↦ rw e (early_blocks-InOrder szs s low smaller)
    | inr (fits, e) ↦
        let r = round_up s.init_buffer_pos 16 in
        let (lo, hi, whole) = round_up_bounds s.init_buffer_pos 4 (omega arith) (omega arith) in
        let behind : buffer + (r + sz) ≡ buffer + r + sz = omega arith in
        let rest = early_blocks-InOrder szs (record s { init_buffer_pos = r + sz }) fits smaller in
        rw (e, ne→== (buffer + r) 0 (omega arith))
          (omega arith, omega arith, omega arith, rw behind at rest)
  ]
