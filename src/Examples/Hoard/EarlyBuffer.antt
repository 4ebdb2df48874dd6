-- ===== src/Examples/Hoard/EarlyBuffer.antt =====
-- How Hoard's interface behaves in a process whose initializedTSD is not set: it is set by
-- getCustomHeap alone, which xxmalloc calls only where it is set, and xxthread_init for each new thread.
use alloc.Base.{
  sub_size, ℕ, ◌+◌, ◌-◌, ◌*◌, ◌≤◌, ◌<◌, ◌≡◌, refl, ap, List, [], ◌∷◌, Bool, true, false, ◌&&◌,
  arith, ltb, leb, size_mod, round_up, round_up_bounds, Bool-cases, inl, inr, ne→==, ◌≢◌,
}
use native.Mathlib.Nat.{mod-eq_of_lt}
use alloc.Machine.{Ptr, null, Machine, M, ok, abort, crash, and_then, memcpy, mapped}
use alloc.Examples.Hoard.{
  State, Kernel, max_local_buffer_size, hoard_xxmalloc, hoard_xxfree, hoard_xxmalloc_usable_size,
  hoard_xxrealloc, init_buffer_malloc, in_init_buffer,
}

-- What a program with one thread asks for: blocks, and frees.
pub data Call : Type 0 where
  allocates : ℕ → Call
  frees : Ptr → Call

unfoldable pub total : List Call → ℕ
total [] = 0
total (allocates n ∷ cs) = n + total cs
total (frees p ∷ cs) = total cs

-- Each size is at most that of the buffer.
unfoldable pub all_small : List Call → Bool
all_small [] = true
all_small (allocates n ∷ cs) = leb n max_local_buffer_size && all_small cs
all_small (frees p ∷ cs) = all_small cs

and_true : (a b : Bool) → (a && b) ≡ true → (a ≡ true) × (b ≡ true)
and_true true b e = (refl, e)
and_true false b e = absurd (ground arith)

and_false : (a b : Bool) → (a && (b && false)) ≡ false
and_false true true = refl
and_false true false = refl
and_false false b = refl

le→not_ltb : (a b : ℕ) → b ≤ a → ltb a b ≡ false
le→not_ltb a b le = ground arith

lt→not_leb : (a b : ℕ) → a < b → leb b a ≡ false
lt→not_leb a b lt = ground arith

module _ {L : Type 0} (K : Kernel L) (buffer : Ptr) where
  pub run : List Call → M (State L) (Unit {0})
  run [] m = ok tt m
  run (allocates n ∷ cs) m = and_then (hoard_xxmalloc K buffer n m) (λ p. run cs)
  run (frees p ∷ cs) m = and_then (hoard_xxfree K buffer p m) (λ u. run cs)

  module _ (room : buffer + 2 * max_local_buffer_size + 16 ≤ size_mod) where
    free-eq :
        (p : Ptr) (m : Machine (State L))
        → m.heap.initialized_tsd ≡ false
        → hoard_xxfree K buffer p m ≡ ok tt m
    unfolding hoard_xxfree
    free-eq p m early = elim (Bool-cases (in_init_buffer K buffer p)) [
      | inl b ↦ rw b refl
      | inr b ↦ rw (b, early) refl
    ]

    abbrev moved_on : ℕ → Machine (State L) → Machine (State L)
    moved_on sz m = record m {
      heap = record m.heap { buffer_pos = round_up m.heap.buffer_pos 16 + sz };
    }

    end_offset : (r sz : ℕ) → r + sz < size_mod → sub_size (buffer + r + sz) buffer ≡ r + sz
    end_offset r sz lt = omega arith

    malloc-eq :
        (sz : ℕ) (m : Machine (State L))
        → m.heap.initialized_tsd ≡ false
        → round_up m.heap.buffer_pos 16 + sz ≤ max_local_buffer_size
        → hoard_xxmalloc K buffer sz m ≡ ok (buffer + round_up m.heap.buffer_pos 16) (moved_on sz m)
    unfolding hoard_xxmalloc init_buffer_malloc
    malloc-eq sz m early fits =
        let in_word : buffer + round_up m.heap.buffer_pos 16 + sz < size_mod = omega arith in
        let at_word : buffer + round_up m.heap.buffer_pos 16 < size_mod = omega arith in
        rw
          (
            early,
            mod-eq_of_lt at_word,
            mod-eq_of_lt in_word,
            le→not_ltb (buffer + max_local_buffer_size)
                (buffer + round_up m.heap.buffer_pos 16 + sz) (omega arith),
          )
          (ap
            (λ (k : ℕ).
              ok (buffer + round_up m.heap.buffer_pos 16)
                (record m { heap = record m.heap { initialized_tsd = false; buffer_pos = k } }))
            (end_offset (round_up m.heap.buffer_pos 16) sz (omega arith)))

    -- Where initializedTSD is not set, a program with one thread aborts once it has asked for more than the
    -- buffer holds in all, each size being at most that of the buffer, whatever it has freed by then.
    pub run-abort :
        (cs : List Call) (m : Machine (State L))
        → m.heap.initialized_tsd ≡ false
        → m.heap.buffer_pos ≤ max_local_buffer_size
        → all_small cs ≡ true
        → max_local_buffer_size < m.heap.buffer_pos + total cs
        → run cs m ≡ abort
    unfolding run total all_small hoard_xxmalloc init_buffer_malloc
    run-abort [] m early low small over = absurd (omega arith)
    run-abort (frees p ∷ cs) m early low small over =
        rw (free-eq p m early) (run-abort cs m early low small over)
    run-abort (allocates n ∷ cs) m early low small over =
        let (fits, smaller) = and_true (leb n max_local_buffer_size) (all_small cs) small in
        let (lo, hi, whole) = round_up_bounds m.heap.buffer_pos 4 (omega arith) (omega arith) in
        let n_small : n ≤ max_local_buffer_size = ground arith in
        let at_word : buffer + round_up m.heap.buffer_pos 16 < size_mod = omega arith in
        let in_word : buffer + round_up m.heap.buffer_pos 16 + n < size_mod = omega arith in
        elim (Bool-cases
          (ltb (buffer + max_local_buffer_size) (buffer + round_up m.heap.buffer_pos 16 + n))) [
            | inl b ↦ rw (early, mod-eq_of_lt at_word, mod-eq_of_lt in_word, b) refl
            | inr b ↦
                rw (malloc-eq n m early (ground arith))
                  (run-abort cs (moved_on n m) early (ground arith) smaller (ground arith))
          ]

    in_buffer : (b : ℕ) → b < max_local_buffer_size → in_init_buffer K buffer (buffer + b) ≡ true
    unfolding in_init_buffer
    in_buffer b small = ground arith

    usable-eq :
        (a : ℕ) (m : Machine (State L))
        → a < max_local_buffer_size
        → hoard_xxmalloc_usable_size K buffer (buffer + a) m ≡ ok (max_local_buffer_size - a) m
    unfolding hoard_xxmalloc_usable_size
    usable-eq a m lt = rw (in_buffer a lt) (ap (λ (n : ℕ). ok n m) (omega arith))

    memcpy-crash :
        (dst src n : ℕ) (m : Machine (State L))
        → src < dst + n
        → dst < src + n
        → memcpy dst src n m ≡ crash
    unfolding memcpy
    memcpy-crash dst src n m lo hi =
        rw
          (
            lt→not_leb src (dst + n) lo,
            lt→not_leb dst (src + n) hi,
            and_false (mapped m.mem src n) (mapped m.mem dst n),
          )
          refl

    -- Before initializedTSD is set, for a block that begins in the part of the early buffer that
    -- is in use, Hoard's realloc to a size that reaches from there past the position of the
    -- buffer, rounded up to 16, copies between ranges that overlap, which memcpy does not allow,
    -- where the rounded position and the size together still fit the buffer.
    pub xxrealloc-crash :
        (a sz : ℕ) (m : Machine (State L))
        → m.heap.initialized_tsd ≡ false
        → buffer ≢ null
        → m.heap.buffer_pos ≤ max_local_buffer_size
        → a < m.heap.buffer_pos
        → round_up m.heap.buffer_pos 16 < a + sz
        → round_up m.heap.buffer_pos 16 + sz ≤ max_local_buffer_size
        → hoard_xxrealloc K buffer (buffer + a) sz m ≡ crash
    unfolding hoard_xxrealloc
    xxrealloc-crash a sz m early ne low lt past fits =
        let (lo, hi, whole) = round_up_bounds m.heap.buffer_pos 4 (omega arith) (omega arith) in
        rw
          (
            ne→== (buffer + a) 0 (omega arith),
            ne→== sz 0 (omega arith),
            usable-eq a m (omega arith),
            malloc-eq sz m early fits,
            ne→== (buffer + round_up m.heap.buffer_pos 16) 0 (omega arith),
            le→not_ltb (max_local_buffer_size - a) sz (omega arith),
            memcpy-crash (buffer + round_up m.heap.buffer_pos 16) (buffer + a) sz (moved_on sz m)
                (omega arith) (omega arith),
          )
          refl
