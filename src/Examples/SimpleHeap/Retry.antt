-- ===== src/Examples/SimpleHeap/Retry.antt =====
-- examples/simple_heap/simple_heap.cpp: the loop of SimpleHeap::malloc that raises g_peakUsage, while other
-- threads run the same loop. `others n` is what they attempt between this thread's attempts `n - 1` and
-- `n`, each as its own `peak` and `current`; `spurious n` says whether the weak exchange fails for nothing.
use alloc.Base.{
  ℕ, zero, suc, ◌+◌, ◌-◌, ◌≤◌, ◌<◌, ◌≡◌, refl, inl, inr, Bool, true, false, ◌&&◌, not, Option, none,
  some, List, [], ◌∷◌, arith, ltb, ◌==◌, if◌then◌else◌, Bool-cases, ==→eq, ==→ne, ltb→lt, ltb→le,
  eq→==, sub_size,
}
use alloc.Machine.{Ptr}
use alloc.Examples.SimpleHeap.{State, update_peak}

-- One attempt of the loop by some thread: the value of g_peakUsage after it.
attempt : (peak current value : ℕ) → ℕ
attempt peak current value =
    if ltb peak current then (if value == peak then current else value) else value

attempts : List (ℕ × ℕ) → ℕ → ℕ
unfolding attempt
attempts [] value = value
attempts (x ∷ xs) value = attempts xs (attempt x.0 x.1 value)

-- compare_exchange_weak(peak, current): whether it stored, the new `peak`, and the new value.
compare_exchange_weak : (fails : Bool) → (peak current value : ℕ) → Bool × ℕ × ℕ
compare_exchange_weak fails peak current value =
    if (value == peak) && not fails then (true, peak, current) else (false, value, value)

-- Attempt `n` and those after it, at most `fuel`; gives the value that g_peakUsage has at the end.
unfoldable pub peak_loop :
    (others : ℕ → List (ℕ × ℕ)) → (spurious : ℕ → Bool) → (fuel n current peak value : ℕ) → Option ℕ
unfolding attempts compare_exchange_weak
peak_loop others spurious zero n current peak value = none
peak_loop others spurious (suc fuel) n current peak value =
    let seen = attempts (others n) value in
    let r = compare_exchange_weak (spurious n) peak current seen in
    let retry = peak_loop others spurious fuel (n + 1) current r.1 r.2 in
    if ltb peak current then (if r.0 then some r.2 else retry) else some value

first_of : (a b : Bool) → (a && b) ≡ true → a ≡ true
first_of true b e = refl
first_of false b e = e

-- No attempt of another thread lowers the value.
attempts-le : (xs : List (ℕ × ℕ)) (value : ℕ) → value ≤ attempts xs value
unfolding attempts attempt
attempts-le [] value = omega arith
attempts-le (x ∷ xs) value =
    omega (arith, attempt-le x.0 x.1 value, attempts-le xs (attempt x.0 x.1 value))
  where
    attempt-le : (peak current value : ℕ) → value ≤ attempt peak current value
    attempt-le peak current value = ground arith

-- An attempt that fails brings the end nearer: the peak has risen, or the failure was for nothing.
nearer :
    (spurious : ℕ → Bool) (quiet fuel n current peak seen : ℕ)
    → ((k : ℕ) → quiet ≤ k → spurious k ≡ false)
    → peak ≤ seen
    → peak < current
    → ((seen == peak) && not (spurious n)) ≡ false
    → (current - peak) + (quiet - n) < suc fuel
    → (current - seen) + (quiet - (n + 1)) < fuel
nearer spurious quiet fuel n current peak seen calm low lt failed enough =
    elim (Bool-cases (seen == peak)) [
      | inl same ↦ elim (Bool-cases (ltb n quiet)) [
        | inl early ↦ omega (arith, ==→eq seen peak same, ltb→lt n quiet early)
        | inr late ↦ absurd (ground (arith, calm n (ltb→le n quiet late)))
      ]
      | inr other ↦ omega (arith, ==→ne seen peak other)
    ]

-- If the weak exchange never fails for nothing from attempt quiet on, and the peak that was read is
-- no more than the value, the loop ends within as many attempts as the peak is below current, as
-- quiet is ahead, and one more, whatever the other threads attempt; then the value is no less than
-- current, nor than it was.
pub peak_loop-ends :
    (others : ℕ → List (ℕ × ℕ)) (spurious : ℕ → Bool) (quiet fuel n current peak value : ℕ)
    → ((k : ℕ) → quiet ≤ k → spurious k ≡ false)
    → peak ≤ value
    → (current - peak) + (quiet - n) < fuel
    → (w : ℕ) × (peak_loop others spurious fuel n current peak value ≡ some w)
      × (current ≤ w)
      × (value ≤ w)
unfolding peak_loop compare_exchange_weak
peak_loop-ends others spurious quiet zero n current peak value calm low enough = elim enough [ ]
peak_loop-ends others spurious quiet (suc fuel) n current peak value calm low enough =
    let rises = attempts-le (others n) value in
    let seen = attempts (others n) value in
    elim (Bool-cases (ltb peak current)) [
      | inr e ↦ (value, rw (peak_loop, e) refl, omega (arith, ltb→le peak current e), omega arith)
      | inl e ↦ elim (Bool-cases ((seen == peak) && not (spurious n))) [
        | inl stores ↦ (
          current,
          rw (peak_loop, e, compare_exchange_weak, stores) refl,
          omega arith,
          omega (arith, ltb→lt peak current e, ==→eq seen peak (first_of (seen == peak) _ stores)),
        )
        | inr fails ↦
            let closer =
              nearer spurious quiet fuel n current peak seen calm (omega arith)
                (ltb→lt peak current e) fails enough in
            let (w, at, le, le') =
              peak_loop-ends others spurious quiet fuel (n + 1) current seen seen calm (omega arith)
                closer in
            (w, rw (peak_loop, e, compare_exchange_weak, fails) at, le, omega arith)
      ]
    ]

-- With no other thread and no failure for nothing, the loop is the step that the model of malloc takes.
update_peak_lem :
    (buffer : Ptr) (s : State) (n : ℕ)
    → let current = sub_size s.total_allocated s.total_freed in
      peak_loop (λ _. []) (λ _. false) (suc (suc n)) 0 current s.peak_usage s.peak_usage
      ≡ some (update_peak buffer s).peak_usage
unfolding peak_loop compare_exchange_weak attempts update_peak
update_peak_lem buffer s n =
    elim (Bool-cases (ltb s.peak_usage (sub_size s.total_allocated s.total_freed))) [
      | inl e ↦ rw (e, eq→== s.peak_usage s.peak_usage refl) refl
      | inr e ↦ rw e refl
    ]
