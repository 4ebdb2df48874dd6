-- ===== src/Base/Alignment.antt =====
-- The tests on an alignment: `gnu_rejects` as src/platform/linux/gnu_wrapper.cpp writes it,
-- `common_rejects` as src/common/wrapper_common.cpp does.
use Prim.Native.Nat.{ℕ, zero, suc, ◌+◌, ◌-◌, ◌%◌, ◌^◌, ◌≤◌, ◌<◌, ◌∣◌}
use mathlib.Core.Path.{◌≡◌}
use mathlib.Core.Logic.{inl, inr}
use mathlib.Core.Bool.{Bool, true, false, not, ◌||◌}
use native.Mathlib.Nat.{
  pow-suc, pow-le-pow_right, one-le-pow, mod-eq-zero_of_dvd, dvd_of_mod-eq-zero, dvd_trans,
  dvd-mul_left,
}
use native.Mathlib.Decide.{dec_lt}
use native.Mathlib.Omega.{arith}
use alloc.Base.Tests.{ltb, ◌==◌, Bool-cases}
use alloc.Base.Words.{size_mod, is_pow2_or_zero, is_pow2_or_zero-pow2, IsPow2-of_is_pow2_or_zero}
use alloc.Base.Bits.{IsPow2, pow_add}

abbrev pub gnu_rejects : ℕ → Bool
gnu_rejects al = al == 0 || (not (al % 8 == 0) || not (is_pow2_or_zero al))

abbrev pub common_rejects : ℕ → Bool
common_rejects al = ltb al 8 || not (is_pow2_or_zero al)

pow2_mod_eight : (k : ℕ) → 8 ≤ 2 ^ k → 2 ^ k % 8 ≡ 0
pow2_mod_eight zero h = absurd (omega arith)
pow2_mod_eight (suc zero) h = absurd (omega arith)
pow2_mod_eight (suc (suc zero)) h = absurd (omega arith)
pow2_mod_eight (suc (suc (suc k))) h =
    omega (arith, pow-suc 2 (suc (suc k)), pow-suc 2 (suc k), pow-suc 2 k)

-- Both accept the powers of two from 8 up, and nothing else.
pub IsPow2-of_common_rejects :
    (al : ℕ) → al < size_mod → common_rejects al ≡ false → IsPow2 al × (8 ≤ al)
IsPow2-of_common_rejects al small e =
    let ok : is_pow2_or_zero al ≡ true = ground arith in
    let large : 8 ≤ al = ground arith in
    (IsPow2-of_is_pow2_or_zero al (λ z. omega arith) small ok, large)

pub common_rejects-pow2 : (k : ℕ) → 8 ≤ 2 ^ k → k ≤ 63 → common_rejects (2 ^ k) ≡ false
common_rejects-pow2 k h small = ground (arith, is_pow2_or_zero-pow2 k small)

-- The two tests of posix_memalign are the same test.
pub gnu_rejects-eq-common_rejects : (al : ℕ) → al < size_mod → gnu_rejects al ≡ common_rejects al
gnu_rejects-eq-common_rejects al small = elim (Bool-cases (common_rejects al)) [
  | inl bad ↦ ground arith
  | inr good ↦
      let ((k, e), large) = IsPow2-of_common_rejects al small good in
      ground (arith, pow2_mod_eight k)
]

-- A power of two divides every larger one.
pub mod_pow2_of_le : (x a b : ℕ) → IsPow2 a → IsPow2 b → a ≤ b → x % b ≡ 0 → x % a ≡ 0
mod_pow2_of_le x a b (j, ea) (k, eb) le h = elim (dec_lt k j) [
  | yes less ↦ absurd (
      omega (
        arith,
        pow-le-pow_right {n = 2} (omega arith) less,
        pow-suc 2 k,
        one-le-pow k 2 (omega arith),
      ))
  | no more ↦ mod-eq-zero_of_dvd a (dvd_trans a (divides more) (dvd_of_mod-eq-zero b h))
]
  where
    exponent : ¬ (k < j) → k - j + j ≡ k
    exponent more = omega arith

    divides : ¬ (k < j) → a ∣ b
    divides more =
        rw (ea, eb, ← exponent more, pow_add (k - j) j) (dvd-mul_left (2 ^ j) (2 ^ (k - j)))

pow2_exponent-le : (k : ℕ) → 2 ^ k < size_mod → k ≤ 63
pow2_exponent-le k h = elim (dec_lt 63 k) [
  | yes more ↦ absurd (omega (arith, pow-le-pow_right {n = 2} (omega arith) more))
  | no less ↦ omega arith
]

pub is_pow2_or_zero-IsPow2 : (a : ℕ) → IsPow2 a → a < size_mod → is_pow2_or_zero a ≡ true
is_pow2_or_zero-IsPow2 a (k, e) small =
    rw e (is_pow2_or_zero-pow2 k (pow2_exponent-le k (rw (← e) small)))

pub common_rejects_of_pow2 :
    (al : ℕ) → al < size_mod → IsPow2 al → 8 ≤ al → common_rejects al ≡ false
common_rejects_of_pow2 al small (k, e) large =
    rw e (common_rejects-pow2 k (rw (← e) large) (pow2_exponent-le k (rw (← e) small)))
