-- ===== src/Base/Words.antt =====
-- `size_t`: a number below 2 ^ 64, whose operations wrap, and the size tests that recur in the code.
use Prim.Native.Nat.{ℕ, zero, suc, ◌+◌, ◌-◌, ◌*◌, ◌/◌, ◌%◌, ◌^◌, ◌≤◌, ◌<◌, bit_and}
use mathlib.Core.Path.{◌≡◌, refl, sym, ap, ◌∙◌}
use mathlib.Core.Logic.{◌≢◌, ◌↔◌}
use mathlib.Core.Bool.{Bool, true, false, not, ◌&&◌}
use native.Mathlib.Nat.{
  zero-sub, zero-mul, div-eq_of_lt, mod-eq_of_lt, mod-lt, mul-div_cancel, div-mul-le_self,
  div-add-mod', mul-mod_left,
}
use native.Mathlib.Nat.{le-div_iff_mul-le, div-lt_iff_lt-mul, one-le-pow, pow-le-pow_right}
use native.Mathlib.Decide.{dec_lt, ℕ_discrete}
use native.Mathlib.Omega.{arith}
use alloc.Base.Tests.{◌==◌, ltb, eq→==, ==→eq}
use alloc.Base.Bits.{
  IsPow2, bit_and-shifted, bit_and-mask, bit_and-pow2, IsPow2-of_bit_and, pow_add,
}

abbrev pub size_mod : ℕ
size_mod = 2 ^ 64

-- `SIZE_MAX`
abbrev pub size_max : ℕ
size_max = 2 ^ 64 - 1

abbrev pub add_size : ℕ → ℕ → ℕ
add_size a b = (a + b) % size_mod

abbrev pub sub_size : ℕ → ℕ → ℕ
sub_size a b = (a + size_mod - b) % size_mod

abbrev pub mul_size : ℕ → ℕ → ℕ
mul_size a b = (a * b) % size_mod

-- `~a`
abbrev pub not_size : ℕ → ℕ
not_size a = size_max - a

-- `(sz + a - 1) & ~(a - 1)`
unfoldable pub round_up : ℕ → ℕ → ℕ
round_up sz a = bit_and (sub_size (add_size sz a) 1) (not_size (sub_size a 1))

-- `(a & (a - 1)) != 0`, negated
unfoldable pub is_pow2_or_zero : ℕ → Bool
is_pow2_or_zero a = bit_and a (sub_size a 1) == 0

-- `size != 0 && total / size != count`, for `total = count * size`: the test of every calloc
unfoldable pub product_overflows : ℕ → ℕ → Bool
product_overflows count size = not (size == 0) && not (mul_size count size / size == count)

-- `size != 0 && nmemb > SIZE_MAX / size`: the test of every reallocarray
unfoldable pub product_exceeds : ℕ → ℕ → Bool
product_exceeds nmemb size = not (size == 0) && ltb (size_max / size) nmemb

quotient_exact :
    (count size : ℕ) → size ≢ 0 → count * size < size_mod → mul_size count size / size ≡ count
quotient_exact count size pos h = rw (mod-eq_of_lt h) (mul-div_cancel count (omega arith))

lt_of_quotient : (count size : ℕ) → mul_size count size / size ≡ count → count * size < size_mod
lt_of_quotient count size e = ground (
  arith,
  div-mul-le_self (mul_size count size) size,
  mod-lt (count * size) {m = size_mod},
  ap (λ (t : ℕ). t * size) e,
)

product_zero : (c s : ℕ) → s ≡ 0 → c * s ≡ 0
product_zero c s e = rw e (omega arith)

pub product_overflows_iff :
    (count size : ℕ) → (product_overflows count size ≡ true) ↔ (size_mod ≤ count * size)
unfolding product_overflows
product_overflows_iff count size = elim (dec_lt (count * size) size_mod) [
  | yes p ↦ ground (arith, quotient_exact count size)
  | no p ↦ ground (arith, lt_of_quotient count size, product_zero count size)
]

pub product_exceeds_iff :
    (count size : ℕ) → (product_exceeds count size ≡ true) ↔ (size_mod ≤ count * size)
unfolding product_exceeds
product_exceeds_iff count size = elim (ℕ_discrete size 0) [
  | yes z ↦ ground (arith, product_zero count size z)
  | no pos ↦
      let fits = le-div_iff_mul-le {k = size} {x = count} {y = size_max} (omega arith) in
      elim (dec_lt (count * size) size_mod) [
        | yes p ↦ ground (arith, fits.1 (omega arith))
        | no p ↦ elim (dec_lt (size_max / size) count) [
          | yes more ↦ ground arith
          | no less ↦ absurd (omega (arith, fits.0 (omega arith)))
        ]
      ]
]

pub lt_of_product_overflows :
    (count size : ℕ) → product_overflows count size ≡ false → count * size < size_mod
lt_of_product_overflows count size e = ground (arith, product_overflows_iff count size)

-- The two tests for a product that is too large are the same test.
pub product_overflows-eq-product_exceeds :
    (count size : ℕ) → product_overflows count size ≡ product_exceeds count size
product_overflows-eq-product_exceeds count size =
    ground (arith, product_overflows_iff count size, product_exceeds_iff count size)

pub pow2_bounds : (k : ℕ) → k ≤ 63 → (1 ≤ 2 ^ k) × (2 ^ k ≤ 2 ^ 63)
pow2_bounds k h = (one-le-pow k 2 (omega arith), pow-le-pow_right (omega arith) h)

sub_one-pow2 : (k : ℕ) → k ≤ 63 → sub_size (2 ^ k) 1 ≡ 2 ^ k - 1
sub_one-pow2 k h = omega (arith, pow2_bounds k h)

split : (k : ℕ) → k ≤ 63 → 2 ^ (64 - k) * 2 ^ k ≡ size_mod
split k h = sym (pow_add (64 - k) k) ∙ ap (λ (t : ℕ). 2 ^ t) whole
  where
    whole : 64 - k + k ≡ 64
    whole = omega arith

mul-sub-one : (a b : ℕ) → (a - 1) * b ≡ a * b - b
mul-sub-one zero b = rw (zero-sub, zero-mul, zero-sub)
mul-sub-one (suc a) b = rw before (omega arith)
  where
    before : suc a - 1 ≡ a
    before = omega arith

-- The complement of a low mask is a mask of the bits above it.
not-mask : (k : ℕ) → k ≤ 63 → size_max - (2 ^ k - 1) ≡ (2 ^ (64 - k) - 1) * 2 ^ k
not-mask k h = ground (arith, split k h, mul-sub-one (2 ^ (64 - k)) (2 ^ k), pow2_bounds k h)

-- Such a mask clears the `k` low bits.
clear_low :
    (k x : ℕ) → k ≤ 63 → x < size_mod → bit_and x (size_max - (2 ^ k - 1)) ≡ x / 2 ^ k * 2 ^ k
clear_low k x h small = rw (not-mask k h) (
    ap (λ (t : ℕ). bit_and t ((2 ^ (64 - k) - 1) * 2 ^ k)) (sym (div-add-mod' x (2 ^ k)))
    ∙ bit_and-shifted k (x / 2 ^ k) (x % 2 ^ k) (2 ^ (64 - k) - 1) (mod-lt x (pow2_bounds k h).0)
    ∙ ap (λ (t : ℕ). t * 2 ^ k) (bit_and-mask (64 - k) (x / 2 ^ k) ∙ mod-eq_of_lt high))
  where
    high : x / 2 ^ k < 2 ^ (64 - k)
    high = (div-lt_iff_lt-mul (pow2_bounds k h).0).1 (omega (arith, split k h))

-- Rounding up to a power of two is exact where the sum does not wrap.
pub round_up-eq :
    (sz k : ℕ)
    → k ≤ 63
    → sz + 2 ^ k ≤ size_mod
    → round_up sz (2 ^ k) ≡ (sz + (2 ^ k - 1)) / 2 ^ k * 2 ^ k
unfolding round_up
round_up-eq sz k small h =
    rw (sub_one-pow2 k small, sum)
      (clear_low k (sz + (2 ^ k - 1)) small (omega (arith, pow2_bounds k small)))
  where
    sum : sub_size (add_size sz (2 ^ k)) 1 ≡ sz + (2 ^ k - 1)
    sum = omega (arith, pow2_bounds k small)

pub is_pow2_or_zero-pow2 : (k : ℕ) → k ≤ 63 → is_pow2_or_zero (2 ^ k) ≡ true
unfolding is_pow2_or_zero
is_pow2_or_zero-pow2 k h = eq→== _ _ (rw (sub_one-pow2 k h) (bit_and-pow2 k))

pub IsPow2-of_is_pow2_or_zero : (a : ℕ) → a ≢ 0 → a < size_mod → is_pow2_or_zero a ≡ true → IsPow2 a
unfolding is_pow2_or_zero
IsPow2-of_is_pow2_or_zero a pos small e = IsPow2-of_bit_and a (omega arith) (rw one (==→eq _ _ e))
  where
    one : a - 1 ≡ sub_size a 1
    one = omega arith

-- What rounding up gives: the next multiple.
pub round_up_bounds :
    (sz k : ℕ)
    → k ≤ 63
    → sz + 2 ^ k ≤ size_mod
    → (sz ≤ round_up sz (2 ^ k))
      × (round_up sz (2 ^ k) < sz + 2 ^ k)
      × (round_up sz (2 ^ k) % 2 ^ k ≡ 0)
round_up_bounds sz k small h = rw (round_up-eq sz k small h) (
  omega (
    arith,
    div-add-mod' (sz + (2 ^ k - 1)) (2 ^ k),
    mod-lt (sz + (2 ^ k - 1)) (pow2_bounds k small).0,
  ),
  omega (arith, div-mul-le_self (sz + (2 ^ k - 1)) (2 ^ k), pow2_bounds k small),
  mul-mod_left _ _,
)

-- Where the sum wraps, rounding up gives nothing.
pub round_up_wraps :
    (sz k : ℕ) → k ≤ 63 → size_mod < sz + 2 ^ k → sz < size_mod → round_up sz (2 ^ k) ≡ 0
unfolding round_up
round_up_wraps sz k small over lt =
    rw (sub_one-pow2 k small, sum)
      (clear_low k (sz + 2 ^ k - size_mod - 1) small (omega (arith, pow2_bounds k small))
        ∙ ap (λ (t : ℕ). t * 2 ^ k) (div-eq_of_lt (omega (arith, pow2_bounds k small)))
        ∙ zero-mul (2 ^ k))
  where
    sum : sub_size (add_size sz (2 ^ k)) 1 ≡ sz + 2 ^ k - size_mod - 1
    sum = omega (arith, pow2_bounds k small)

round_up_example : round_up 4097 4096 ≡ 8192
unfolding round_up
round_up_example = refl
