-- ===== src/Base/Bits.antt =====
-- Laws of `bit_and` at variables: masks of low bits and of high bits, and powers of two.
use Prim.Native.Nat.{
  ℕ, zero, suc, ◌+◌, ◌-◌, ◌*◌, ◌/◌, ◌%◌, ◌^◌, ◌≤◌, ◌<◌, min, bit_and, digits, bit_and-bitwise,
}
use mathlib.Core.Logic.{◌≢◌}
use mathlib.Core.Path.{◌≡◌, refl, ap}
use native.Mathlib.Nat.{pow-suc, one-le-pow, zero-add, mod_self}
use native.Mathlib.Decide.{ℕ_discrete}
use native.Mathlib.Omega.{arith}

abbrev lows : ℕ → ℕ → ℕ → ℕ
lows fuel a b = digits (λ _. 0) min fuel a b

-- More fuel than the first number changes nothing.
lows_fuel : (n m a b : ℕ) → a ≤ n → a ≤ m → lows n a b ≡ lows m a b
lows_fuel zero zero a b p q = refl
lows_fuel zero (suc m) zero b p q = refl
lows_fuel zero (suc m) (suc a) b p q = absurd (omega arith)
lows_fuel (suc n) zero zero b p q = refl
lows_fuel (suc n) zero (suc a) b p q = absurd (omega arith)
lows_fuel (suc n) (suc m) zero b p q = refl
lows_fuel (suc n) (suc m) (suc a) b p q =
    omega (arith, lows_fuel n m (suc a / 2) (b / 2) (omega arith) (omega arith))

pub zero-bit_and : (b : ℕ) → bit_and 0 b ≡ 0
zero-bit_and b = bit_and-bitwise 0 b

-- The lowest digit, and the rest.
pub bit_and-halves : (a b : ℕ) → bit_and a b ≡ bit_and (a / 2) (b / 2) * 2 + min (a % 2) (b % 2)
bit_and-halves zero b = omega (arith, zero-bit_and b, zero-bit_and (b / 2))
bit_and-halves (suc a) b = omega (
  arith,
  bit_and-bitwise (suc a) b,
  bit_and-bitwise (suc a / 2) (b / 2),
  lows_fuel a (suc a / 2) (suc a / 2) (b / 2) (omega arith) (omega arith),
)

zero_below : (n a : ℕ) → a ≤ n → bit_and a 0 ≡ 0
zero_below n zero h = zero-bit_and 0
zero_below zero (suc a) h = absurd (omega arith)
zero_below (suc n) (suc a) h =
    omega (arith, bit_and-halves (suc a) 0, zero_below n (suc a / 2) (omega arith))

pub bit_and-zero : (a : ℕ) → bit_and a 0 ≡ 0
bit_and-zero a = zero_below a a (omega arith)

self_below : (n a : ℕ) → a ≤ n → bit_and a a ≡ a
self_below n zero h = zero-bit_and 0
self_below zero (suc a) h = absurd (omega arith)
self_below (suc n) (suc a) h =
    omega (arith, bit_and-halves (suc a) (suc a), self_below n (suc a / 2) (omega arith))

pub bit_and_self : (a : ℕ) → bit_and a a ≡ a
bit_and_self a = self_below a a (omega arith)

double_pow : (c k : ℕ) → c * 2 ^ suc k ≡ 2 * (c * 2 ^ k)
double_pow c k = omega (arith, ap (λ (t : ℕ). c * t) (pow-suc 2 k))

-- A mask above `k` zeroes clears the `k` low bits.
pub bit_and-shifted :
    (k q r c : ℕ) → r < 2 ^ k → bit_and (q * 2 ^ k + r) (c * 2 ^ k) ≡ bit_and q c * 2 ^ k
bit_and-shifted zero q r c h = ground arith
bit_and-shifted (suc k) q r c h = ground (
  arith,
  bit_and-halves (q * 2 ^ suc k + r) (c * 2 ^ suc k),
  double_pow q k,
  double_pow c k,
  double_pow (bit_and q c) k,
  pow-suc 2 k,
  bit_and-shifted k q (r / 2) c,
)

low_ones : (k q r : ℕ) → r < 2 ^ k → bit_and (q * 2 ^ k + r) (2 ^ k - 1) ≡ r
low_ones zero q r h = ground (arith, bit_and-zero (q * 2 ^ 0 + r))
low_ones (suc k) q r h = ground (
  arith,
  bit_and-halves (q * 2 ^ suc k + r) (2 ^ suc k - 1),
  double_pow q k,
  pow-suc 2 k,
  one-le-pow k 2,
  low_ones k q (r / 2),
)

-- A mask of `k` ones keeps the remainder by 2 ^ k.
pub bit_and-mask : (k a : ℕ) → bit_and a (2 ^ k - 1) ≡ a % 2 ^ k
bit_and-mask k a = ground (arith, one-le-pow k 2, low_ones k (a / 2 ^ k) (a % 2 ^ k))

pub pow_add : (j k : ℕ) → 2 ^ (j + k) ≡ 2 ^ j * 2 ^ k
pow_add zero k = rw zero-add (omega arith)
pow_add (suc j) k = rw shift (grind (arith, pow_add j k, pow-suc 2 (j + k), pow-suc 2 j))
  where
    shift : suc j + k ≡ suc (j + k)
    shift = omega arith

-- `a` is a power of two.
abbrev pub IsPow2 : ℕ → Type 0
IsPow2 a = (k : ℕ) × (a ≡ 2 ^ k)

IsPow2-below : (n a : ℕ) → a ≤ n → 0 < a → bit_and a (a - 1) ≡ 0 → IsPow2 a
IsPow2-below zero a h pos e = absurd (omega arith)
IsPow2-below (suc n) a h pos e = elim (ℕ_discrete (a % 2) 0) [
  | yes even ↦
      let (k, half) =
        IsPow2-below n (a / 2) (omega arith) (omega arith)
          (omega (arith, bit_and-halves a (a - 1), ap (bit_and (a / 2)) (shifted even))) in
      (suc k, omega (arith, half, pow-suc 2 k))
  | no odd ↦ (
    0,
    omega (arith, bit_and-halves a (a - 1), ap (bit_and (a / 2)) (same odd), bit_and_self (a / 2)),
  )
]
  where
    shifted : a % 2 ≡ 0 → (a - 1) / 2 ≡ a / 2 - 1
    shifted even = omega arith

    same : a % 2 ≢ 0 → (a - 1) / 2 ≡ a / 2
    same odd = omega arith

pub IsPow2-of_bit_and : (a : ℕ) → 0 < a → bit_and a (a - 1) ≡ 0 → IsPow2 a
IsPow2-of_bit_and a = IsPow2-below a a (omega arith)

pub bit_and-pow2 : (k : ℕ) → bit_and (2 ^ k) (2 ^ k - 1) ≡ 0
bit_and-pow2 k = omega (arith, bit_and-mask k (2 ^ k), mod_self (2 ^ k))
