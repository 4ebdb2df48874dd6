-- ===== src/Machine/Memory.antt =====
-- When memcpy and memset succeed, and what they leave.
use alloc.Base.{ℕ, zero, suc, ◌+◌, ◌≤◌, ◌<◌, ◌≡◌, refl, ◌⊎◌, true, arith, is_some}
use alloc.Machine.{Machine, Memory, Ptr, ok, mapped, copied, filled, memcpy, memset}

-- Every address from `p` up to `p + n` is mapped.
abbrev pub IsMapped : Memory → Ptr → ℕ → Type 0
IsMapped mem p n = (a : Ptr) → p ≤ a → a < p + n → is_some (mem a) ≡ true

pub mapped_of_IsMapped : (mem : Memory) (p : Ptr) (n : ℕ) → IsMapped mem p n → mapped mem p n ≡ true
unfolding mapped
mapped_of_IsMapped mem p zero h = refl
mapped_of_IsMapped mem p (suc n) h =
    ground (arith, h (p + n), mapped_of_IsMapped mem p n (λ a lo hi. h a lo (omega arith)))

-- The ranges of `n` bytes at `p` and `q` do not meet.
abbrev pub Apart : Ptr → ℕ → Ptr → ℕ → Type 0
Apart p n q k = (p + n ≤ q) ⊎ (q + k ≤ p)

module _ {H : Type 0} (m : Machine H) where
  pub memcpy-ok :
      (dst src : Ptr) (n : ℕ)
      → IsMapped m.mem src n
      → IsMapped m.mem dst n
      → Apart dst n src n
      → memcpy dst src n m ≡ ok tt (record m { mem = copied m.mem dst src n })
  unfolding memcpy
  memcpy-ok dst src n from to apart =
      ground (arith, mapped_of_IsMapped m.mem src n from, mapped_of_IsMapped m.mem dst n to)

  pub memset-ok :
      (p : Ptr) (v n : ℕ)
      → IsMapped m.mem p n
      → memset p v n m ≡ ok tt (record m { mem = filled m.mem p v n })
  unfolding memset
  memset-ok p v n to = rw (mapped_of_IsMapped m.mem p n to)
