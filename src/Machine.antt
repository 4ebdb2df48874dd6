-- ===== src/Machine.antt =====
-- What the C and C++ code runs on: byte memory, the state of the allocator below, and `errno`.
-- Of libc, the calls that the code makes: memcpy and memset, which fault (undefined behaviour) where
-- an address is not mapped, or where the ranges of a copy overlap; strlen and strnlen.
pub mod Memory
pub mod Yields
use alloc.Base.{
  ℕ, zero, suc, ◌+◌, ◌-◌, ◌≤◌, ◌<◌, Bool, true, false, ◌&&◌, ◌||◌, Option, none, some, leb, ltb,
  ◌==◌, if◌then◌else◌, is_some, size_mod,
}

-- A pointer is an address; `nullptr` is 0.
abbrev pub Ptr : Type 0
Ptr = ℕ

abbrev pub null : Ptr
null = 0

-- The byte at an address, `none` where the address is not mapped.
abbrev pub Memory : Type 0
Memory = Ptr → Option ℕ

-- `heap` is the state of the allocator, whose type the allocator chooses.
pub record Machine (H : Type 0) : Type 0 where
  pub heap : H
  pub mem : Memory
  pub errno : ℕ

-- How a call ends: it returns, throws std::bad_alloc, calls abort(), or makes an invalid access.
pub data Run (H A : Type 0) : Type 0 where
  ok : A → Machine H → Run H A
  bad_alloc : Machine H → Run H A
  abort : Run H A
  crash : Run H A

abbrev pub M : Type 0 → Type 0 → Type 0
M H A = Machine H → Run H A

abbrev pub and_then : {H A B : Type 0} → Run H A → (A → M H B) → Run H B
and_then (ok a m) k = k a m
and_then (bad_alloc m) k = bad_alloc m
and_then abort k = abort
and_then crash k = crash

infixl 5 ◌>>=◌ ◌>>◌
abbrev pub ◌>>=◌ : {H A B : Type 0} → M H A → (A → M H B) → M H B
◌>>=◌ f k m = and_then (f m) k

abbrev pub ◌>>◌ : {H A B : Type 0} → M H A → M H B → M H B
f >> g = f >>= λ _. g

abbrev pub pure : {H A : Type 0} → A → M H A
pure = ok

abbrev pub throw_bad_alloc : {H A : Type 0} → M H A
throw_bad_alloc = bad_alloc

abbrev pub skip : {H : Type 0} → M H (Unit {0})
skip = ok tt

abbrev pub set_errno : {H : Type 0} → ℕ → M H (Unit {0})
set_errno e m = ok tt (record m { errno = e })

-- `p <= a < p + n`
abbrev pub inside : Ptr → ℕ → Ptr → Bool
inside p n a = leb p a && ltb a (p + n)

-- All of `p .. p + n - 1` is mapped.
unfoldable pub mapped : Memory → Ptr → ℕ → Bool
mapped mem p zero = true
mapped mem p (suc n) = elim (mem (p + n)) [ none ↦ false | some _ ↦ mapped mem p n ]

abbrev pub copied : Memory → Ptr → Ptr → ℕ → Memory
copied mem dst src n a = if inside dst n a then mem (src + (a - dst)) else mem a

abbrev pub filled : Memory → Ptr → ℕ → ℕ → Memory
filled mem p v n a = if inside p n a then some v else mem a

-- `memcpy(dst, src, n)`
unfoldable pub memcpy : {H : Type 0} → Ptr → Ptr → ℕ → M H (Unit {0})
memcpy dst src n m =
    if mapped m.mem src n && (mapped m.mem dst n && (leb (dst + n) src || leb (src + n) dst))
    then ok tt (record m { mem = copied m.mem dst src n })
    else crash

-- `memset(p, v, n)`
unfoldable pub memset : {H : Type 0} → Ptr → ℕ → ℕ → M H (Unit {0})
memset p v n m = if mapped m.mem p n then ok tt (record m { mem = filled m.mem p v n }) else crash

-- `*p` and `*p = v`, of a byte
unfoldable pub load : {H : Type 0} → Ptr → M H ℕ
load p m = elim (m.mem p) [ none ↦ crash | some v ↦ ok v m ]

unfoldable pub store : {H : Type 0} → Ptr → ℕ → M H (Unit {0})
store p v = memset p v 1

-- The bytes before the first zero among the first `n` at `p`: strnlen(p, n).
unfoldable pub strnlen : {H : Type 0} → ℕ → Ptr → M H ℕ
strnlen zero p m = ok 0 m
strnlen (suc n) p m = elim (m.mem p) [
  | none ↦ crash
  | some v ↦ elim (v == 0) [
    | true ↦ ok 0 m
    | false ↦ and_then (strnlen n (p + 1) m) (λ k. ok (suc k))
  ]
]

-- strlen(p): the same up to the end of the address space, where a string that has no end faults.
unfoldable pub strlen : {H : Type 0} → Ptr → M H ℕ
unfolding strnlen
strlen p m =
    and_then (strnlen (size_mod - p) p m) λ k. if ltb (p + k) size_mod then ok k else λ _. crash
