-- ===== src/Heap/Bounded.antt =====
-- The steps that every strndup shares: count up to a bound, allocate, copy, and end with a zero.
use alloc.Base.{
  ℕ, zero, suc, ◌+◌, ◌<◌, ◌≡◌, refl, ◌⊎◌, inl, inr, Option, some, arith, ◌==◌, if◌then◌else◌, eq→==,
  ne→==, ◌∙◌, ap, sym, add_size, size_mod,
}
use native.Mathlib.Nat.{mod-eq_of_lt}
use alloc.Machine.{
  Ptr, null, Machine, Memory, M, ok, pure, ◌>>=◌, ◌>>◌, memcpy, store, copied, filled, strnlen,
}
use alloc.Machine.Memory.{IsMapped, memcpy-ok, memset-ok}
use alloc.Machine.Yields.{Yields, yields, sequence}
use alloc.Heap.Contract.{Failed, Fresh, Allocated}
use alloc.Heap.Writes.{WritesIn, copied-WritesIn}
use alloc.Heap.Filling.{Fresh-of_le, write-Fresh}
use alloc.Heap.Strings.{
  HasText, HasText-rest, strnlen_string, InBlock, source, target, apart, same_byte,
}

-- The text at `s` has `len` characters up to its zero, or `len` is the bound and no zero stands before.
pub record HasPrefix (mem : Memory) (s : Ptr) (bound len : ℕ) : Type 0 where
  pub characters : HasText mem s len
  pub ends : (len ≡ bound) ⊎ (len < bound) × (mem (s + len) ≡ some 0)

strnlen_full :
    {H : Type 0} (n : ℕ) (s : Ptr) (m : Machine H) → HasText m.mem s n → strnlen n s m ≡ ok n m
unfolding strnlen
strnlen_full zero s m t = refl
strnlen_full (suc n) s m t =
    let (c, first, ne) = t.text 0 (omega arith) in
    rw (
      ap m.mem here ∙ first,
      strnlen,
      ne→== c 0 ne,
      strnlen_full n (s + 1) m (HasText-rest m.mem s n t),
    )
  where
    here : s ≡ s + 0
    here = omega arith

pub strnlen-HasPrefix :
    {H : Type 0} (s : Ptr) (bound len : ℕ) (m : Machine H)
    → HasPrefix m.mem s bound len
    → strnlen bound s m ≡ ok len m
strnlen-HasPrefix s bound len m p = elim p.ends [
  | inl e ↦ rw (sym e) (strnlen_full len s m p.characters)
  | inr (lt, z) ↦ strnlen_string bound len s m lt p.characters z
]

-- `q = malloc(len + 1); if (q) { memcpy(q, s, len); q[len] = 0; } return q;`
abbrev pub bounded_steps : {H : Type 0} → (ℕ → M H Ptr) → Ptr → ℕ → M H Ptr
bounded_steps malloc s len = do
  q ← malloc (add_size len 1)
  if q == null then pure q else do memcpy q s len; store (q + len) 0; pure q

module _ {H : Type 0} (live : H → Ptr → Option ℕ) where
  -- A failure, or a new block that begins with the `len` bytes at `s` and a zero.
  abbrev pub Ended : Ptr → ℕ → Machine H → Ptr → Machine H → Type 0
  Ended s len m q m' =
      Failed live m q m'
      ⊎ Fresh live (len + 1) m q m'
        × ((i : ℕ) → i < len → m'.mem (q + i) ≡ m.mem (s + i))
        × (m'.mem (q + len) ≡ some 0)

  module _ (s : Ptr) (len : ℕ) (m m1 : Machine H) (q : Ptr) (at : InBlock live m s len)
      (new : Fresh live (len + 1) m q m1) where
    shorter : Fresh live len m q m1
    shorter = Fresh-of_le live len (len + 1) m m1 q (omega arith) new

    after : Memory
    after = filled (copied m1.mem q s len) (q + len) 0 1

    after-WritesIn : WritesIn q new.size m1.mem after
    unfolding after
    after-WritesIn =
        let copies =
          copied-WritesIn m1.mem q s new.size len (omega (arith, new.enough))
            (source live s len m m1 q at shorter) in
        record {
          outside = λ a out. ground (arith, copies.outside a out, new.enough);
          mapped_still = λ a h. ground (arith, copies.mapped_still a h);
        }

    end_mapped : IsMapped (copied m1.mem q s len) (q + len) 1
    end_mapped a lo hi = ground (arith, new.valid.blocks_mapped q new.size a new.owned, new.enough)

    copied_byte : (i : ℕ) → i < len → after (q + i) ≡ m.mem (s + i)
    unfolding after
    copied_byte i lt = before ∙ same_byte live s len m m1 q at shorter i lt
      where
        before :
            filled (copied m1.mem q s len) (q + len) 0 1 (q + i) ≡ copied m1.mem q s len (q + i)
        before = ground arith

    last_byte : after (q + len) ≡ some 0
    unfolding after
    last_byte = ground arith

  pub bounded_steps-Ended :
      (malloc : ℕ → M H Ptr) (s : Ptr) (len : ℕ) (m : Machine H)
      → len + 1 < size_mod
      → Yields (Allocated live (len + 1) m) (malloc (len + 1) m)
      → InBlock live m s len
      → Yields (Ended s len m) (bounded_steps malloc s len m)
  unfolding after store
  bounded_steps-Ended malloc s len m small alloc at = rw (mod-eq_of_lt small) (
      sequence alloc λ q m1 got. elim got [
        | inl f ↦ rw (eq→== q null f.is_null) (yields (inl f))
        | inr new ↦
            rw
              (
                ne→== q null new.nonnull,
                memcpy-ok m1 q s len (source live s len m m1 q at (shorter s len m m1 q at new))
                    (target live s len m m1 q at (shorter s len m m1 q at new))
                    (apart live s len m m1 q at (shorter s len m m1 q at new)),
                memset-ok (record m1 { mem = copied m1.mem q s len }) (q + len) 0 1
                    (end_mapped s len m m1 q at new),
              )
              (yields (
                inr (
                  write-Fresh live (len + 1) m m1 q _ new (after-WritesIn s len m m1 q at new),
                  copied_byte s len m m1 q at new,
                  last_byte s len m m1 q at new,
                )))
      ])
