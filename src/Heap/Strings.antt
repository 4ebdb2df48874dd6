-- ===== src/Heap/Strings.antt =====
-- Strings in memory, and the steps that every strdup shares: allocate, and copy.
use alloc.Base.{
  ℕ, zero, suc, ◌+◌, ◌-◌, ◌≤◌, ◌<◌, ◌≡◌, ◌≢◌, ◌∙◌, ap, sym, ◌⊎◌, inl, inr, Option, some, arith,
  ◌==◌, if◌then◌else◌, size_mod, eq→==, ne→==, lt→ltb,
}
use alloc.Machine.{
  Ptr, null, Machine, Memory, M, ok, pure, ◌>>=◌, ◌>>◌, memcpy, copied, strlen, strnlen,
}
use alloc.Machine.Memory.{IsMapped, Apart, memcpy-ok}
use alloc.Machine.Yields.{Yields, yields, sequence}
use alloc.Heap.Contract.{Failed, Fresh, Allocated}
use alloc.Heap.Writes.{copied-WritesIn}
use alloc.Heap.Filling.{write-Fresh}

-- `n` bytes that are not zero stand at `s`.
pub record HasText (mem : Memory) (s : Ptr) (n : ℕ) : Type 0 where
  pub text : (i : ℕ) → i < n → (c : ℕ) × (mem (s + i) ≡ some c) × (c ≢ 0)

-- A string of `n` characters stands at `s`.
pub record IsString (mem : Memory) (s : Ptr) (n : ℕ) : Type 0 where
  pub characters : HasText mem s n
  pub terminator : mem (s + n) ≡ some 0
  pub fits : s + n < size_mod

pub HasText-rest : (mem : Memory) (s : Ptr) (n : ℕ) → HasText mem s (suc n) → HasText mem (s + 1) n
HasText-rest mem s n t = record {
  text = λ i lt. let (c, e, ne) = t.text (suc i) (omega arith) in (c, ap mem (shift i) ∙ e, ne);
}
  where
    shift : (i : ℕ) → s + 1 + i ≡ s + suc i
    shift i = omega arith

-- A zero after `n` characters ends the count.
pub strnlen_string :
    {H : Type 0} (k n : ℕ) (s : Ptr) (m : Machine H)
    → n < k
    → HasText m.mem s n
    → m.mem (s + n) ≡ some 0
    → strnlen k s m ≡ ok n m
unfolding strnlen
strnlen_string zero n s m lt t e = absurd (omega arith)
strnlen_string (suc k) zero s m lt t e = rw (ap m.mem here ∙ e, strnlen)
  where
    here : s ≡ s + 0
    here = omega arith
strnlen_string (suc k) (suc n) s m lt t e =
    let (c, first, ne) = t.text 0 (omega arith) in
    rw (
      ap m.mem here ∙ first,
      strnlen,
      ne→== c 0 ne,
      strnlen_string k n (s + 1) m (omega arith) (HasText-rest m.mem s n t) (ap m.mem next ∙ e),
    )
  where
    here : s ≡ s + 0
    here = omega arith

    next : s + 1 + n ≡ s + suc n
    next = omega arith

pub strlen-IsString :
    {H : Type 0} (s : Ptr) (n : ℕ) (m : Machine H) → IsString m.mem s n → strlen s m ≡ ok n m
unfolding strlen
strlen-IsString s n m str =
    rw (strnlen_string (size_mod - s) n s m (omega (arith, str.fits)) str.characters str.terminator)
      (rw (lt→ltb (s + n) size_mod str.fits))

-- `q = malloc(len); if (q) memcpy(q, s, len); return q;`
abbrev pub copy_steps : {H : Type 0} → (ℕ → M H Ptr) → Ptr → ℕ → M H Ptr
copy_steps malloc s len = do q ← malloc len; if q == null then pure q else do memcpy q s len; pure q

module _ {H : Type 0} (live : H → Ptr → Option ℕ) where
  -- The `len` bytes at `s` lie in a live block. (Static data counts as a block that nobody frees.)
  pub record InBlock (m : Machine H) (s : Ptr) (len : ℕ) : Type 0 where
    pub block : Ptr
    pub size : ℕ
    pub owned : live m.heap block ≡ some size
    pub starts : block ≤ s
    pub ends : s + len ≤ block + size

  -- A failure, or a new block that begins with the `len` bytes at `s`.
  abbrev pub Duplicated : Ptr → ℕ → Machine H → Ptr → Machine H → Type 0
  Duplicated s len m q m' =
      Failed live m q m'
      ⊎ Fresh live len m q m' × ((i : ℕ) → i < len → m'.mem (q + i) ≡ m.mem (s + i))

  module _ (s : Ptr) (len : ℕ) (m m1 : Machine H) (q : Ptr) (at : InBlock m s len)
      (new : Fresh live len m q m1) where
    block-ne : at.block ≢ q
    block-ne e = cc (new.unused, at.owned, ap (live m.heap) e)

    still : live m1.heap at.block ≡ some at.size
    still = new.others at.block block-ne ∙ at.owned

    pub source : IsMapped m1.mem s len
    source a lo hi =
        new.valid.blocks_mapped at.block at.size a still (omega (arith, at.starts))
          (omega (arith, at.ends))

    pub target : IsMapped m1.mem q len
    target a lo hi = new.valid.blocks_mapped q new.size a new.owned lo (omega (arith, new.enough))

    pub apart : Apart q len s len
    apart = omega (
      arith,
      new.valid.blocks_apart q at.block new.size at.size new.owned still (λ e. block-ne (sym e)),
      new.enough,
      at.starts,
      at.ends,
    )

    pub same_byte : (i : ℕ) → i < len → copied m1.mem q s len (q + i) ≡ m.mem (s + i)
    same_byte i lt =
        here
        ∙ ap (λ (t : ℕ). m1.mem (s + t)) back
        ∙ new.kept at.block at.size (s + i) at.owned (omega (arith, at.starts))
            (omega (arith, at.ends))
      where
        here : copied m1.mem q s len (q + i) ≡ m1.mem (s + (q + i - q))
        here = ground arith

        back : q + i - q ≡ i
        back = omega arith

  pub copy_steps-Duplicated :
      (malloc : ℕ → M H Ptr) (s : Ptr) (len : ℕ) (m : Machine H)
      → Yields (Allocated live len m) (malloc len m)
      → InBlock m s len
      → Yields (Duplicated s len m) (copy_steps malloc s len m)
  copy_steps-Duplicated malloc s len m alloc at = sequence alloc λ q m1 got. elim got [
    | inl f ↦ rw (eq→== q null f.is_null) (yields (inl f))
    | inr new ↦
        rw
          (
            ne→== q null new.nonnull,
            memcpy-ok m1 q s len (source s len m m1 q at new) (target s len m m1 q at new)
                (apart s len m m1 q at new),
          )
          (yields (
            inr (
              write-Fresh live len m m1 q _ new
                  (copied-WritesIn m1.mem q s new.size len new.enough (source s len m m1 q at new)),
              same_byte s len m m1 q at new,
            )))
  ]
