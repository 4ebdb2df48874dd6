-- ===== src/Heap/Writes.antt =====
-- Writing inside one block leaves the others alone.
use alloc.Base.{ℕ, ◌+◌, ◌-◌, ◌≤◌, ◌<◌, ◌≡◌, ◌⊎◌, true, Option, some, arith, is_some}
use alloc.Machine.{Ptr, Memory, Machine, copied, filled}
use alloc.Machine.Memory.{IsMapped}
use alloc.Heap.Contract.{WellFormed, KeepsBut}

-- `mem'` differs from `mem` at most in `p .. p + n - 1`, and unmaps nothing.
pub record WritesIn (p : Ptr) (n : ℕ) (mem mem' : Memory) : Type 0 where
  pub outside : (a : Ptr) → (a < p) ⊎ (p + n ≤ a) → mem' a ≡ mem a
  pub mapped_still : (a : Ptr) → is_some (mem a) ≡ true → is_some (mem' a) ≡ true

pub copied-WritesIn :
    (mem : Memory) (p src : Ptr) (n k : ℕ)
    → k ≤ n
    → IsMapped mem src k
    → WritesIn p n mem (copied mem p src k)
copied-WritesIn mem p src n k le from = record {
  outside = λ a out. ground arith;
  mapped_still = λ a h. ground (arith, from (src + (a - p)));
}

pub filled-WritesIn :
    (mem : Memory) (p : Ptr) (v n k : ℕ) → k ≤ n → WritesIn p n mem (filled mem p v k)
filled-WritesIn mem p v n k le = record {
  outside = λ a out. ground arith;
  mapped_still = λ a h. ground arith;
}

module _ {H : Type 0} (live : H → Ptr → Option ℕ) (m : Machine H) (p : Ptr) (n : ℕ) (mem' : Memory)
    (w : WellFormed live m) (writes : WritesIn p n m.mem mem') where
  pub write-WellFormed : WellFormed live (record m { mem = mem' })
  write-WellFormed = record {
    null_free = w.null_free;
    blocks_mapped = λ q k a own lo hi. writes.mapped_still a (w.blocks_mapped q k a own lo hi);
    blocks_apart = w.blocks_apart;
    blocks_fit = w.blocks_fit;
  }

  pub write-KeepsBut : live m.heap p ≡ some n → KeepsBut live p m (record m { mem = mem' })
  write-KeepsBut own q k a ne other lo hi =
      writes.outside a (ground (arith, w.blocks_apart q p k n other own))
