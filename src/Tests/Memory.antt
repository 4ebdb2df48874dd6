-- ===== src/Tests/Memory.antt =====
-- The wrappers over the arena, and a machine that holds a string.
use alloc.Base.{ℕ, zero, suc, ◌+◌, ◌<◌, ◌≡◌, ◌≢◌, refl, none, some, arith, ◌==◌, if◌then◌else◌}
use alloc.Machine.{Machine, Ptr, Run, ok, bad_alloc, abort, crash}
use alloc.Heap.Bump.{Arena, bump, live, bump-IsAllocator}
use alloc.Heap.Contract.{WellFormed}
use alloc.Heap.Strings.{IsString, InBlock}
use alloc.Xx.{Xx, IsXx}
use alloc.Redirect.{alloc8_redirect}
use alloc.Redirect.Refines.{alloc8_redirect-IsXx}

abbrev pub arena_xx : Xx Arena
arena_xx = alloc8_redirect bump

pub arena_xx-IsXx : IsXx live arena_xx
arena_xx-IsXx = alloc8_redirect-IsXx live bump bump-IsAllocator

-- One block of 4 bytes at 16, which holds "hi" and its zero.
abbrev pub greeting : Machine Arena
greeting = record {
  heap = record { next = 21; limit = 0x10000; blocks = λ p. if p == 16 then some 4 else none };
  mem = λ a.
      if a == 16
      then some b'h'
      else if a == 17
      then some b'i'
      else if a == 18
      then some 0
      else if a == 19
      then some 170
      else none;
  errno = 0;
}

-- The machine that a run leaves.
unfoldable pub machine_of : Run Arena Ptr → Machine Arena
machine_of (ok q m) = m
machine_of (bad_alloc m) = m
machine_of abort = greeting
machine_of crash = greeting

pub greeting-live : (p : Ptr) → live greeting.heap p ≡ (if p == 16 then some 4 else none)
unfolding live
greeting-live p = ground arith

pub greeting-WellFormed : WellFormed live greeting
greeting-WellFormed = record {
  null_free = greeting-live 0;
  blocks_mapped = λ p n a own lo hi. ground (arith, greeting-live p);
  blocks_apart = λ p q n k own own' ne. ground (arith, greeting-live p, greeting-live q);
  blocks_fit = λ p n own. ground (arith, greeting-live p);
}

pub greeting-IsString : IsString greeting.mem 16 2
greeting-IsString = record {
  characters = record { text = text };
  terminator = refl;
  fits = omega arith;
}
  where
    text : (i : ℕ) → i < 2 → (c : ℕ) × (greeting.mem (16 + i) ≡ some c) × (c ≢ 0)
    text zero lt = (b'h', refl, omega arith)
    text (suc zero) lt = (b'i', refl, omega arith)
    text (suc (suc i)) lt = absurd (omega arith)

pub greeting-InBlock : InBlock live greeting 16 3
greeting-InBlock = record {
  block = 16;
  size = 4;
  owned = greeting-live 16;
  starts = omega arith;
  ends = omega arith;
}
