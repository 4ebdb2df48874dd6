-- ===== src/Common/Bounded.antt =====
-- strndup of wrapper_common.cpp, and that of gnu_wrapper.cpp, at a text and a bound.
use alloc.Base.{
  ℕ, zero, suc, ◌+◌, ◌<◌, ◌≡◌, refl, ◌≢◌, inl, inr, Option, none, some, ◌==◌, ne→==, size_mod, true,
  false, Bool-cases, ap,
}
use alloc.Machine.{Ptr, null, Machine, Run, ok, crash, strnlen, and_then}
use alloc.Machine.Yields.{Yields}
use alloc.Heap.Contract.{WellFormed}
use alloc.Heap.Strings.{InBlock}
use alloc.Heap.Bounded.{HasPrefix, strnlen-HasPrefix, Ended, bounded_steps-Ended}
use alloc.Xx.{Xx, IsXx}
use alloc.Common.{scan, common_strndup}
use alloc.Linux.Wrapper.{custom_strndup}

-- The loop gives what strnlen gives, or faults where it does, in every memory.
scan-eq-strnlen : {H : Type 0} (n : ℕ) (s : Ptr) (m : Machine H) → scan n s m ≡ strnlen n s m
unfolding scan strnlen
scan-eq-strnlen zero s m = refl
scan-eq-strnlen {H} (suc n) s m =
    ap
      (λ (r : Run H ℕ). elim (m.mem s) as (λ _. Run H ℕ) [
        | none ↦ crash
        | some c ↦ elim (c == 0) as (λ _. Run H ℕ) [
          | true ↦ ok 0 m
          | false ↦ and_then r (λ k. ok (suc k))
        ]
      ])
      (scan-eq-strnlen n (s + 1) m)

module _ {H : Type 0} (live : H → Ptr → Option ℕ) (X : Xx H) (is : IsXx live X) where
  -- At every argument strndup of wrapper_common.cpp does what that of gnu_wrapper.cpp does. At a text in a
  -- live block, of `len` characters up to its zero or up to the bound, both fail, or give a new block that
  -- begins with these characters and a zero.
  pub strndup-Ended :
      (s : Ptr) (bound len : ℕ) (m : Machine H)
      → WellFormed live m
      → s ≢ null
      → HasPrefix m.mem s bound len
      → InBlock live m s len
      → len + 1 < size_mod
      → ((p : Ptr) (n : ℕ) (k : Machine H) → common_strndup X p n k ≡ custom_strndup X p n k)
        × Yields (Ended live s len m) (custom_strndup X s bound m)
        × Yields (Ended live s len m) (common_strndup X s bound m)
  strndup-Ended s bound len m w ne text at small = (agree, linux, rw (agree s bound m) linux)
    where
      agree : (p : Ptr) (n : ℕ) (k : Machine H) → common_strndup X p n k ≡ custom_strndup X p n k
      agree p n k =
          unfold common_strndup custom_strndup in
          elim (Bool-cases (p == null)) [
            | inl b ↦ rw b refl
            | inr b ↦ rw (b, scan-eq-strnlen n p k) refl
          ]

      linux : Yields (Ended live s len m) (custom_strndup X s bound m)
      linux =
          unfold custom_strndup in
          rw (ne→== s null ne, strnlen-HasPrefix s bound len m text)
            (bounded_steps-Ended live X.xxmalloc s len m small
              (is.xxmalloc-Allocated (len + 1) m small w) at)
