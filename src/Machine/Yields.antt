-- ===== src/Machine/Yields.antt =====
-- Total correctness of a run: it returns, and a postcondition holds of the result and the machine.
use alloc.Base.{◌≡◌, refl}
use alloc.Machine.{Machine, Run, ok, bad_alloc, abort, crash, M, and_then}

pub data Yields {H A : Type 0} (P : A → Machine H → Type 0) : Run H A → Type 0 where
  yields : {a : A} {m : Machine H} → P a m → Yields P (ok a m)

module _ {H A : Type 0} {P : A → Machine H → Type 0} where
  -- A sequence, from what its first part yields.
  pub sequence :
      {B : Type 0} {Q : B → Machine H → Type 0} {r : Run H A} {k : A → M H B}
      → Yields P r
      → ((a : A) (m : Machine H) → P a m → Yields Q (k a m))
      → Yields Q (and_then r k)
  sequence (yields p) rest = rest _ _ p

  pub weaken :
      {Q : A → Machine H → Type 0} {r : Run H A}
      → Yields P r
      → ((a : A) (m : Machine H) → P a m → Q a m)
      → Yields Q r
  weaken (yields p) f = yields (f _ _ p)

-- The postcondition of a return; what does not return has none.
Post : {H A : Type 0} → (A → Machine H → Type 0) → Run H A → Type 0
Post P (ok a m) = P a m
Post P (bad_alloc m) = ⊥
Post P abort = ⊥
Post P crash = ⊥

Post-of_Yields : {H A : Type 0} (P : A → Machine H → Type 0) (r : Run H A) → Yields P r → Post P r
unfolding Post
Post-of_Yields P r (yields p) = p

pub yielded :
    {H A : Type 0} (P : A → Machine H → Type 0) (a : A) (m : Machine H) → Yields P (ok a m) → P a m
unfolding Post
yielded P a m y = Post-of_Yields P (ok a m) y

-- The first part of a sequence that yields returns, and the rest yields.
pub first_returns :
    {H A B : Type 0} (P : B → Machine H → Type 0) (r : Run H A) (k : A → M H B)
    → Yields P (and_then r k)
    → (a : A) × (m : Machine H) × (r ≡ ok a m) × Yields P (k a m)
unfolding Post
first_returns P (ok a m) k y = (a, m, refl, y)
first_returns P (bad_alloc m) k y = absurd (Post-of_Yields P (bad_alloc m) y)
first_returns P abort k y = absurd (Post-of_Yields P abort y)
first_returns P crash k y = absurd (Post-of_Yields P crash y)
