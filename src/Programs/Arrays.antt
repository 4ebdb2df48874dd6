-- ===== src/Programs/Arrays.antt =====
-- The abstract view of a program's memory: each variable is absent or has an array of its own.
use alloc.Base.{
  ℕ, ◌*◌, ◌≡◌, ◌≢◌, ◌<◌, ◌≤◌, ◌⊎◌, ◌∙◌, refl, arith, Bool, true, false, Option, some, List, [], ◌∷◌,
  ◌++◌, size_mod,
}
use alloc.Programs.{Command, mallocs, callocs, reallocs, frees, writes, reads}

pub record Array : Type 0 where
  pub present : Bool
  pub size : ℕ
  pub bytes : ℕ → Option ℕ

pub record SameArray (a b : Array) : Type 0 where
  pub present : b.present ≡ a.present
  pub size : b.size ≡ a.size
  pub bytes : (j : ℕ) → j < a.size → b.bytes j ≡ a.bytes j

abbrev pub Arrays : Type 0
Arrays = ℕ → Array

-- Every array but that of `i` is the same.
abbrev pub Others : (i : ℕ) → Arrays → Arrays → Type 0
Others i a a' = (k : ℕ) → k ≢ i → SameArray (a k) (a' k)

abbrev pub Absent : Array → Type 0
Absent b = (b.present ≡ false) × (b.size ≡ 0)

-- The array is there, with `n` bytes.
abbrev pub OfSize : ℕ → Array → Type 0
OfSize n b = (b.present ≡ true) × (b.size ≡ n)

-- What realloc does to an array.
pub data Resizes (n : ℕ) (b b' : Array) : Type 0 where
  as_malloc : b.present ≡ false → Absent b' ⊎ OfSize n b' → Resizes n b b'
  emptied : b.present ≡ true → n ≡ 0 → b'.size ≡ 0 → Resizes n b b'
  refused : b.present ≡ true → n ≢ 0 → SameArray b b' → Resizes n b b'
  moved :
      b.present ≡ true
      → n ≢ 0
      → OfSize n b'
      → ((j : ℕ) → j < b.size → j < n → b'.bytes j ≡ b.bytes j)
      → Resizes n b b'

-- Byte `j` of the array becomes `v`.
pub record Written (j v : ℕ) (b b' : Array) : Type 0 where
  pub present : b'.present ≡ b.present
  pub size : b'.size ≡ b.size
  pub byte : b'.bytes j ≡ some v
  pub rest : (k : ℕ) → k ≢ j → k < b.size → b'.bytes k ≡ b.bytes k

-- What a statement may do to the arrays, and print.
unfoldable pub Step : Command → Arrays → List ℕ → Arrays → Type 0
Step (mallocs i n) a o a' = (o ≡ []) × Others i a a' × (Absent (a' i) ⊎ OfSize n (a' i))
Step (callocs i n size) a o a' =
    (o ≡ [])
    × Others i a a'
    × (Absent (a' i)
        ⊎ (n * size < size_mod)
          × OfSize (n * size) (a' i)
          × ((j : ℕ) → j < n * size → (a' i).bytes j ≡ some 0))
Step (reallocs i n) a o a' = (o ≡ []) × Others i a a' × Resizes n (a i) (a' i)
Step (frees i) a o a' = (o ≡ []) × Others i a a' × Absent (a' i)
Step (writes i j v) a o a' =
    (o ≡ [])
    × Others i a a'
    × ((j < (a i).size) × Written j v (a i) (a' i) ⊎ ((a i).size ≤ j) × SameArray (a i) (a' i))
Step (reads i j) a o a' =
    Others i a a'
    × SameArray (a i) (a' i)
    × (((v : ℕ) × (j < (a i).size) × ((a i).bytes j ≡ some v) × (o ≡ v ∷ []))
        ⊎ ((a i).size ≤ j) × (o ≡ []))

-- The runs of a program over arrays.
unfoldable pub Runs : List Command → Arrays → List ℕ → Arrays → Type 0
unfolding Step
Runs [] a o a' = (o ≡ []) × ((k : ℕ) → SameArray (a k) (a' k))
Runs (x ∷ xs) a o a' =
    (a1 : Arrays) × (o1 : List ℕ) × (o2 : List ℕ) × (o ≡ o1 ++ o2)
    × Step x a o1 a1
    × Runs xs a1 o2 a'

pub SameArray-trans : {a b c : Array} → SameArray a b → SameArray b c → SameArray a c
SameArray-trans s t = record {
  present = t.present ∙ s.present;
  size = t.size ∙ s.size;
  bytes = λ j lt. t.bytes j (omega (arith, s.size)) ∙ s.bytes j lt;
}

pub SameArray-refl : {a : Array} → SameArray a a
SameArray-refl = record { present = refl; size = refl; bytes = λ j lt. refl }
