-- ===== src/Seed/Value.antt =====
-- The arguments of an SQL statement (Go's `any`), and loops that fill a slice.
use tidb_fk_test.Base.{
  ℕ, zero, suc, ◌+◌, ◌<◌, ◌≡◌, refl, ℤ, List, [], ◌∷◌, Text, arith, length, All,
}

-- An `int64` stands as its bits.
pub data Value : Type 0 where
  int64 : ℕ → Value
  int : ℤ → Value
  str : Text → Value
  time : ℕ → Value
  null : Value

abbrev pub Row : Type 0
Row = List Value

module _ {ℓ} {A : Type ℓ} where
  -- for i := first; i < first + n; i++ { slots = append(slots, body(i)) }
  unfoldable pub build : ℕ → ℕ → (ℕ → A) → List A
  build zero i body = []
  build (suc n) i body = body i ∷ build n (i + 1) body

  -- An index that is in range: the callers reduce it modulo the length of a list with entries.
  abbrev pub get_or : List A → ℕ → A → A
  get_or [] i d = d
  get_or (x ∷ xs) zero d = x
  get_or (x ∷ xs) (suc i) d = get_or xs i d

  pub length-build : (n i : ℕ) (body : ℕ → A) → length (build n i body) ≡ n
  unfolding build
  length-build zero i body = refl
  length-build (suc n) i body = omega (arith, length-build n (i + 1) body)

  -- What holds of each round holds of each entry.
  pub All-build {κ} :
      (P : A → Type κ) (n i j : ℕ) (body : ℕ → A)
      → i + n ≡ j
      → ((k : ℕ) → k < j → P (body k))
      → All P (build n i body)
  unfolding build
  All-build P zero i j body e h = tt
  All-build P (suc n) i j body e h =
      (h i (omega arith), All-build P n (i + 1) j body (omega arith) h)
