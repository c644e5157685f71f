-- ===== src/Seed/Integrity.antt =====
-- Referential integrity, as the CREATE TABLE statements of internal/seed declare it: the
-- specification that the fixtures are held to.
use tidb_fk_test.Base.{
  ℕ, zero, suc, ◌+◌, ◌<◌, ◌≡◌, ◌≢◌, refl, ap, ◌⊎◌, inl, inr, Bool, true, false, ◌&&◌, ◌||◌, not,
  List, [], ◌∷◌, ◌++◌, map, Text, codes, text_eq, arith, length, All, In, ◌==◌, Bool-cases,
  if◌then◌else◌,
}
use tidb_fk_test.Base.Maps.{Map, lookup, or_else}
use mathlib.Core.Path.{subst, sym}
use tidb_fk_test.Seed.Value.{Value, Row, int64, null, get_or, build}
use tidb_fk_test.Seed.Apply.Insert.{Insert}

abbrev pub column : ℕ → Row → Value
column i row = get_or row i null

-- The primary key is the first column of every table.
abbrev pub keys : List Row → List Value
keys rows = map (column 0) rows

abbrev pub IsDistinct : {A : Type 0} → List A → Type 0
IsDistinct [] = Unit
IsDistinct (x ∷ xs) = (¬ In x xs) × IsDistinct xs

-- Each row's column is NULL or the key of a row of the parents.
abbrev pub References : List Row → ℕ → List Row → Type 0
References children i parents =
    All (λ row. (column i row ≡ null) ⊎ In (column i row) (keys parents)) children

-- The FOREIGN KEY clauses: the position of the column, and the table that it refers to.
abbrev pub ForeignKey : Type 0
ForeignKey = ℕ × Text

abbrev pub foreign_keys : Map (List ForeignKey)
foreign_keys =
    (codes "child_basic", (1, codes "parent_basic") ∷ [])
    ∷ (codes "child_rebind", (1, codes "parent_basic") ∷ [])
    ∷ (codes "child_cascade", (1, codes "parent_cascade") ∷ [])
    ∷ (codes "child_hot", (1, codes "parent_hot") ∷ [])
    ∷ (codes "folio", (1, codes "customer") ∷ [])
    ∷ (codes "journal", (1, codes "customer") ∷ (2, codes "folio") ∷ [])
    ∷ (codes "posting", (1, codes "journal") ∷ [])
    ∷ (codes "bill", (1, codes "journal") ∷ (2, codes "folio") ∷ [])
    ∷ (codes "payment", (1, codes "bill") ∷ (2, codes "journal") ∷ [])
    ∷ (codes "foliobalance", (1, codes "customer") ∷ (2, codes "folio") ∷ [])
    ∷ (codes "feelog", (1, codes "journal") ∷ (2, codes "bill") ∷ [])
    ∷ (codes "statement", (1, codes "customer") ∷ (2, codes "folio") ∷ [])
    ∷ (codes "withdrawal", (1, codes "journal") ∷ (2, codes "statement") ∷ [])
    ∷ []

-- The foreign keys of a table, and the rows that the inserts before have put into one.
unfoldable pub constraints : Text → List ForeignKey
unfolding lookup codes text_eq
constraints table = or_else [] (lookup table foreign_keys)

unfoldable pub rows_of : Text → List Insert → List Row
unfolding codes text_eq
rows_of table [] = []
rows_of table (i ∷ is) =
    let rest = rows_of table is in if text_eq i.table table then i.rows ++ rest else rest

-- The inserts can be run one after the other into empty tables: no key comes twice, and each
-- foreign key finds its parent among the rows that stand there already.
pub data IsLoadable : List Insert → List Insert → Type 0 where
  done : {loaded : List Insert} → IsLoadable loaded []
  load :
      {loaded : List Insert} (i : Insert) {is : List Insert}
      → IsDistinct (keys i.rows)
      → All
          (λ (fk : ForeignKey). References i.rows fk.0 (rows_of fk.1 loaded))
          (constraints i.table)
      → IsLoadable (i ∷ loaded) is
      → IsLoadable loaded (i ∷ is)

-- Tests by evaluation, for the columns that are numerals.
abbrev same_id : Value → Value → Bool
same_id (int64 a) (int64 b) = a == b
same_id _ _ = false

same_id→eq : (v w : Value) → same_id v w ≡ true → v ≡ w
same_id→eq (int64 a) (int64 b) h = ground arith
same_id→eq v w h = cc

abbrev is_in : Value → List Value → Bool
is_in v [] = false
is_in v (w ∷ ws) = same_id v w || is_in v ws

is_in→In : (v : Value) (ws : List Value) → is_in v ws ≡ true → In v ws
is_in→In v [] h = absurd (cc)
is_in→In v (w ∷ ws) h = elim (Bool-cases (same_id v w)) [
  | inl e ↦ inl (same_id→eq v w e)
  | inr e ↦ inr (is_in→In v ws (ground arith))
]

abbrev pub all_refer : List Row → ℕ → List Row → Bool
all_refer [] i parents = true
all_refer (row ∷ rows) i parents = is_in (column i row) (keys parents) && all_refer rows i parents

-- References that a test finds.
pub References-test :
    (rows : List Row) (i : ℕ) (parents : List Row)
    → all_refer rows i parents ≡ true
    → References rows i parents
References-test [] i parents h = tt
References-test (row ∷ rows) i parents h =
    (inr (is_in→In _ (keys parents) (ground arith)), References-test rows i parents (ground arith))

abbrev differ : Value → Value → Bool
differ (int64 a) (int64 b) = not (a == b)
differ _ _ = false

differ→ne : (v w : Value) → differ v w ≡ true → v ≢ w
differ→ne (int64 a) (int64 b) h = ground arith
differ→ne v w h = cc

abbrev all_differ : Value → List Value → Bool
all_differ v [] = true
all_differ v (w ∷ ws) = differ v w && all_differ v ws

all_differ→not-In : (v : Value) (ws : List Value) → all_differ v ws ≡ true → ¬ In v ws
all_differ→not-In v [] h m = m
all_differ→not-In v (w ∷ ws) h (inl e) = differ→ne v w (ground arith) e
all_differ→not-In v (w ∷ ws) h (inr m) = all_differ→not-In v ws (ground arith) m

abbrev pub all_distinct : List Value → Bool
all_distinct [] = true
all_distinct (v ∷ vs) = all_differ v vs && all_distinct vs

-- Keys that a test tells apart.
pub IsDistinct-test : (vs : List Value) → all_distinct vs ≡ true → IsDistinct vs
IsDistinct-test [] h = tt
IsDistinct-test (v ∷ vs) h =
    (all_differ→not-In v vs (ground arith), IsDistinct-test vs (ground arith))

-- Ids that a loop computes, each from its round.
not-In-build :
    (id : ℕ → ℕ) (n i j : ℕ) (v : ℕ)
    → i + n ≡ j
    → ((k : ℕ) → i < suc k → k < j → v ≢ id k)
    → ¬ In (int64 v) (map int64 (build n i id))
unfolding build
not-In-build id zero i j v e h m = m
not-In-build id (suc n) i j v e h (inl q) = h i (omega arith) (omega arith) (cc)
not-In-build id (suc n) i j v e h (inr m) =
    not-In-build id n (i + 1) j v (omega arith) (λ k lo hi. h k (omega arith) hi) m

pub IsDistinct-build :
    (id : ℕ → ℕ) (n i j : ℕ)
    → i + n ≡ j
    → ((k l : ℕ) → k < l → l < j → id k ≢ id l)
    → IsDistinct (map int64 (build n i id))
unfolding build
IsDistinct-build id zero i j e h = tt
IsDistinct-build id (suc n) i j e h = (
  not-In-build id n (i + 1) j (id i) (omega arith) (λ k lo hi. h i k (omega arith) hi),
  IsDistinct-build id n (i + 1) j (omega arith) h,
)

-- Rows that are written out from ids have the ids for keys.
pub keys-map :
    (f : ℕ → Row) (ids : List ℕ)
    → ((id : ℕ) → column 0 (f id) ≡ int64 id)
    → keys (map f ids) ≡ map int64 ids
keys-map f [] h = refl
keys-map f (id ∷ ids) h = cc (h id, keys-map f ids h)

pub In-map : {A B : Type 0} (f : A → B) (x : A) (xs : List A) → In x xs → In (f x) (map f xs)
In-map f x [] m = m
In-map f x (y ∷ xs) (inl e) = inl (ap f e)
In-map f x (y ∷ xs) (inr m) = inr (In-map f x xs m)

pub get_or-In : (ids : List ℕ) (i d : ℕ) → i < length ids → In (get_or ids i d) ids
get_or-In [] i d h = elim h [ ]
get_or-In (x ∷ xs) zero d h = inl refl
get_or-In (x ∷ xs) (suc i) d h = inr (get_or-In xs i d (omega arith))

-- An id of the list is a key of the rows that are written out from it.
pub In-keys :
    (f : ℕ → Row) (id : ℕ) (ids : List ℕ)
    → ((k : ℕ) → column 0 (f k) ≡ int64 k)
    → In id ids
    → In (int64 id) (keys (map f ids ++ []))
In-keys f id [] h m = m
In-keys f id (j ∷ ids) h (inl e) = inl (cc (h j))
In-keys f id (j ∷ ids) h (inr m) = inr (In-keys f id ids h m)

pub IsDistinct-rows :
    (f : ℕ → Row) (ids : List ℕ)
    → ((k : ℕ) → column 0 (f k) ≡ int64 k)
    → IsDistinct (map int64 ids)
    → IsDistinct (keys (map f ids))
IsDistinct-rows f ids h d = subst IsDistinct (sym (keys-map f ids h)) d
