-- ===== src/Base/Maps.antt =====
-- A Go map with string keys, as an association list without double keys. The code never depends
-- on the order of entries.
use Prim.Native.Nat.{ℕ, ◌+◌}
use mathlib.Core.Path.{◌≡◌, refl}
use mathlib.Core.List.{List, [], ◌∷◌, map}
use mathlib.Core.Option.{Option, none, some}
use native.Mathlib.Omega.{arith}
use tidb_fk_test.Base.Tests.{if◌then◌else◌}
use tidb_fk_test.Base.Strings.{Text, text_eq, text_eq_iff}

abbrev pub Map {ℓ} : Type ℓ → Type ℓ
Map V = List (Text × V)

module _ {ℓ} {V : Type ℓ} where
  unfoldable pub lookup : Text → Map V → Option V
  lookup k [] = none
  lookup k ((j, v) ∷ m) = if text_eq j k then some v else lookup k m

  unfoldable pub insert : Text → V → Map V → Map V
  insert k v [] = (k, v) ∷ []
  insert k v ((j, w) ∷ m) = if text_eq j k then (k, v) ∷ m else (j, w) ∷ insert k v m

  abbrev pub values : Map V → List V
  values m = map (λ e. e.1) m

  abbrev pub or_else : V → Option V → V
  or_else d none = d
  or_else d (some v) = v

  pub lookup-insert :
      (k j : Text) (v : V) (m : Map V)
      → lookup j (insert k v m) ≡ (if text_eq k j then some v else lookup j m)
  unfolding lookup insert
  lookup-insert k j v [] = refl
  lookup-insert k j v ((i, w) ∷ m) =
      ground (arith, text_eq_iff k j, text_eq_iff i k, text_eq_iff i j, lookup-insert k j v m)

  abbrev pub sum_values : (V → ℕ) → Map V → ℕ
  sum_values f [] = 0
  sum_values f ((k, v) ∷ m) = f v + sum_values f m

  -- A write moves the sum by the change at its key, where a missing key counts as `d`.
  pub sum_values-insert :
      (f : V → ℕ) (d : V) (k : Text) (v : V) (m : Map V)
      → f d ≡ 0
      → sum_values f (insert k v m) + f (or_else d (lookup k m)) ≡ sum_values f m + f v
  unfolding lookup insert
  sum_values-insert f d k v [] z = omega arith
  sum_values-insert f d k v ((j, w) ∷ m) z = ground (arith, sum_values-insert f d k v m z)
