-- ===== src/Scenario/Registry/Laws.antt =====
-- What the registry of internal/scenario/registry.go promises.
use mathlib.Core.List.{Perm, append_assoc, append-nil}
use mathlib.Core.List.Perm
use mathlib.Core.Path.{subst}
use tidb_fk_test.Base.{
  ◌≡◌, ◌≢◌, refl, true, none, some, List, [], ◌∷◌, ◌++◌, ap, sym, Bool-cases, map, if◌then◌else◌,
  Text, text_eq, codes, arith, inl, inr, ◌⊎◌, Option-cases,
}
use tidb_fk_test.Base.Maps.{Map, lookup, insert, lookup-insert, values}
use tidb_fk_test.Base.Order.{IsSorted, sort_by-IsSorted, sort_by-perm}
use tidb_fk_test.Model.{is_empty}
use tidb_fk_test.Scenario.Catalog.{Scenario, scenario_name}
use tidb_fk_test.Scenario.Registry.{Registry, get, add, add_all, registered, new_registry, all}

is_empty→eq : (t : Text) → is_empty t ≡ true → t ≡ []
is_empty→eq [] h = refl
is_empty→eq (c ∷ t) h = cc

-- `add` panics exactly on an empty name or on one that is taken; otherwise the scenario is found
-- under its name, and every other name gives what it gave before.
pub add_lem :
    (r : Registry) (s : Scenario)
    → ((add r s ≡ none) × ((scenario_name s ≡ []) ⊎ (get r (scenario_name s) ≢ none)))
      ⊎ ((q : Registry) × (add r s ≡ some q)
          × (scenario_name s ≢ [])
          × (get r (scenario_name s) ≡ none)
          × ((name : Text)
              → get q name ≡ (if text_eq (scenario_name s) name then some s else get r name)))
unfolding add get
add_lem r s = elim (Bool-cases (is_empty (scenario_name s))) [
  | inl e ↦ inl (rw e, inl (is_empty→eq (scenario_name s) e))
  | inr e ↦ elim (Option-cases (lookup (scenario_name s) r.items)) [
    | inr (old, f) ↦ inl (rw (e, f), inr (λ g. cc))
    | inl f ↦ inr (
      record { items = insert (scenario_name s) s r.items },
      rw (e, f),
      (λ g. let h : is_empty (scenario_name s) ≡ true = ap is_empty g in cc),
      f,
      λ name. lookup-insert (scenario_name s) name s r.items,
    )
  ]
]

-- A new entry is one more value.
insert-perm :
    (k : Text) (s : Scenario) (m : Map Scenario)
    → lookup k m ≡ none
    → Perm (values (insert k s m)) (values m ++ s ∷ [])
unfolding lookup insert
insert-perm k s [] h = Perm.refl (s ∷ [])
insert-perm k s ((j, v) ∷ m) h = elim (Bool-cases (text_eq j k)) [
  | inl e ↦ absurd (cc (rw e at h))
  | inr e ↦ rw e (Perm.cons v (insert-perm k s m (rw e at h)))
]

add_inversion :
    (r q : Registry) (s : Scenario)
    → add r s ≡ some q
    → (lookup (scenario_name s) r.items ≡ none) × (q.items ≡ insert (scenario_name s) s r.items)
unfolding add
add_inversion r q s h = ground arith

add_all-perm :
    (r q : Registry) (ss : List Scenario)
    → add_all r ss ≡ some q
    → Perm (values q.items) (values r.items ++ ss)
unfolding add_all
add_all-perm r q [] h =
    let e : r ≡ q = cc in
    subst (λ (t : Registry). Perm (values t.items) (values r.items ++ [])) e
      (subst (Perm (values r.items)) (sym (append-nil (values r.items)))
        (Perm.refl (values r.items)))
add_all-perm r q (s ∷ ss) h = elim (Option-cases (add r s)) [
  | inl e ↦ absurd (cc (rw (e, add_all) at h))
  | inr (t, e) ↦
      let (fresh, items) = add_inversion r t s e in
      let step : Perm (values t.items) (values r.items ++ s ∷ []) =
        rw items (insert-perm (scenario_name s) s r.items fresh) in
      Perm.trans (add_all-perm t q ss (rw (e, add_all) at h)) (
        subst (Perm (values t.items ++ ss)) (append_assoc (values r.items) (s ∷ []) ss)
          (Perm.append step (Perm.refl ss)))
]

-- A registry that was filled without a panic lists, with `All`, exactly the scenarios that were
-- added, each as often as it was added, and sorted by name.
pub all_lem :
    (ss : List Scenario) (r : Registry)
    → add_all (record { items = [] }) ss ≡ some r
    → Perm (all r) ss × IsSorted scenario_name (all r)
unfolding all
all_lem ss r h = (
  Perm.trans (sort_by-perm scenario_name (values r.items))
      (add_all-perm (record { items = [] }) r ss h),
  sort_by-IsSorted scenario_name (values r.items),
)

unfoldable pub registry : Registry
unfolding new_registry
registry = record { items = map (λ s. (scenario_name s, s)) registered }

-- `NewRegistry` does not panic.
pub new_registry_lem : new_registry ≡ some registry
unfolding new_registry registry codes text_eq
new_registry_lem = refl
