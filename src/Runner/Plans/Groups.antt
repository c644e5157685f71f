-- ===== src/Runner/Plans/Groups.antt =====
-- The scenarios that `buildWorkerPlans` files under a group.
use mathlib.Core.List.{Perm, append_assoc, append-nil}
use mathlib.Core.Path.{subst}
use tidb_fk_test.Base.{
  ◌≡◌, refl, sym, ap, ◌∙◌, true, List, [], ◌∷◌, ◌++◌, if◌then◌else◌, Bool-cases, inl, inr,
}
use tidb_fk_test.Base.Order.{IsSorted, sort_by-IsSorted, sort_by-perm}
use tidb_fk_test.Scenario.Types.{Group, generic_group, billing_group, failure_probe_group}
use tidb_fk_test.Scenario.Catalog.{Scenario, meta, scenario_name}
use tidb_fk_test.Runner.Plans.{same_group, assign, group_items, by_group}

pub same_group-eq : (g h : Group) → same_group g h ≡ true → g ≡ h
same_group-eq generic_group generic_group e = refl
same_group-eq billing_group billing_group e = refl
same_group-eq failure_probe_group failure_probe_group e = refl
same_group-eq g h e = cc

-- The scenarios whose metadata names the group, as they come.
abbrev pub of_group : Group → List Scenario → List Scenario
of_group g [] = []
of_group g (item ∷ items) =
    let rest = of_group g items in if same_group (meta item).group g then item ∷ rest else rest

-- Exactly the scenarios of the group, each as often as it comes, sorted by name.
abbrev pub IsGroupOf : Group → List Scenario → List Scenario → Type 0
IsGroupOf g items group = Perm group (of_group g items) × IsSorted scenario_name group

group_items-of_group :
    (items : List Scenario) (m : Group → List Scenario) (g : Group)
    → group_items items m g ≡ m g ++ of_group g items
unfolding group_items
group_items-of_group [] m g = sym (append-nil (m g))
group_items-of_group (item ∷ items) m g =
    let group = (meta item).group in
    let more = group_items-of_group items (assign group (m group ++ item ∷ []) m) g in
    elim (Bool-cases (same_group group g)) [
      | inl e ↦
          let same : m group ≡ m g = ap m (same_group-eq group g e) in
          more ∙ rw (e, same) (append_assoc (m g) (item ∷ []) (of_group g items))
      | inr e ↦ more ∙ rw e refl
    ]

pub by_group-IsGroupOf : (items : List Scenario) (g : Group) → IsGroupOf g items (by_group items g)
unfolding by_group
by_group-IsGroupOf items g = (
  subst (Perm (by_group items g)) (group_items-of_group items (λ h. []) g)
      (sort_by-perm scenario_name (group_items items (λ h. []) g)),
  sort_by-IsSorted scenario_name (group_items items (λ h. []) g),
)
