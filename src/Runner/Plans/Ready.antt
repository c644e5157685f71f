-- ===== src/Runner/Plans/Ready.antt =====
-- The plans that `buildWorkerPlans` makes.
use tidb_fk_test.Base.{
  ℕ, zero, suc, ◌+◌, ◌%◌, ◌<◌, ◌≡◌, refl, ap, ◌⊎◌, inl, inr, true, false, some, List, [], ◌∷◌,
  if◌then◌else◌, Bool-cases, arith, length, get_elem?, take, In, codes, text_eq,
}
use tidb_fk_test.Base.Strings.{text_leb}
use tidb_fk_test.Db.Session.{Outcome, ok, failed}
use tidb_fk_test.Scenario.Types.{Group, generic_group, billing_group, failure_probe_group}
use tidb_fk_test.Scenario.Catalog.{Scenario}
use tidb_fk_test.Scenario.Steps.{is_nil}
use tidb_fk_test.Scenario.Registry.{Registry, new_registry, all}
use tidb_fk_test.Scenario.Registry.Laws.{registry, new_registry_lem}
use tidb_fk_test.Runner.Scheduler.{Worker}
use tidb_fk_test.Runner.Plans.Groups.{IsGroupOf, same_group-eq, by_group-IsGroupOf}
use tidb_fk_test.Runner.Plans.{
  same_group, assign, WorkerPlan, no_scenarios, by_group, plan_workers, build_worker_plans,
}

-- The workers of a group.
abbrev pub count_group : Group → List Worker → ℕ
count_group group [] = 0
count_group group (w ∷ ws) =
    let rest = count_group group ws in if same_group w.group group then suc rest else rest

-- The plan of worker `i`: the scenarios of its group, from an offset that is one higher for each
-- worker of the group before it.
abbrev pub plan_at : (Group → List Scenario) → (Group → ℕ) → List Worker → ℕ → Worker → WorkerPlan
plan_at items offsets workers i worker = record {
  worker = worker;
  scenarios = items worker.group;
  next =
      (offsets worker.group + count_group worker.group (take i workers))
      % length (items worker.group);
}

abbrev pub AreReady : (Group → List Scenario) → (Group → ℕ) → List Worker → List WorkerPlan → Type 0
AreReady items offsets workers plans =
    (length plans ≡ length workers)
    × ((i : ℕ) (w : Worker)
        → get_elem? workers i ≡ some w
        → (0 < length (items w.group))
          × (get_elem? plans i ≡ some (plan_at items offsets workers i w)))

-- Some worker's group has no scenario, and the error names it.
abbrev pub Lacks : (Group → List Scenario) → List Worker → Outcome (List WorkerPlan) → Type 0
Lacks items workers r =
    (w : Worker) × In w workers × (items w.group ≡ []) × (r ≡ failed (no_scenarios w.group))

is_nil-eq : {A : Type 0} (xs : List A) → is_nil xs ≡ true → xs ≡ []
is_nil-eq [] h = refl
is_nil-eq (x ∷ xs) h = cc

not-nil : {A : Type 0} (xs : List A) → is_nil xs ≡ false → 0 < length xs
not-nil [] h = absurd (cc)
not-nil (x ∷ xs) h = omega arith

offset-step :
    (offsets : Group → ℕ) (g h : Group) (c : ℕ)
    → assign g (offsets g + 1) offsets h + c ≡ offsets h + (if same_group g h then suc c else c)
offset-step offsets g h c = elim (Bool-cases (same_group g h)) [
  | inl e ↦ let f : offsets g ≡ offsets h = ap offsets (same_group-eq g h e) in rw e (omega arith)
  | inr e ↦ rw e refl
]

AreReady-cons :
    (items : Group → List Scenario) (offsets : Group → ℕ) (w : Worker) (ws : List Worker)
    (plans : List WorkerPlan)
    → 0 < length (items w.group)
    → AreReady items (assign w.group (offsets w.group + 1) offsets) ws plans
    → AreReady items offsets (w ∷ ws) (plan_at items offsets (w ∷ ws) 0 w ∷ plans)
AreReady-cons items offsets w ws plans h (l, r) = (ap suc l, at)
  where
    at :
        (i : ℕ) (v : Worker)
        → get_elem? (w ∷ ws) i ≡ some v
        → (0 < length (items v.group))
          × (get_elem? (plan_at items offsets (w ∷ ws) 0 w ∷ plans) i
              ≡ some (plan_at items offsets (w ∷ ws) i v))
    at zero v e = let same : w ≡ v = cc in rw (← same) (h, refl)
    at (suc i) v e =
        let (p, q) = r i v e in
        let sum : assign w.group (offsets w.group + 1) offsets v.group
              + count_group v.group (take i ws)
            ≡ offsets v.group + count_group v.group (take (suc i) (w ∷ ws)) =
          offset-step offsets w.group v.group (count_group v.group (take i ws)) in
        (p, rw (← sum) q)

plan_workers_lem :
    (items : Group → List Scenario) (offsets : Group → ℕ) (ws : List Worker)
    → Lacks items ws (plan_workers items offsets ws)
      ⊎ ((plans : List WorkerPlan) × (plan_workers items offsets ws ≡ ok plans)
          × AreReady items offsets ws plans)
unfolding plan_workers
plan_workers_lem items offsets [] = inr ([], refl, (refl, λ i w e. absurd (cc)))
plan_workers_lem items offsets (w ∷ ws) = elim (Bool-cases (is_nil (items w.group))) [
  | inl e ↦ inl (w, inl refl, is_nil-eq _ e, rw e refl)
  | inr e ↦ elim (plan_workers_lem items (assign w.group (offsets w.group + 1) offsets) ws) [
    | inl (v, m, empty, f) ↦ inl (v, inr m, empty, rw (e, f) refl)
    | inr (plans, f, ready) ↦ inr (
      plan_at items offsets (w ∷ ws) 0 w ∷ plans,
      (let z : offsets w.group + 0 ≡ offsets w.group = omega arith in rw (e, f, z) refl),
      AreReady-cons items offsets w ws plans (not-nil _ e) ready,
    )
  ]
]

-- Where some worker's group has no scenario, `buildWorkerPlans` returns the error that names such a
-- group. Otherwise it gives a plan for each worker, in order: the scenarios of the group, of which
-- there is one at least, from the one that the number of workers of the group before it gives,
-- modulo their number. The scenarios of a group are those whose metadata names it, each as often as
-- it comes, sorted by name.
pub build_worker_plans_lem :
    (items : List Scenario) (ws : List Worker)
    → ((g : Group) → IsGroupOf g items (by_group items g))
      × (Lacks (by_group items) ws (build_worker_plans items ws)
          ⊎ ((plans : List WorkerPlan) × (build_worker_plans items ws ≡ ok plans)
              × AreReady (by_group items) (λ g. 0) ws plans))
unfolding build_worker_plans
build_worker_plans_lem items ws =
    (by_group-IsGroupOf items, plan_workers_lem (by_group items) (λ g. 0) ws)

registered-groups : (g : Group) → is_nil (by_group (all registry) g) ≡ false
unfolding registry all by_group codes text_eq text_leb
registered-groups generic_group = refl
registered-groups billing_group = refl
registered-groups failure_probe_group = refl

-- With the scenarios of `NewRegistry` every list of workers, of any of the three groups, gets its
-- plans.
pub registered_plans :
    (r : Registry) (ws : List Worker)
    → new_registry ≡ some r
    → (plans : List WorkerPlan) × (build_worker_plans (all r) ws ≡ ok plans)
      × AreReady (by_group (all r)) (λ g. 0) ws plans
registered_plans r ws h =
    let same : registry ≡ r = cc (new_registry_lem, h) in
    let (groups, found) = build_worker_plans_lem (all r) ws in
    elim found [
      | inr ready ↦ ready
      | inl (w, _, empty, _) ↦ absurd (cc (rw (← same) at empty, registered-groups w.group))
    ]
