-- ===== src/Runner/Plans.antt =====
-- `buildWorkerPlans` and `nextScenario` of internal/runner/engine.go.
pub mod Groups
pub mod Ready
pub mod Rounds
use tidb_fk_test.Base.{
  ℕ, ◌+◌, ◌%◌, Bool, true, false, Option, none, some, List, [], ◌∷◌, ◌++◌, Text, codes, length,
  get_elem?, if◌then◌else◌,
}
use tidb_fk_test.Base.Order.{sort_by}
use tidb_fk_test.Base.Errors.{Error, new_error}
use tidb_fk_test.Db.Session.{Outcome, ok, failed}
use tidb_fk_test.Scenario.Types.{Group, generic_group, billing_group, failure_probe_group}
use tidb_fk_test.Scenario.Catalog.{Scenario, meta, scenario_name}
use tidb_fk_test.Scenario.Steps.{is_nil}
use tidb_fk_test.Runner.Scheduler.{Worker}

-- Tests of keys of a Go map with the groups for keys.
abbrev pub same_group : Group → Group → Bool
same_group generic_group generic_group = true
same_group billing_group billing_group = true
same_group failure_probe_group failure_probe_group = true
same_group _ _ = false

abbrev pub group_name : Group → Text
group_name generic_group = codes "generic_success"
group_name billing_group = codes "billing_success"
group_name failure_probe_group = codes "expected_failure_probe"

pub record WorkerPlan : Type 0 where
  pub worker : Worker
  pub scenarios : List Scenario
  pub next : ℕ

-- m[group] = value, on a Go map whose missing keys read as the zero value.
abbrev pub assign {ℓ} : {A : Type ℓ} → Group → A → (Group → A) → Group → A
assign group value m g = if same_group group g then value else m g

-- byGroup[meta.Group] = append(byGroup[meta.Group], item), for each item
unfoldable pub group_items : List Scenario → (Group → List Scenario) → Group → List Scenario
unfolding meta
group_items [] m = m
group_items (item ∷ items) m =
    let group = (meta item).group in group_items items (assign group (m group ++ item ∷ []) m)

-- The map, with the items of each group sorted by name.
unfoldable pub by_group : List Scenario → Group → List Scenario
unfolding group_items sort_by meta
by_group items group = sort_by scenario_name (group_items items (λ g. []) group)

abbrev pub no_scenarios : Group → Error
no_scenarios group =
    new_error
      (codes "no scenarios registered for worker group \"" ++ (group_name group ++ codes "\""))

-- The loop over the workers; a plan is put in front of those of the workers behind it.
abbrev pub prepend_plan : WorkerPlan → Outcome (List WorkerPlan) → Outcome (List WorkerPlan)
prepend_plan plan (ok plans) = ok (plan ∷ plans)
prepend_plan plan (failed e) = failed e

unfoldable pub plan_workers :
    (Group → List Scenario) → (Group → ℕ) → List Worker → Outcome (List WorkerPlan)
plan_workers items offsets [] = ok []
plan_workers items offsets (worker ∷ rest) =
    let group = worker.group in
    let offset = offsets group in
    let plans = plan_workers items (assign group (offset + 1) offsets) rest in
    if is_nil (items group)
    then failed (no_scenarios group)
    else prepend_plan
        (record { worker = worker; scenarios = items group; next = offset % length (items group) })
        plans

unfoldable pub build_worker_plans : List Scenario → List Worker → Outcome (List WorkerPlan)
unfolding by_group plan_workers
build_worker_plans all workers = plan_workers (by_group all) (λ g. 0) workers

abbrev step_plan : WorkerPlan → Option Scenario → Option (Scenario × WorkerPlan)
step_plan p none = none
step_plan p (some item) = some (item, record p { next = (p.next + 1) % length p.scenarios })

-- `none` is the panic on an index out of range.
unfoldable pub next_scenario : WorkerPlan → Option (Scenario × WorkerPlan)
next_scenario p = step_plan p (get_elem? p.scenarios p.next)
