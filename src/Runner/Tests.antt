-- ===== src/Runner/Tests.antt =====
-- Concrete runs of the engine's parts.
use tidb_fk_test.Base.{
  ℕ, ◌+◌, ◌%◌, ◌≡◌, ◌⊎◌, refl, false, true, pos, none, some, List, [], ◌∷◌, codes, arith, map,
  length, get_elem?,
}
use tidb_fk_test.Base.Errors.{Error, new_error}
use tidb_fk_test.Config.{default}
use tidb_fk_test.Db.Session.{Tx, ok}
use tidb_fk_test.Seed.Value.{build}
use tidb_fk_test.Seed.Generic.{generic_plan}
use tidb_fk_test.Seed.Billing.{billing_plan}
use tidb_fk_test.Scenario.Types.{Group, billing_group}
use tidb_fk_test.Scenario.Catalog.{Scenario, payment_bill_update_probe}
use tidb_fk_test.Scenario.Registry.{all}
use tidb_fk_test.Scenario.Registry.Laws.{registry, new_registry_lem}
use tidb_fk_test.Report.Summary.{new_summary}
use tidb_fk_test.Runner.Scheduler.{Worker, Scheduler, total_workers, workers}
use tidb_fk_test.Runner.Scheduler.Layout.{layout, workers_lem}
use tidb_fk_test.Runner.Plans.{WorkerPlan, by_group, build_worker_plans}
use tidb_fk_test.Runner.Plans.Rounds.{rounds, round_robin, rounds_lem}
use tidb_fk_test.Runner.Plans.Groups.{IsGroupOf}
use tidb_fk_test.Runner.Plans.Ready.{Lacks, AreReady, build_worker_plans_lem, registered_plans}
use tidb_fk_test.Runner.Step.{Env, Shared, should_stop, run_worker_step}
use tidb_fk_test.Runner.Step.Records.{Steps, run_worker_step_lem}
use tidb_fk_test.Runner.Step.Closes.{ClosesTx, run_worker_step-Closed}

abbrev scheduler : Scheduler
scheduler = record {
  generic_workers = pos 4;
  billing_workers = pos 3;
  failure_probe_workers = pos 1;
  progress_interval = pos 10;
}

workers_lem_example :
    (workers scheduler ≡ some (layout 4 3 1))
    × (total_workers scheduler ≡ pos (length (layout 4 3 1)))
    × ((i : ℕ) (w : Worker) → get_elem? (layout 4 3 1) i ≡ some w → w.id ≡ i)
workers_lem_example = workers_lem 4 3 1 (pos 10) (omega arith)

abbrev probes : List Scenario
probes = payment_bill_update_probe ∷ payment_bill_update_probe ∷ []

abbrev first_worker : Worker
first_worker = record { id = 0; group = billing_group }

rounds_lem_example :
    (done : List Scenario) × (rounds 5
        (record { worker = first_worker; scenarios = probes; next = 3 % length probes })
      ≡ some (
        done,
        record { worker = first_worker; scenarios = probes; next = (3 + 5) % length probes },
      ))
    × (map some done ≡ build 5 3 (round_robin probes))
rounds_lem_example = rounds_lem first_worker probes 3 5 (omega arith)

build_worker_plans_lem_example :
    ((g : Group) → IsGroupOf g probes (by_group probes g))
    × (Lacks (by_group probes) (first_worker ∷ []) (build_worker_plans probes (first_worker ∷ []))
        ⊎ ((plans : List WorkerPlan) × (build_worker_plans probes (first_worker ∷ []) ≡ ok plans)
            × AreReady (by_group probes) (λ g. 0) (first_worker ∷ []) plans))
build_worker_plans_lem_example = build_worker_plans_lem probes (first_worker ∷ [])

registered_plans_example :
    (plans : List WorkerPlan) × (build_worker_plans (all registry) (layout 4 3 1) ≡ ok plans)
    × AreReady (by_group (all registry)) (λ g. 0) (layout 4 3 1) plans
registered_plans_example = registered_plans registry (layout 4 3 1) new_registry_lem

-- A database of one connection: the world says how many transactions are open. Commits fail.
abbrev lost : Error
lost = new_error (codes "lost")

abbrev open_tx : Tx ℕ
open_tx = record {
  session = record {
    exec_context = λ query args s. (none, s);
    query_row_context = λ query args s. (ok 1, s);
  };
  commit = λ s. (some lost, s);
  rollback = λ s. (none, 0);
}

abbrev env : Env ℕ
env = record {
  begin_tx = λ s. (ok open_tx, 1);
  stop_requested = λ s. false;
  ctx_err = λ s. none;
  now = λ s. (7, s);
  lower = λ c. c;
  seed_state = record { generic = generic_plan default; billing = billing_plan default };
}

abbrev shared : Shared ℕ
shared = record { world = 0; summary = new_summary probes; counters = []; log = [] }

run_worker_step_lem_example :
    ((should_stop env 0 ≡ true) × (run_worker_step env 2 payment_bill_update_probe shared ≡ shared))
    ⊎ ((should_stop env 0 ≡ false)
        × Steps env 2 payment_bill_update_probe shared
            (run_worker_step env 2 payment_bill_update_probe shared))
run_worker_step_lem_example = run_worker_step_lem env 2 payment_bill_update_probe shared

abbrev Closed : ℕ → Type 0
Closed s = s ≡ 0

closes : ClosesTx env Closed
closes = record {
  begin_fails = λ e s t b h. absurd (cc);
  commit = λ tx r s t b u c. let same : open_tx ≡ tx = cc in absurd (cc (rw (← same) at c));
  rollback = λ tx r s u b. let same : open_tx ≡ tx = cc in rw (← same) refl;
  now = λ s h. h;
}

run_worker_step-Closed_example : (run_worker_step env 2 payment_bill_update_probe shared).world ≡ 0
run_worker_step-Closed_example =
    run_worker_step-Closed env Closed closes 2 payment_bill_update_probe shared refl
