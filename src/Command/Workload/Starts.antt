-- ===== src/Command/Workload/Starts.antt =====
-- The engine that `runWorkload` makes starts.
use tidb_fk_test.Base.{◌≡◌, refl, false, some, List, length}
use tidb_fk_test.Base.Ints.{pos, ltb_ℤ}
use tidb_fk_test.Config.{Config}
use tidb_fk_test.Db.Session.{BeginTx}
use tidb_fk_test.Scenario.Registry.{Registry, new_registry}
use tidb_fk_test.Runner.Scheduler.{new_scheduler, total_workers, append_groups, workers}
use tidb_fk_test.Runner.Plans.{WorkerPlan}
use tidb_fk_test.Runner.Plans.Ready.{registered_plans}
use tidb_fk_test.Runner.Engine.{started, validate, start}
use tidb_fk_test.Command.Workload.{engine_config}

-- Where the duration is not negative, nor the sum of the counts of workers, the engine that
-- `runWorkload` makes with the scenarios of `NewRegistry` starts: it refuses nothing, does not panic,
-- and has a plan for each worker.
pub engine_config-starts :
    {S : Type 0} (cfg : Config) (r : Registry) (begin_tx : BeginTx S)
    → new_registry ≡ some r
    → ltb_ℤ cfg.run_duration (pos 0) ≡ false
    → ltb_ℤ (total_workers (new_scheduler cfg)) (pos 0) ≡ false
    → (plans : List WorkerPlan) × (start (engine_config cfg r begin_tx) ≡ started plans)
      × (length plans ≡ length (append_groups (new_scheduler cfg)).workers)
unfolding start engine_config validate workers
engine_config-starts cfg r begin_tx h d t =
    let (plans, e, ready) = registered_plans r (append_groups (new_scheduler cfg)).workers h in
    (plans, rw (d, t, e) refl, ready.0)
