-- ===== src/Runner/Engine.antt =====
-- `Run` of internal/runner/engine.go, with the goroutines that it starts. A goroutine of a worker runs
-- `workerLoop`; its program counter says which call comes next, and each call is one step, so that
-- the calls of the workers interleave in any order.
pub mod Alone
pub mod Ranks
pub mod Ends
pub mod Invariant
pub mod Pending
pub mod Safe
pub mod Starts
mod Tests
use tidb_fk_test.Base.{
  ℕ, ℤ, pos, Bool, true, false, Option, none, some, List, [], ◌∷◌, ◌++◌, map, Text, codes, ◌≡◌, ◌≢◌,
  if◌then◌else◌,
}
use tidb_fk_test.Base.Errors.{Error, new_error}
use tidb_fk_test.Base.Ints.{ltb_ℤ}
use tidb_fk_test.Base.Maps.{lookup, insert, or_else}
use tidb_fk_test.Db.Session.{Outcome, ok, failed, Tx, BeginTx}
use tidb_fk_test.Scenario.Types.{SeedState}
use tidb_fk_test.Scenario.Catalog.{Scenario, meta, run}
use tidb_fk_test.Scenario.Steps.{RunResult}
use tidb_fk_test.Scenario.Registry.{Registry, all}
use tidb_fk_test.Report.Progress.{ProgressReporter, Snapshot, emit_snapshot}
use tidb_fk_test.Report.Summary.{Summary, record_classified}
use tidb_fk_test.Runner.Scheduler.{Scheduler, Worker, workers}
use tidb_fk_test.Runner.Plans.{WorkerPlan, next_scenario, build_worker_plans}
use tidb_fk_test.Runner.Step.{Env, Shared, run_phase, should_stop, report_error}

pub record EngineConfig (S : Type 0) : Type 0 where
  pub session : Option (BeginTx S)
  pub registry : Option Registry
  pub scheduler : Scheduler
  pub seed_state : SeedState
  pub summary : Option Summary
  pub progress : ProgressReporter
  pub run_duration : ℤ

abbrev check_duration : ℤ → Option Error
check_duration d =
    if ltb_ℤ d (pos 0)
    then some (new_error (codes "runner engine duration must be non-negative"))
    else none

abbrev check_summary : {A : Type 0} → Option A → ℤ → Option Error
check_summary none d = some (new_error (codes "runner engine requires a report summary"))
check_summary (some x) d = check_duration d

abbrev check_registry : {A B : Type 0} → Option A → Option B → ℤ → Option Error
check_registry none y d = some (new_error (codes "runner engine requires a scenario registry"))
check_registry (some x) y d = check_summary y d

abbrev check_session : {A B C : Type 0} → Option A → Option B → Option C → ℤ → Option Error
check_session none x y d = some (new_error (codes "runner engine requires a session"))
check_session (some s) x y d = check_registry x y d

unfoldable pub validate : {S : Type 0} → EngineConfig S → Option Error
unfolding codes
validate cfg = check_session cfg.session cfg.registry cfg.summary cfg.run_duration

-- What `Run` does before it starts goroutines: a panic of `Workers`, an error, or the plans.
pub data Started : Type 0 where
  panicked : Started
  refused : Error → Started
  started : List WorkerPlan → Started

abbrev planned : Outcome (List WorkerPlan) → Started
planned (failed e) = refused e
planned (ok plans) = started plans

abbrev plan_for : List Scenario → Option (List Worker) → Started
plan_for items none = panicked
plan_for items (some ws) = planned (build_worker_plans items ws)

abbrev all_of : Option Registry → List Scenario
all_of none = []
all_of (some r) = all r

abbrev validated : {S : Type 0} → EngineConfig S → Option Error → Started
validated cfg (some e) = refused e
validated cfg none = plan_for (all_of cfg.registry) (workers cfg.scheduler)

unfoldable pub start : {S : Type 0} → EngineConfig S → Started
unfolding validate workers build_worker_plans all
start cfg = validated cfg (validate cfg)

-- Which case of the last `select` comes first, and what `Run` returns behind `wg.Wait()`.
pub data Finish : Type 0 where
  ctx_done : Error → Finish
  duration_over : Finish

abbrev pub run_error : Finish → Option Error
run_error (ctx_done e) = some e
run_error duration_over = none

-- Where a goroutine of a worker stands: at the top of the loop; in `runWorkerStep`, before the check
-- of the stop flag, `BeginTx`, `Run` and `Commit`; before the `Rollback` behind an error; before the report of an error, or of a
-- success; behind its return; and behind the panic of an index out of range.
pub data Pc (S : Type 0) : Type 0 where
  top : WorkerPlan → Pc S
  checks : WorkerPlan → Scenario → Pc S
  begins : WorkerPlan → Scenario → Pc S
  runs : WorkerPlan → Scenario → Tx S → Pc S
  commits : WorkerPlan → Scenario → Tx S → Pc S
  rolls_back : WorkerPlan → Scenario → Tx S → Text → Error → Pc S
  reports : WorkerPlan → Scenario → Text → Error → Pc S
  records : WorkerPlan → Scenario → Pc S
  returned : Pc S
  crashed : Pc S

module _ {S : Type 0} (env : Env S) where
  abbrev pub taken : Option (Scenario × WorkerPlan) → Pc S
  taken none = crashed
  taken (some (item, plan)) = checks plan item

  abbrev pub begun_pc : WorkerPlan → Scenario → Outcome (Tx S) → Pc S
  begun_pc plan item (failed e) = reports plan item (codes "begin_tx") e
  begun_pc plan item (ok tx) = runs plan item tx

  abbrev pub run_pc : WorkerPlan → Scenario → Tx S → Option Error → Pc S
  run_pc plan item tx (some e) = rolls_back plan item tx (codes "run") e
  run_pc plan item tx none = commits plan item tx

  abbrev pub committed_pc : WorkerPlan → Scenario → Tx S → Option Error → Pc S
  committed_pc plan item tx (some e) = rolls_back plan item tx (codes "commit") e
  committed_pc plan item tx none = records plan item

  abbrev pub in_world : Shared S → S → Shared S
  in_world st s = record st { world = s }

  -- One step of worker `id`.
  unfoldable pub move : ℕ → Pc S → Shared S → Pc S × Shared S
  unfolding should_stop next_scenario meta run report_error record_classified lookup insert codes
  move id (top plan) st =
      if should_stop env st.world then (returned, st) else (taken (next_scenario plan), st)
  move id (checks plan item) st =
      if should_stop env st.world then (top plan, st) else (begins plan item, st)
  move id (begins plan item) st =
      let (out, s) = env.begin_tx st.world in (begun_pc plan item out, in_world st s)
  move id (runs plan item tx) st =
      let name = (meta item).name in
      let r = run tx.session item env.seed_state (or_else 0 (lookup name st.counters)) st.world in
      (
        run_pc plan item tx r.err,
        record st { world = r.world; counters = insert name r.counter st.counters },
      )
  move id (commits plan item tx) st =
      let (err, s) = tx.commit st.world in (committed_pc plan item tx err, in_world st s)
  move id (rolls_back plan item tx step e) st =
      (reports plan item step e, in_world st (tx.rollback st.world).1)
  move id (reports plan item step e) st = (top plan, report_error env id (meta item) step e st)
  move id (records plan item) st =
      let (at, s) = env.now st.world in
      (
        top plan,
        record st {
          world = s;
          summary = (record_classified env.lower (meta item) none at st.summary).0;
        },
      )
  move id returned st = (returned, st)
  move id crashed st = (crashed, st)

abbrev pub is_active : {S : Type 0} → Pc S → Bool
is_active returned = false
is_active crashed = false
is_active _ = true

-- What the workers share, and each worker with its program counter.
pub record System (S : Type 0) : Type 0 where
  pub shared : Shared S
  pub workers : List (ℕ × Pc S)

-- The workers as they are started.
abbrev pub spawned : {S : Type 0} → List WorkerPlan → List (ℕ × Pc S)
spawned plans = map (λ (plan : WorkerPlan). (plan.worker.id, top plan)) plans

module _ {S : Type 0} (env : Env S) where
  -- Worker `id` makes a step; the others stand still.
  pub record Turn (a b : System S) : Type 0 where
    pub before : List (ℕ × Pc S)
    pub id : ℕ
    pub pc : Pc S
    pub behind : List (ℕ × Pc S)
    pub active : is_active pc ≡ true
    pub from : a.workers ≡ before ++ (id, pc) ∷ behind
    pub to : b ≡ record {
      shared = (move env id pc a.shared).1;
      workers = before ++ (id, (move env id pc a.shared).0) ∷ behind;
    }

  -- A turn of some worker, or a change that another part of the program makes to the world: the
  -- request to stop, the end of the context, and what `OnProgress` does.
  pub data Step (Outside : S → S → Type 0) (a b : System S) : Type 0 where
    turn : Turn a b → Step Outside a b
    outside :
        (s : S)
        → Outside a.shared.world s
        → b ≡ record a { shared = record a.shared { world = s } }
        → Step Outside a b

  pub data Reach (Outside : S → S → Type 0) (a : System S) : System S → Type 0 where
    here : Reach Outside a a
    next : {b c : System S} → Reach Outside a b → Step Outside b c → Reach Outside a c

-- One round of `progressLoop`, at a tick.
unfoldable pub progress_tick :
    {S : Type 0} → ℕ → Option Summary → ℕ → Option (Snapshot → S → S) → S → Snapshot × S
unfolding emit_snapshot codes
progress_tick active_workers summary tick_at on_progress s =
    emit_snapshot run_phase (pos active_workers) summary tick_at on_progress s
