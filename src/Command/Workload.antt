-- ===== src/Command/Workload.antt =====
-- `runWorkload` and `runFinalChecks`: what is done before the engine runs, and behind its end. What the
-- workers do between the two is the step relation of Runner.Engine.
pub mod Starts
pub use tidb_fk_test.Base.{
  ℕ, ℤ, pos, Bool, true, false, Option, none, some, List, [], ◌∷◌, ◌++◌, length, Text, codes,
  if◌then◌else◌,
}
use tidb_fk_test.Base.Errors.{Error, is_error, canceled}
use tidb_fk_test.Base.Ints.{of_bits}
use tidb_fk_test.Config.{Config}
use tidb_fk_test.Db.Session.{Outcome, ok, failed, QueryRowContext, BeginTx}
use tidb_fk_test.Scenario.Catalog.{Scenario}
use tidb_fk_test.Scenario.Registry.{Registry, all}
use tidb_fk_test.Seed.Apply.Phases.{AppliedState, seed_plan_version, build_applied_state}
use tidb_fk_test.Report.Summary.{Summary, new_summary, scenarios}
use tidb_fk_test.Report.Progress.{new_progress_reporter, Snapshot, build_snapshot}
use tidb_fk_test.Runner.Scheduler.{Scheduler, new_scheduler, total_workers}
use tidb_fk_test.Runner.Step.{run_phase}
use tidb_fk_test.Runner.Engine.{EngineConfig}
use tidb_fk_test.Checker.{CheckSummary, run_checks}
use tidb_fk_test.Logging.{LogEntry, int, duration, string}
use tidb_fk_test.Command.Output.{run_summary_text, checker_summary_text, interrupted_notice}
use tidb_fk_test.Command.Process.{Process, Calls, ◌>>=◌, ◌>>◌, may_fail, print, info}

-- The context of the command, and the fresh one, with a timeout, behind an interruption.
pub data Ctx : Type 0 where
  command_ctx finalize_ctx : Ctx

abbrev starting_entry : Config → Snapshot → ℕ → LogEntry
starting_entry cfg initial scenario_count = record {
  message = codes "starting tidb-fk-test";
  args =
      (codes "seed_plan_version", int (pos seed_plan_version))
      ∷ (codes "total_workers", int (total_workers (new_scheduler cfg)))
      ∷ (codes "progress_report_interval", duration cfg.progress_report_interval)
      ∷ (codes "duration", duration cfg.run_duration)
      ∷ (codes "initial_phase", string initial.phase)
      ∷ (codes "initial_executed", int (of_bits initial.total_executed))
      ∷ (codes "scenario_count", int (pos scenario_count))
      ∷ [];
}

-- What `NewEngine` is given. The clock and the error logger are those of `Runner.Step.Env`.
unfoldable pub engine_config : {S : Type 0} → Config → Registry → BeginTx S → EngineConfig S
unfolding build_applied_state new_summary all
engine_config cfg registry begin_tx = record {
  session = some begin_tx;
  registry = some registry;
  scheduler = new_scheduler cfg;
  seed_state = record {
    generic = (build_applied_state cfg).generic;
    billing = (build_applied_state cfg).billing;
  };
  summary = some (new_summary (all registry));
  progress = new_progress_reporter cfg.progress_report_interval;
  run_duration = cfg.run_duration;
}

-- The log line at the start; `now` is the time that the command passes.
unfoldable pub log_start : {S : Type 0} → Config → Registry → ℕ → Calls S (Unit {0})
unfolding build_snapshot total_workers new_summary all of_bits codes
log_start cfg registry now = info (
    starting_entry cfg
      (build_snapshot run_phase (total_workers (new_scheduler cfg))
        (some (new_summary (all registry))) now)
      (length (all registry)))

module _ {S : Type 0} (query : Ctx → QueryRowContext S) (tabulate : Text → Text) where
  unfoldable pub run_final_checks : Ctx → AppliedState → Summary → Calls S (Unit {0})
  unfolding run_checks checker_summary_text
  run_final_checks ctx applied summary = do
    checked ← may_fail (run_checks (query ctx) applied (some summary))
    print (checker_summary_text tabulate checked)

  module _ (cfg : Config) (summary : Summary) (now : ℕ) where
    unfoldable pub print_run_summary : Calls S (Unit {0})
    unfolding run_summary_text build_snapshot total_workers scenarios
    print_run_summary = print (
        run_summary_text tabulate
          (build_snapshot run_phase (total_workers (new_scheduler cfg)) (some summary) now)
          (scenarios summary))

    abbrev interrupted : Calls S (Unit {0})
    interrupted = do
      print interrupted_notice
      print_run_summary
      run_final_checks finalize_ctx (build_applied_state cfg) summary

    abbrev finished : Calls S (Unit {0})
    finished = do print_run_summary; run_final_checks command_ctx (build_applied_state cfg) summary

    abbrev fails : Error → Calls S (Unit {0})
    fails e p = (failed e, p)

    -- The part behind `engine.Run`, for the error that it returned and the summary that the workers
    -- have left.
    unfoldable pub finish_workload : Option Error → Calls S (Unit {0})
    unfolding print_run_summary run_final_checks build_applied_state interrupted_notice
    finish_workload none p = finished p
    finish_workload (some e) p = if is_error (some e) canceled then interrupted p else fails e p
