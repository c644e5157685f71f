-- ===== src/Command/Flow/Tests.antt =====
-- Concrete runs of the commands.
use tidb_fk_test.Base.{
  List, length, pos, ◌≡◌, ◌⊎◌, refl, ap, Bool, false, true, Option, none, some, [], ◌∷◌, codes,
  Text,
}
use tidb_fk_test.Base.Errors.{Error, new_error}
use tidb_fk_test.Base.Spaces.{trim_space}
use tidb_fk_test.Config.{Config, default}
use tidb_fk_test.Db.Session.{BeginTx, Outcome, ok, failed}
use tidb_fk_test.Seed.Apply.Phases.{build_applied_state}
use tidb_fk_test.Seed.Metadata.{PreparedMetadata, no_metadata}
use tidb_fk_test.Scenario.Registry.Laws.{registry, new_registry_lem}
use tidb_fk_test.Runner.Scheduler.{new_scheduler, append_groups, total_workers}
use tidb_fk_test.Runner.Plans.{WorkerPlan}
use tidb_fk_test.Runner.Engine.{started, start}
use tidb_fk_test.Command.Workload.{engine_config}
use tidb_fk_test.Command.Workload.Starts.{engine_config-starts}
use tidb_fk_test.Command.Nodes.{parse_nodes}
use tidb_fk_test.Command.Options.{RunOptions, build_run_config}
use tidb_fk_test.Command.Process.{Process}
use tidb_fk_test.Command.Flow.{
  Deps, Os, new_error_logger, workload, with_config, with_metadata, with_run_cluster, with_logger,
  run_command,
}
use tidb_fk_test.Command.Flow.Failures.{IsLogged, run_command-IsLogged}
use tidb_fk_test.Command.Flow.Closes.{ClosesConns, run_command-Closed}
use tidb_fk_test.Command.Flow.Success.{HasRun, run_command-HasRun}

abbrev quote : Text → Text
quote t = t

abbrev options : RunOptions
options = record {
  connection = record {
    nodes = b'h' ∷ b':' ∷ b'1' ∷ [];
    user = b'u' ∷ [];
    password = [];
    db = b'd' ∷ [];
  };
  duration = pos 3;
  progress_report_interval = pos 1;
  generic_workers = pos 4;
  billing_workers = pos 3;
  failure_probe_workers = pos 1;
}

abbrev metadata : PreparedMetadata
metadata = record {
  seed_plan_version = pos 1;
  seed_parent_rows_per_table = pos 3;
  seed_hot_parent_keys = pos 2;
  prepared_at = none;
}

-- The world says whether the cluster is open. `validates` is what the validation returns.
abbrev deps : Option Error → Deps Bool (Unit {0})
deps validates = record {
  now = λ s. (5, s);
  open_cluster = λ dsns s. (ok tt, true);
  close = λ db s. false;
  prepare = λ cfg db s. (ok (build_applied_state cfg), s);
  run = λ cfg at db p. (ok tt, p);
  read_prepared_metadata = λ db s. (ok metadata, s);
  validate_prepared = λ db applied s. (validates, s);
}

abbrev os : Os Bool
os = record {
  mkdir_all = λ name s. (none, s);
  open_append = λ name s. (none, s);
  close_file = λ name s. s;
  unix = λ at. pos at;
}

abbrev fresh : Process Bool
fresh = record {
  world = false;
  stdout = [];
  stderr = [];
  info_log = [];
  error_log = [];
  last_error_log_path = [];
}

abbrev missing : Error
missing = new_error (codes "probe summary row is missing; run prepare first")

abbrev failed_run : Outcome (Unit {0}) × Process Bool
failed_run = run_command (deps (some missing)) os quote options fresh

run_fails : failed_run.0 ≡ failed missing
unfolding run_command with_logger with_run_cluster with_metadata with_config workload
    new_error_logger build_run_config codes trim_space parse_nodes
run_fails = refl

run_command-IsLogged_example :
    (new_error_logger (deps (some missing)) os quote 5 fresh ≡ (failed missing, failed_run.1))
    ⊎ IsLogged (deps (some missing)) os quote options missing failed_run.1
run_command-IsLogged_example =
    run_command-IsLogged (deps (some missing)) os quote options fresh failed_run.1 missing
      (ap (λ o. (o, failed_run.1)) run_fails)

closes : ClosesConns (deps (some missing)) os quote (λ s. s ≡ false)
closes = record {
  open_fails = λ dsns e s t f h. absurd (cc);
  close = λ dsns db r s t h. refl;
  now = λ s h. h;
  mkdir_all = λ name s h. h;
  open_append = λ name s h. h;
  close_file = λ name s h. h;
}

run_command-Closed_example : failed_run.1.world ≡ false
run_command-Closed_example =
    run_command-Closed (deps (some missing)) os quote (λ s. s ≡ false) closes options fresh refl

abbrev good_run : Outcome (Unit {0}) × Process Bool
good_run = run_command (deps none) os quote options fresh

run_succeeds : good_run.0 ≡ ok tt
unfolding run_command with_logger with_run_cluster with_metadata with_config workload
    new_error_logger build_run_config codes trim_space parse_nodes
run_succeeds = refl

run_command-HasRun_example :
    (base : Config) × (db : Unit {0}) × (s : Bool) × (t : Bool) × (build_run_config quote options
        no_metadata
      ≡ ok base)
    × ((deps none).open_cluster base.dsn s ≡ (ok db, t))
    × HasRun (deps none) os quote options db
run_command-HasRun_example =
    run_command-HasRun (deps none) os quote options fresh good_run.1 tt
      (ap (λ o. (o, good_run.1)) run_succeeds)

-- A session that begins no transaction.
abbrev no_tx : BeginTx Bool
no_tx s = (failed missing, s)

engine_config-starts_example :
    (plans : List WorkerPlan) × (start (engine_config default registry no_tx) ≡ started plans)
    × (length plans ≡ length (append_groups (new_scheduler default)).workers)
unfolding total_workers
engine_config-starts_example =
    engine_config-starts default registry no_tx new_registry_lem refl refl
