-- ===== src/Command/Flow.antt =====
-- The commands `prepare` and `run`, and `runMain`. What the commands are given is a parameter: `Deps` is
-- `commandDeps`, `Os` what they use of the operating system. The parsing of the flags by cobra is not
-- modelled; `legacy_config` is the value of the flag --config.
pub mod Failures
pub mod Closes
pub mod Success
mod Tests
use tidb_fk_test.Base.{
  ℕ, ℤ, pos, negsuc, ◌==◌, Bool, true, false, Option, none, some, List, [], ◌∷◌, ◌++◌, length, Text,
  codes, if◌then◌else◌,
}
use tidb_fk_test.Base.Decimal.{show_int, show_nat}
use tidb_fk_test.Base.Errors.{Error, new_error, is_error, prepare_metadata_not_found}
use tidb_fk_test.Config.{Config}
use tidb_fk_test.Db.Session.{Outcome, ok, failed}
use tidb_fk_test.Model.{is_empty}
use tidb_fk_test.Logging.{LogEntry, int, strings}
use tidb_fk_test.Seed.Metadata.{PreparedMetadata, no_metadata}
use tidb_fk_test.Seed.Apply.Phases.{AppliedState, seed_plan_version, build_applied_state}
use tidb_fk_test.Command.Options.{
  PrepareOptions, RunOptions, build_prepare_config, build_run_config,
}
use tidb_fk_test.Command.Process.{
  Process, Calls, ◌>>=◌, ◌>>◌, pure, returns, on_world, may_fail, checks, print, info, deferring,
  logging,
}

-- `Conn` is the type of open clusters. `close` leaves out the error, which the commands drop.
pub record Deps (S Conn : Type 0) : Type 0 where
  pub now : S → ℕ × S
  pub open_cluster : List Text → S → Outcome Conn × S
  pub close : Conn → S → S
  pub prepare : Config → Conn → S → Outcome AppliedState × S
  pub run : Config → ℕ → Conn → Calls S (Unit {0})
  pub read_prepared_metadata : Conn → S → Outcome PreparedMetadata × S
  pub validate_prepared : Conn → AppliedState → S → Option Error × S

-- os.MkdirAll, os.OpenFile to append, `Close` of the file, and `Unix` of a time.
pub record Os (S : Type 0) : Type 0 where
  pub mkdir_all : Text → S → Option Error × S
  pub open_append : Text → S → Option Error × S
  pub close_file : Text → S → S
  pub unix : ℕ → ℤ

abbrev line : Text → Text
line t = t ++ codes "\n"

abbrev pub log_path : ℤ → Text
log_path seconds = codes "logs/error-" ++ (show_int seconds ++ codes ".log")

abbrev prepare_completed : Config → AppliedState → LogEntry
prepare_completed cfg applied = record {
  message = codes "prepare completed";
  args =
      (codes "nodes", int (pos (length cfg.dsn)))
      ∷ (codes "completed_phases", strings applied.completed_phases)
      ∷ (codes "seed_plan_version", int (pos seed_plan_version))
      ∷ (codes "seed_parent_rows_per_table", int cfg.seed_parent_rows_per_table)
      ∷ (codes "seed_hot_parent_keys", int cfg.seed_hot_parent_keys)
      ∷ [];
}

abbrev pub is_version : ℤ → Bool
is_version (pos n) = n == seed_plan_version
is_version (negsuc n) = false

abbrev incompatible : ℤ → Error
incompatible version = new_error (
    codes "prepare metadata seed plan version "
    ++ (show_int version
        ++ (codes " is incompatible with binary version "
            ++ (show_nat seed_plan_version ++ codes "; rerun `tidb-fk-test prepare`"))))

abbrev pub check_version : PreparedMetadata → Outcome (Unit {0})
check_version metadata =
    if is_version metadata.seed_plan_version
    then ok tt
    else failed (incompatible metadata.seed_plan_version)

abbrev pub run_prepare_first : Error
run_prepare_first = new_error (codes "prepare metadata not found: run `tidb-fk-test prepare` first")

module _ {S Conn : Type 0} (deps : Deps S Conn) (os : Os S) (quote : Text → Text) where
  -- The path of the log stands for the logger and the file too.
  unfoldable pub new_error_logger : ℕ → Calls S Text
  unfolding show_int codes
  new_error_logger at = do
    checks (os.mkdir_all (codes "logs"))
    checks (os.open_append (log_path (os.unix at)))
    pure (log_path (os.unix at))

  abbrev set_last_path : Text → Calls S (Unit {0})
  set_last_path path p = (ok tt, record p { last_error_log_path = path })

  abbrev with_prepared_cluster : Config → Conn → Calls S (Unit {0})
  with_prepared_cluster cfg db = do
    applied ← may_fail (deps.prepare cfg db)
    info (prepare_completed cfg applied)

  -- `RunE` of the command `prepare`.
  unfoldable pub prepare_command : PrepareOptions → Calls S (Unit {0})
  unfolding build_prepare_config codes
  prepare_command opts = do
    cfg ← returns (build_prepare_config quote opts)
    db ← may_fail (deps.open_cluster cfg.dsn)
    deferring (deps.close db) (with_prepared_cluster cfg db)

  -- The error that the command returns for an error of `readPreparedMetadata`.
  abbrev pub explained : Error → Error
  explained e = if is_error (some e) prepare_metadata_not_found then run_prepare_first else e

  abbrev pub explain : {A : Type 0} → Outcome A × Process S → Outcome A × Process S
  explain (ok a, p) = (ok a, p)
  explain (failed e, p) = (failed (explained e), p)

  abbrev pub read_metadata : Conn → Calls S PreparedMetadata
  read_metadata db p =
      explain
        (logging (codes "read_prepared_metadata") (may_fail (deps.read_prepared_metadata db)) p)

  -- The parts of `run` behind the opening of the cluster, from the last one on.
  unfoldable pub workload : Conn → Config → Calls S (Unit {0})
  unfolding codes
  workload db cfg = do at ← on_world deps.now; logging (codes "run_workload") (deps.run cfg at db)

  unfoldable pub with_config : Conn → Config → Calls S (Unit {0})
  unfolding workload build_applied_state codes
  with_config db cfg = do
    logging (codes "validate_prepared_state")
        (checks (deps.validate_prepared db (build_applied_state cfg)))
    workload db cfg

  unfoldable pub with_metadata : RunOptions → Conn → PreparedMetadata → Calls S (Unit {0})
  unfolding with_config build_run_config show_int show_nat codes
  with_metadata opts db metadata = do
    logging (codes "validate_prepare_metadata") (returns (check_version metadata))
    cfg ← logging (codes "build_run_config") (returns (build_run_config quote opts metadata))
    with_config db cfg

  unfoldable pub with_run_cluster : RunOptions → Conn → Calls S (Unit {0})
  unfolding with_metadata codes
  with_run_cluster opts db = do metadata ← read_metadata db; with_metadata opts db metadata

  unfoldable pub with_logger : RunOptions → Calls S (Unit {0})
  unfolding build_run_config with_run_cluster codes
  with_logger opts = do
    base ← logging (codes "build_run_config") (returns (build_run_config quote opts no_metadata))
    db ← logging (codes "open_cluster") (may_fail (deps.open_cluster base.dsn))
    deferring (deps.close db) (with_run_cluster opts db)

  abbrev pub with_log_file : RunOptions → Text → Calls S (Unit {0})
  with_log_file opts path = do
    set_last_path path
    print (codes "Error log: " ++ line path)
    with_logger opts

  -- `RunE` of the command `run`.
  unfoldable pub run_command : RunOptions → Calls S (Unit {0})
  unfolding new_error_logger with_logger codes
  run_command opts = do
    at ← on_world deps.now
    path ← new_error_logger at
    deferring (os.close_file path) (with_log_file opts path)

-- PersistentPreRunE of the root command.
unfoldable pub pre_run : {S : Type 0} → Text → Calls S (Unit {0})
unfolding codes
pre_run legacy_config p = if is_empty legacy_config then (ok tt, p) else (
  failed (new_error (codes "config files are no longer supported; use prepare/run flags")),
  p,
)

abbrev pub failure_line : Text → Error → Text
failure_line [] e = codes "tidb-fk-test failed: " ++ line e.text
failure_line (c ∷ s) e = codes "tidb-fk-test failed; see " ++ line (c ∷ s)

module _ {S : Type 0} where
  abbrev pub exit_status : Outcome (Unit {0}) × Process S → ℕ × Process S
  exit_status (ok _, p) = (0, p)
  exit_status (failed e, p) =
      (1, record p { stderr = p.stderr ++ failure_line p.last_error_log_path e })

  -- `runMain`, where cobra calls the chosen command behind the root's check.
  unfoldable pub run_main : Text → Calls S (Unit {0}) → Process S → ℕ × Process S
  unfolding pre_run codes
  run_main legacy_config command p = exit_status ((pre_run legacy_config >> command) p)
