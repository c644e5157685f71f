-- ===== src/Command/Flow/Closes.antt =====
-- The cluster that a command opens, it closes.
use tidb_fk_test.Base.{ℕ, true, ◌≡◌, refl, some, List, Text, codes}
use tidb_fk_test.Base.Errors.{Error}
use tidb_fk_test.Db.Session.{Outcome, ok, failed}
use tidb_fk_test.Seed.Metadata.{no_metadata}
use tidb_fk_test.Command.Options.{
  PrepareOptions, RunOptions, build_run_config, build_prepare_config,
}
use tidb_fk_test.Command.Process.{
  Process, Calls, and_then, ◌>>=◌, returns, may_fail, checks, log_command_error, logged, logging,
  deferring,
}
use tidb_fk_test.Command.Process.Keeps.{Keeps, >>=-Keeps, checks-Keeps, logging-Keeps}
use tidb_fk_test.Command.Flow.{
  Deps, Os, log_path, with_prepared_cluster, prepare_command, with_run_cluster, with_logger,
  with_log_file, new_error_logger, run_command,
}

module _ {S Conn : Type 0} (deps : Deps S Conn) (os : Os S) (quote : Text → Text)
    (Closed : S → Type 0) where
  -- `Closed s` says that no connection is open. What the code relies on: a failed `openCluster` leaves
  -- none, `Close` of the cluster closes all of its, and the clock and the log file open none.
  pub record ClosesConns : Type 0 where
    pub open_fails :
        (dsns : List Text) (e : Error) (s t : S)
        → deps.open_cluster dsns s ≡ (failed e, t)
        → Closed s
        → Closed t
    pub close :
        (dsns : List Text) (db : Conn) (r s t : S)
        → deps.open_cluster dsns r ≡ (ok db, s)
        → Closed (deps.close db t)
    pub now : (s : S) → Closed s → Closed (deps.now s).1
    pub mkdir_all : (name : Text) (s : S) → Closed s → Closed (os.mkdir_all name s).1
    pub open_append : (name : Text) (s : S) → Closed s → Closed (os.open_append name s).1
    pub close_file : (name : Text) (s : S) → Closed s → Closed (os.close_file name s)

  abbrev IsClosed : Process S → Type 0
  IsClosed p = Closed p.world

  module _ (c : ClosesConns) where
    log_command_error-IsClosed :
        (step : Text) (e : Error) (p : Process S)
        → IsClosed p
        → IsClosed (log_command_error true step (some e) p)
    unfolding log_command_error
    log_command_error-IsClosed step e p h = h

    -- The opening of the cluster, and what runs with it until it is closed.
    opened-IsClosed :
        (dsns : List Text) (f : Conn → Calls S (Unit {0})) (p : Process S)
        → IsClosed p
        → IsClosed
            ((may_fail (deps.open_cluster dsns) >>= λ db. deferring (deps.close db) (f db)) p).1
    opened-IsClosed dsns f p h = split (deps.open_cluster dsns p.world) refl
      where
        split :
            (r : Outcome Conn × S)
            → deps.open_cluster dsns p.world ≡ r
            → IsClosed
                (and_then
                  (λ db. deferring (deps.close db) (f db))
                  (r.0, record p { world = r.1 })).1
        split (failed e, s) a = c.open_fails dsns e p.world s a h
        split (ok db, s) a = c.close dsns db p.world s _ a

    -- Whatever fails, `prepare` leaves no open connection.
    pub prepare_command-Closed :
        (opts : PrepareOptions) (p : Process S)
        → Closed p.world
        → Closed (prepare_command deps os quote opts p).1.world
    unfolding prepare_command
    prepare_command-Closed opts =
        >>=-Keeps IsClosed (returns (build_prepare_config quote opts)) _ (λ p h. h)
          λ cfg. opened-IsClosed cfg.dsn (with_prepared_cluster deps os quote cfg)

    new_error_logger-IsClosed : (at : ℕ) → Keeps IsClosed (new_error_logger deps os quote at)
    unfolding new_error_logger
    new_error_logger-IsClosed at =
        >>=-Keeps IsClosed (checks (os.mkdir_all (codes "logs"))) _
          (checks-Keeps IsClosed (os.mkdir_all (codes "logs"))
            λ p h. c.mkdir_all (codes "logs") p.world h)
          λ _.
            >>=-Keeps IsClosed (checks (os.open_append (log_path (os.unix at)))) _
              (checks-Keeps IsClosed (os.open_append (log_path (os.unix at)))
                λ p h. c.open_append (log_path (os.unix at)) p.world h)
              λ _ p h. h

    logged-IsClosed :
        (dsns : List Text) (f : Conn → Calls S (Unit {0})) (p : Process S)
        → IsClosed p
        → IsClosed
            ((logging (codes "open_cluster") (may_fail (deps.open_cluster dsns)) >>= λ db.
                deferring (deps.close db) (f db))
              p).1
    unfolding log_command_error
    logged-IsClosed dsns f p h = split (deps.open_cluster dsns p.world) refl
      where
        split :
            (r : Outcome Conn × S)
            → deps.open_cluster dsns p.world ≡ r
            → IsClosed
                (and_then
                  (λ db. deferring (deps.close db) (f db))
                  (logged (codes "open_cluster") (r.0, record p { world = r.1 }))).1
        split (failed e, s) a = c.open_fails dsns e p.world s a h
        split (ok db, s) a = c.close dsns db p.world s _ a

    with_logger-IsClosed : (opts : RunOptions) → Keeps IsClosed (with_logger deps os quote opts)
    unfolding with_logger
    with_logger-IsClosed opts =
        >>=-Keeps IsClosed
          (logging (codes "build_run_config") (returns (build_run_config quote opts no_metadata))) _
          (logging-Keeps IsClosed (codes "build_run_config")
            (returns (build_run_config quote opts no_metadata))
            (log_command_error-IsClosed (codes "build_run_config")) λ p h. h)
          λ base. logged-IsClosed base.dsn (with_run_cluster deps os quote opts)

    log_file-IsClosed :
        (opts : RunOptions) (path : Text)
        → Keeps IsClosed (deferring (os.close_file path) (with_log_file deps os quote opts path))
    log_file-IsClosed opts path p h = c.close_file path _ (with_logger-IsClosed opts _ h)

    -- Whatever fails, `run` leaves no open connection.
    pub run_command-Closed :
        (opts : RunOptions) (p : Process S)
        → Closed p.world
        → Closed (run_command deps os quote opts p).1.world
    unfolding run_command
    run_command-Closed opts p h =
        >>=-Keeps IsClosed (new_error_logger deps os quote (deps.now p.world).0)
          (λ path. deferring (os.close_file path) (with_log_file deps os quote opts path))
          (new_error_logger-IsClosed _) (log_file-IsClosed opts)
          (record p { world = (deps.now p.world).1 }) (c.now p.world h)
