-- ===== src/Command/Flow/Failures.antt =====
-- The errors of `run`, and the error log.
use mathlib.Core.Path.{subst}
use tidb_fk_test.Base.{
  ℕ, ◌≡◌, refl, ◌⊎◌, inl, inr, true, Option, none, Bool-cases, some, List, [], ◌∷◌, ◌++◌, Text,
  codes,
}
use tidb_fk_test.Base.Errors.{Error, is_error, prepare_metadata_not_found}
use tidb_fk_test.Config.{Config}
use tidb_fk_test.Db.Session.{Outcome, ok, failed}
use tidb_fk_test.Logging.{LogEntry}
use tidb_fk_test.Seed.Metadata.{PreparedMetadata, no_metadata}
use tidb_fk_test.Seed.Apply.Phases.{build_applied_state}
use tidb_fk_test.Command.Options.{RunOptions, build_run_config}
use tidb_fk_test.Command.Process.{
  Process, Calls, error_or, and_then, returns, on_world, may_fail, checks, command_error,
  log_command_error, logged, logging, deferring,
}
use tidb_fk_test.Command.Process.Keeps.{
  FailsWith, >>=-FailsWith, deferring-FailsWith, logging-FailsWith,
}
use tidb_fk_test.Command.Flow.{
  Deps, Os, run_prepare_first, check_version, explained, explain, read_metadata, workload,
  with_config, with_metadata, with_run_cluster, with_logger, with_log_file, new_error_logger,
  run_command,
}

module _ {S Conn : Type 0} (deps : Deps S Conn) (os : Os S) (quote : Text → Text) where
  -- A step of the command, by its name in the error log, and the error of its call.
  pub data StepFails (opts : RunOptions) : Text → Error → Type 0 where
    opening_fails :
        {cause : Error} (dsn : List Text) (s t : S)
        → deps.open_cluster dsn s ≡ (failed cause, t)
        → StepFails opts (codes "open_cluster") cause
    reading_fails :
        {cause : Error} (db : Conn) (s t : S)
        → deps.read_prepared_metadata db s ≡ (failed cause, t)
        → StepFails opts (codes "read_prepared_metadata") cause
    version_fails :
        {cause : Error} (metadata : PreparedMetadata)
        → check_version metadata ≡ failed cause
        → StepFails opts (codes "validate_prepare_metadata") cause
    config_fails :
        {cause : Error} (metadata : PreparedMetadata)
        → build_run_config quote opts metadata ≡ failed cause
        → StepFails opts (codes "build_run_config") cause
    validation_fails :
        {cause : Error} (db : Conn) (cfg : Config) (s t : S)
        → deps.validate_prepared db (build_applied_state cfg) s ≡ (some cause, t)
        → StepFails opts (codes "validate_prepared_state") cause
    run_fails :
        {cause : Error} (cfg : Config) (at : ℕ) (db : Conn) (p q : Process S)
        → deps.run cfg at db p ≡ (failed cause, q)
        → StepFails opts (codes "run_workload") cause

  -- The last entry of the error log has the name of a step whose call failed, and the text of its
  -- error. That is the error of the command, or one for which the message about `prepare` stands.
  abbrev pub IsLogged : RunOptions → Error → Process S → Type 0
  IsLogged opts e q =
      (before : List LogEntry) × (step : Text) × (cause : Error) × (q.error_log
        ≡ before ++ command_error step cause ∷ [])
      × StepFails opts step cause
      × ((e ≡ cause)
          ⊎ ((is_error (some cause) prepare_metadata_not_found ≡ true) × (e ≡ run_prepare_first)))

  logging-IsLogged :
      {A : Type 0} (opts : RunOptions) (step : Text) (m : Calls S A)
      → ((e : Error) (p q : Process S) → m p ≡ (failed e, q) → StepFails opts step e)
      → FailsWith (IsLogged opts) (logging step m)
  unfolding log_command_error
  logging-IsLogged opts step m k =
      logging-FailsWith (IsLogged opts) step m
        λ e p q h. (q.error_log, step, e, refl, k e p q h, inl refl)

  explained-IsLogged :
      (opts : RunOptions) (step : Text) (d : Error) (t : Process S)
      → StepFails opts step d
      → IsLogged opts (explained deps os quote d) (log_command_error true step (some d) t)
  unfolding log_command_error
  explained-IsLogged opts step d t k =
      elim (Bool-cases (is_error (some d) prepare_metadata_not_found)) [
        | inl b ↦ (t.error_log, step, d, refl, k, inr (b, rw b refl))
        | inr b ↦ (t.error_log, step, d, refl, k, inl (rw b refl))
      ]

  -- The errors of the three kinds of calls.
  may_fail-fails :
      {A : Type 0} (f : S → Outcome A × S) (p q : Process S) (e : Error)
      → may_fail f p ≡ (failed e, q)
      → f p.world ≡ (failed e, q.world)
  may_fail-fails {A = A} f p q e h = split (f p.world) h
    where
      split :
          (r : Outcome A × S)
          → ◌≡◌ {A = Outcome A × Process S} (r.0, record p { world = r.1 }) (failed e, q)
          → r ≡ (failed e, q.world)
      split (ok a, s) b = absurd (cc)
      split (failed d, s) b = cc

  checks-fails :
      (f : S → Option Error × S) (p q : Process S) (e : Error)
      → checks f p ≡ (failed e, q)
      → f p.world ≡ (some e, q.world)
  checks-fails f p q e h = split (f p.world) h
    where
      split :
          (r : Option Error × S)
          → error_or (r.0, record p { world = r.1 }) ≡ (failed e, q)
          → r ≡ (some e, q.world)
      split (none, s) b = absurd (cc)
      split (some d, s) b = cc

  read_metadata-IsLogged :
      (opts : RunOptions) (db : Conn) → FailsWith (IsLogged opts) (read_metadata deps os quote db)
  read_metadata-IsLogged opts db p q e h =
      split (may_fail (deps.read_prepared_metadata db) p) refl h
    where
      split :
          (r : Outcome PreparedMetadata × Process S)
          → may_fail (deps.read_prepared_metadata db) p ≡ r
          → explain deps os quote (logged (codes "read_prepared_metadata") r) ≡ (failed e, q)
          → IsLogged opts e q
      split (ok a, t) i b = absurd (cc)
      split (failed d, t) i b =
          let same : log_command_error true (codes "read_prepared_metadata") (some d) t ≡ q = cc in
          let also : explained deps os quote d ≡ e = cc in
          subst (λ x. IsLogged opts x q) also
            (subst (IsLogged opts (explained deps os quote d)) same (
              explained-IsLogged opts (codes "read_prepared_metadata") d t (
                reading_fails db p.world t.world
                  (may_fail-fails (deps.read_prepared_metadata db) p t d i))))

  with_run_cluster-IsLogged :
      (opts : RunOptions) (db : Conn)
      → FailsWith (IsLogged opts) (with_run_cluster deps os quote opts db)
  unfolding with_run_cluster with_metadata with_config workload
  with_run_cluster-IsLogged opts db =
      >>=-FailsWith (IsLogged opts) (read_metadata deps os quote db) _
        (read_metadata-IsLogged opts db)
        λ metadata.
          >>=-FailsWith (IsLogged opts) (logging _ (returns (check_version metadata))) _
            (logging-IsLogged opts _ _ λ e p q h. version_fails metadata (cc))
            λ _.
              >>=-FailsWith (IsLogged opts)
                (logging _ (returns (build_run_config quote opts metadata))) _
                (logging-IsLogged opts _ _ λ e p q h. config_fails metadata (cc))
                λ cfg.
                  >>=-FailsWith (IsLogged opts)
                    (logging _ (checks (deps.validate_prepared db (build_applied_state cfg)))) _
                    (logging-IsLogged opts _ _ λ e p q h.
                      validation_fails db cfg p.world q.world (
                        checks-fails (deps.validate_prepared db (build_applied_state cfg)) p q e h))
                    λ _.
                      >>=-FailsWith (IsLogged opts) (on_world deps.now) _ (λ p q e h. absurd (cc))
                        λ at.
                          logging-IsLogged opts (codes "run_workload") (deps.run cfg at db)
                            λ e p q h. run_fails cfg at db p q h

  with_logger-IsLogged :
      (opts : RunOptions) → FailsWith (IsLogged opts) (with_logger deps os quote opts)
  unfolding with_logger
  with_logger-IsLogged opts =
      >>=-FailsWith (IsLogged opts) (logging _ (returns (build_run_config quote opts no_metadata)))
        _ (logging-IsLogged opts _ _ λ e p q h. config_fails no_metadata (cc))
        λ base.
          >>=-FailsWith (IsLogged opts) (logging _ (may_fail (deps.open_cluster base.dsn))) _
            (logging-IsLogged opts _ _ λ e p q h.
              opening_fails base.dsn p.world q.world
                (may_fail-fails (deps.open_cluster base.dsn) p q e h))
            λ db.
              deferring-FailsWith (IsLogged opts) (deps.close db) _ (λ e q h. h)
                (with_run_cluster-IsLogged opts db)

  with_log_file-IsLogged :
      (opts : RunOptions) (path : Text)
      → FailsWith (IsLogged opts) (with_log_file deps os quote opts path)
  with_log_file-IsLogged opts path p q e h = with_logger-IsLogged opts _ q e h

  -- Where `run` fails, either the log file could not be made, and that is the error; or the last
  -- entry of the error log names a step of the command whose own call returned an error, with the
  -- text of that error. The command's error is the same, or says to run `prepare` first where that
  -- error says that there is no metadata.
  pub run_command-IsLogged :
      (opts : RunOptions) (p q : Process S) (e : Error)
      → run_command deps os quote opts p ≡ (failed e, q)
      → let (at, s) = deps.now p.world in
        (new_error_logger deps os quote at (record p { world = s }) ≡ (failed e, q))
        ⊎ IsLogged opts e q
  unfolding run_command
  run_command-IsLogged opts p q e h =
      split (new_error_logger deps os quote at (record p { world = s })) refl h
    where
      at : ℕ
      at = (deps.now p.world).0

      s : S
      s = (deps.now p.world).1

      split :
          (r : Outcome Text × Process S)
          → new_error_logger deps os quote at (record p { world = s }) ≡ r
          → and_then
              (λ path. deferring (os.close_file path) (with_log_file deps os quote opts path))
              r
            ≡ (failed e, q)
          → (new_error_logger deps os quote at (record p { world = s }) ≡ (failed e, q))
            ⊎ IsLogged opts e q
      split (failed d, t) a b = inl (cc (a, b))
      split (ok path, t) a b = inr (
          deferring-FailsWith (IsLogged opts) (os.close_file path) _ (λ d u k. k)
            (with_log_file-IsLogged opts path) t q e b)
