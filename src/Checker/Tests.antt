-- ===== src/Checker/Tests.antt =====
-- Concrete checks.
use tidb_fk_test.Base.{ℕ, ◌+◌, none, []}
use tidb_fk_test.Config.{default}
use tidb_fk_test.Db.Session.{QueryRowContext, ok}
use tidb_fk_test.Seed.Apply.Phases.{build_applied_state}
use tidb_fk_test.Checker.{orphan_query, cascade_query, run_checks}
use tidb_fk_test.Checker.Verdict.{Branches, cascade_args, run_checks_lem}

-- A database where no row is an orphan, and which counts the queries.
abbrev sound_db : QueryRowContext ℕ
sound_db query args s = (ok s, s + 1)

run_checks_lem_example :
    Branches sound_db
      (build_applied_state default)
      none
      (sound_db orphan_query [] 0)
      (sound_db cascade_query (cascade_args (build_applied_state default)) 1)
      (run_checks sound_db (build_applied_state default) none 0)
run_checks_lem_example = run_checks_lem sound_db (build_applied_state default) none 0
