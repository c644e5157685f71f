-- ===== src/Seed/Tests.antt =====
-- Concrete plans and statements.
use tidb_fk_test.Base.{
  ℕ, ◌≤◌, ◌<◌, ◌⊎◌, ◌+◌, ◌*◌, ◌≡◌, ◌↔◌, refl, inl, none, some, List, [], ◌∷◌, ◌++◌, Text, codes,
  arith, length, All, if◌then◌else◌, ◌==◌,
}
use tidb_fk_test.Base.Errors.{new_error}
use tidb_fk_test.Config.{default}
use tidb_fk_test.Db.Session.{ExecContext, QueryRowContext, ok}
use tidb_fk_test.Seed.Metadata.{prepared_checks, validate_prepared_state}
use tidb_fk_test.Seed.Metadata.Checks.{Verdict, validate_prepared_state-Verdict}
use tidb_fk_test.Seed.Value.{Row, int64}
use tidb_fk_test.Seed.Nulls.{HasNoNull}
use tidb_fk_test.Seed.Integrity.{IsLoadable}
use tidb_fk_test.Seed.Generic.{generic_plan}
use tidb_fk_test.Seed.Billing.{billing_plan}
use tidb_fk_test.Seed.Generic.Pools.{AreApart, generic_plan-AreApart}
use tidb_fk_test.Seed.Generic.References.{generic_fixtures-IsLoadable}
use tidb_fk_test.Seed.Billing.References.{IsLoaded, billing_fixtures-IsLoadable}
use tidb_fk_test.Seed.Apply.Insert.{ApplyStatement, built, panicked, new_insert_statement}
use tidb_fk_test.Seed.Apply.Fixtures.{
  generic_fixture_inserts, generic_fixture_statements, billing_fixture_statements,
}
use tidb_fk_test.Seed.Apply.Phases.{
  ApplyResult, phases_of, build_applied_state, run_statements, apply_all,
}
use tidb_fk_test.Seed.Apply.Placeholders.{
  IsBound, new_insert_statement-IsBound, new_insert_statement_panics,
}
use tidb_fk_test.Seed.Apply.Totality.{
  generic_fixture_statements_total, billing_fixture_statements_total,
}
use tidb_fk_test.Seed.Apply.Prepare.{prepare_statements, apply_all_world}
use tidb_fk_test.Seed.Apply.Progress.{Progress, metadata_phase, apply_all-Progress}

generic_fixtures-IsLoadable_example :
    IsLoadable [] (generic_fixture_inserts (generic_plan default))
    × All HasNoNull (generic_fixture_inserts (generic_plan default))
generic_fixtures-IsLoadable_example = generic_fixtures-IsLoadable default (omega arith)

generic_plan-AreApart_example : AreApart (generic_plan default)
generic_plan-AreApart_example = generic_plan-AreApart default (omega arith)

billing_fixtures-IsLoadable_example : IsLoaded (billing_plan default)
billing_fixtures-IsLoadable_example = billing_fixtures-IsLoadable default (omega arith)

-- A database that counts its statements, and fails the third.
abbrev failing_db : ExecContext ℕ
failing_db query args n = if n == 2 then (some (new_error (codes "lost")), 2) else (none, n + 1)

apply_all-Progress_example :
    (r : ApplyResult ℕ) × (generic billing : List ApplyStatement) × (apply_all failing_db default 7
        0
      ≡ some r)
    × (generic_fixture_statements (build_applied_state default).generic ≡ some generic)
    × (billing_fixture_statements (build_applied_state default).billing ≡ some billing)
    × Progress failing_db
        (phases_of generic billing ++ metadata_phase default 7 ∷ [])
        0
        r.applied.completed_phases
        r.err
        r.world
apply_all-Progress_example = apply_all-Progress failing_db default 7 0

apply_all_world_example :
    (r : ApplyResult ℕ) × (generic billing : List ApplyStatement) × (apply_all failing_db default 7
        0
      ≡ some r)
    × (generic_fixture_statements (build_applied_state default).generic ≡ some generic)
    × (billing_fixture_statements (build_applied_state default).billing ≡ some billing)
    × (let t = run_statements failing_db (prepare_statements default 7 generic billing) 0 in
        (r.world ≡ t.1) × ((r.err ≡ none) ↔ (t.0 ≡ none)))
apply_all_world_example = apply_all_world failing_db default 7 0

generic_fixture_statements_total_example :
    (stmts : List ApplyStatement) × (generic_fixture_statements (generic_plan default) ≡ some stmts)
    × All IsBound stmts
generic_fixture_statements_total_example = generic_fixture_statements_total (generic_plan default)

billing_fixture_statements_total_example :
    let plan = billing_plan default in
    ((length plan.folio_ids ≤ length plan.customer_ids)
      × ((stmts : List ApplyStatement) × (billing_fixture_statements plan ≡ some stmts)
          × All IsBound stmts))
    ⊎ ((length plan.customer_ids < length plan.folio_ids)
        × (billing_fixture_statements plan ≡ none))
billing_fixture_statements_total_example = billing_fixture_statements_total (billing_plan default)

abbrev row : Row
row = int64 1 ∷ int64 2 ∷ []

abbrev columns : List Text
columns = codes "id" ∷ codes "n" ∷ []

new_insert_statement-IsBound_example :
    (stmt : ApplyStatement) × (new_insert_statement
        (codes "t")
        columns
        (codes "n" ∷ [])
        (row ∷ row ∷ [])
      ≡ built stmt)
    × IsBound stmt
    × (length stmt.args ≡ 2 * 2)
unfolding codes
new_insert_statement-IsBound_example =
    new_insert_statement-IsBound (codes "t") columns (codes "n" ∷ []) row (row ∷ []) refl
      (refl, (refl, tt)) (refl, tt) (refl, (refl, tt))

new_insert_statement_panics_example :
    new_insert_statement (codes "t") columns [] ((int64 1 ∷ []) ∷ row ∷ []) ≡ panicked
new_insert_statement_panics_example =
    new_insert_statement_panics (codes "t") columns [] ((int64 1 ∷ []) ∷ row ∷ []) (int64 1 ∷ [])
      (inl refl) (λ e. omega arith)

-- A database in which each row is there.
abbrev full_db : QueryRowContext ℕ
full_db query args n = (ok 1, n + 1)

validate_prepared_state-Verdict_example :
    Verdict full_db
      (prepared_checks (build_applied_state default))
      0
      (validate_prepared_state full_db (build_applied_state default) 0)
validate_prepared_state-Verdict_example =
    validate_prepared_state-Verdict full_db (build_applied_state default) 0
