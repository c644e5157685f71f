-- ===== src/Seed/Apply/Phases.antt =====
-- `ApplyAll` of internal/seed/apply.go. The database is a parameter, as is the clock's reading.
use tidb_fk_test.Base.{ℕ, pos, Option, none, some, List, [], ◌∷◌, ◌++◌, Text, codes}
use tidb_fk_test.Base.Errors.{Error, wrap}
use tidb_fk_test.Config.{Config}
use tidb_fk_test.Db.Session.{ExecContext}
use tidb_fk_test.Seed.Value.{int, time}
use tidb_fk_test.Seed.Generic.{GenericSeedPlan, generic_plan}
use tidb_fk_test.Seed.Billing.{BillingSeedPlan, billing_plan}
use tidb_fk_test.Seed.Apply.Insert.{ApplyStatement}
use tidb_fk_test.Seed.Apply.Schema.{plain, generic_schema_statements, billing_schema_statements}
use tidb_fk_test.Seed.Apply.Fixtures.{generic_fixture_statements, billing_fixture_statements}

abbrev pub seed_plan_version : ℕ
seed_plan_version = 1

pub create_prepare_metadata_table_statement : Text
create_prepare_metadata_table_statement =
    codes
      "CREATE TABLE IF NOT EXISTS fk_prepare_metadata (singleton_id TINYINT PRIMARY KEY, seed_plan_version INT NOT NULL, seed_parent_rows_per_table INT NOT NULL, seed_hot_parent_keys INT NOT NULL, prepared_at DATETIME(6) NOT NULL)"

pub record_prepare_metadata_query : Text
record_prepare_metadata_query =
    codes
      "INSERT INTO fk_prepare_metadata (singleton_id, seed_plan_version, seed_parent_rows_per_table, seed_hot_parent_keys, prepared_at) VALUES (1, ?, ?, ?, ?) ON DUPLICATE KEY UPDATE seed_plan_version = VALUES(seed_plan_version), seed_parent_rows_per_table = VALUES(seed_parent_rows_per_table), seed_hot_parent_keys = VALUES(seed_hot_parent_keys), prepared_at = VALUES(prepared_at)"

abbrev pub phase_apply_metadata_schema : Text
phase_apply_metadata_schema = codes "apply_metadata_schema"

abbrev pub phase_apply_generic_schema : Text
phase_apply_generic_schema = codes "apply_generic_schema"

abbrev pub phase_apply_billing_schema : Text
phase_apply_billing_schema = codes "apply_billing_schema"

abbrev pub phase_seed_generic_fixtures : Text
phase_seed_generic_fixtures = codes "seed_generic_fixtures"

abbrev pub phase_seed_billing_fixtures : Text
phase_seed_billing_fixtures = codes "seed_billing_fixtures"

abbrev pub phase_record_prepare_metadata : Text
phase_record_prepare_metadata = codes "record_prepare_metadata"

pub record AppliedState : Type 0 where
  pub generic : GenericSeedPlan
  pub billing : BillingSeedPlan
  pub completed_phases : List Text

pub record ApplyPhase : Type 0 where
  pub name : Text
  pub statements : List ApplyStatement

unfoldable pub build_applied_state : Config → AppliedState
unfolding generic_plan billing_plan
build_applied_state cfg = record {
  generic = generic_plan cfg;
  billing = billing_plan cfg;
  completed_phases = [];
}

abbrev pub phases_of : List ApplyStatement → List ApplyStatement → List ApplyPhase
phases_of generic billing =
    record {
      name = phase_apply_metadata_schema;
      statements = plain create_prepare_metadata_table_statement ∷ [];
    }
    ∷ record { name = phase_apply_generic_schema; statements = generic_schema_statements }
    ∷ record { name = phase_apply_billing_schema; statements = billing_schema_statements }
    ∷ record { name = phase_seed_generic_fixtures; statements = generic }
    ∷ record { name = phase_seed_billing_fixtures; statements = billing }
    ∷ []

abbrev join_fixtures :
    Option (List ApplyStatement) → Option (List ApplyStatement) → Option (List ApplyPhase)
join_fixtures none billing = none
join_fixtures (some generic) none = none
join_fixtures (some generic) (some billing) = some (phases_of generic billing)

-- `none` is a panic of `newInsertStatement`.
unfoldable pub build_apply_phases : AppliedState → Option (List ApplyPhase)
unfolding generic_fixture_statements billing_fixture_statements
build_apply_phases applied =
    join_fixtures (generic_fixture_statements applied.generic)
      (billing_fixture_statements applied.billing)

-- What `ApplyAll` returns, and the world that it leaves.
pub record ApplyResult (S : Type 0) : Type 0 where
  pub applied : AppliedState
  pub err : Option Error
  pub world : S

abbrev pub complete : Text → AppliedState → AppliedState
complete name applied = record applied { completed_phases = applied.completed_phases ++ name ∷ [] }

module _ {S : Type 0} (exec : ExecContext S) where
  -- The inner loop: the statements of a phase, until one fails.
  unfoldable pub run_statements : List ApplyStatement → S → Option Error × S
  run_statements [] s = (none, s)
  run_statements (stmt ∷ stmts) s =
      let (err, s') = exec stmt.query stmt.args s in
      elim err [ none ↦ run_statements stmts s' | some e ↦ (some e, s') ]

  -- The outer loop.
  unfoldable pub run_phases : List ApplyPhase → AppliedState → S → ApplyResult S
  unfolding run_statements
  run_phases [] applied s = record { applied = applied; err = none; world = s }
  run_phases (phase ∷ phases) applied s =
      let (err, s') = run_statements phase.statements s in
      elim err [
        | none ↦ run_phases phases (complete phase.name applied) s'
        | some e ↦ record { applied = applied; err = some (wrap phase.name e); world = s' }
      ]

  -- The upsert of the metadata row, after the phases.
  unfoldable pub record_prepare_metadata : Config → ℕ → ApplyResult S → ApplyResult S
  record_prepare_metadata cfg now r = elim r.err [
    | some e ↦ r
    | none ↦
        let (err, s') =
          exec record_prepare_metadata_query
            (int (pos seed_plan_version)
              ∷ int cfg.seed_parent_rows_per_table
              ∷ int cfg.seed_hot_parent_keys
              ∷ time now
              ∷ [])
            r.world in
        elim err [
          | some e ↦ record r { err = some (wrap phase_record_prepare_metadata e); world = s' }
          | none ↦ record r {
            applied = complete phase_record_prepare_metadata r.applied;
            world = s';
          }
        ]
  ]

  abbrev apply_phases :
      Config → ℕ → AppliedState → Option (List ApplyPhase) → S → Option (ApplyResult S)
  apply_phases cfg now applied none s = none
  apply_phases cfg now applied (some phases) s =
      some (record_prepare_metadata cfg now (run_phases phases applied s))

  -- `none` is a panic, before any statement is run.
  unfoldable pub apply_all : Config → ℕ → S → Option (ApplyResult S)
  unfolding run_phases record_prepare_metadata build_applied_state build_apply_phases
  apply_all cfg now s =
      let applied = build_applied_state cfg in
      apply_phases cfg now applied (build_apply_phases applied) s
