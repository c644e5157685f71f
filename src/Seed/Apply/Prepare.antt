-- ===== src/Seed/Apply/Prepare.antt =====
-- What `ApplyAll` leaves in the database.
use tidb_fk_test.Base.{
  ℕ, ◌≤◌, Bool-cases, ◌==◌, ◌≡◌, ◌≢◌, refl, ◌↔◌, inl, inr, none, some, List, [], ◌∷◌, ◌++◌, arith,
  length, Option-cases, pos,
}
use tidb_fk_test.Config.{Config}
use tidb_fk_test.Db.Session.{ExecContext}
use tidb_fk_test.Seed.Generic.{parent_count}
use tidb_fk_test.Seed.Billing.{billing_plan, billing_plan_of}
use tidb_fk_test.Seed.Billing.Lengths.{length-customer_ids, length-folio_ids}
use tidb_fk_test.Seed.Value.{int, time}
use tidb_fk_test.Seed.Apply.Insert.{ApplyStatement}
use tidb_fk_test.Seed.Apply.Fixtures.{generic_fixture_statements, billing_fixture_statements}
use tidb_fk_test.Seed.Apply.Totality.{
  generic_fixture_statements_total, billing_fixture_statements_total,
}
use tidb_fk_test.Seed.Apply.Phases.{
  AppliedState, ApplyPhase, ApplyResult, complete, phases_of, record_prepare_metadata_query,
  seed_plan_version, build_applied_state, build_apply_phases, run_statements, run_phases,
  record_prepare_metadata, apply_all,
}

-- The upsert of the metadata row.
abbrev pub metadata_statement : Config → ℕ → ApplyStatement
metadata_statement cfg now = record {
  query = record_prepare_metadata_query;
  args =
      int (pos seed_plan_version)
      ∷ int cfg.seed_parent_rows_per_table
      ∷ int cfg.seed_hot_parent_keys
      ∷ time now
      ∷ [];
}

abbrev pub statements_of : List ApplyPhase → List ApplyStatement
statements_of [] = []
statements_of (p ∷ ps) = p.statements ++ statements_of ps

module _ {S : Type 0} (exec : ExecContext S) where
  -- A run of two lists in a row stops in the first, or goes on.
  run_statements-append :
      (xs ys : List ApplyStatement) (s : S)
      → run_statements exec (xs ++ ys) s ≡ elim (run_statements exec xs s).0 [
        | none ↦ run_statements exec ys (run_statements exec xs s).1
        | some e ↦ (some e, (run_statements exec xs s).1)
      ]
  unfolding run_statements
  run_statements-append [] ys s = refl
  run_statements-append (x ∷ xs) ys s =
      ground (arith, run_statements-append xs ys (exec x.query x.args s).1)

  -- The phases run their statements one after the other, and stop at the first that fails.
  run_phases-world :
      (phases : List ApplyPhase) (applied : AppliedState) (s : S)
      → let r = run_phases exec phases applied s in
        let t = run_statements exec (statements_of phases) s in
        (r.world ≡ t.1) × ((r.err ≡ none) ↔ (t.0 ≡ none))
  unfolding run_phases run_statements
  run_phases-world [] applied s = (refl, ((λ e. e), (λ e. e)))
  run_phases-world (p ∷ ps) applied s = elim (Option-cases (run_statements exec p.statements s).0) [
    | inl e ↦
        rw (run_statements-append p.statements (statements_of ps) s, e, run_phases)
          (run_phases-world ps (complete p.name applied) (run_statements exec p.statements s).1)
    | inr (err, e) ↦
        rw (run_statements-append p.statements (statements_of ps) s, e, run_phases)
          (refl, ((λ f. cc), (λ f. cc)))
  ]

-- `billing_plan` makes as many folios as customers.
billing_plan-fits :
    (cfg : Config)
    → let plan = (build_applied_state cfg).billing in
      length plan.folio_ids ≤ length plan.customer_ids
unfolding build_applied_state billing_plan billing_plan_of
billing_plan-fits cfg =
    let n = parent_count cfg in
    elim (Bool-cases (n == 0)) [
      | inl e ↦ rw e (omega arith)
      | inr e ↦ rw e (omega (arith, length-customer_ids n, length-folio_ids n))
    ]

billing_statements_built :
    (cfg : Config)
    → (stmts : List ApplyStatement) × (billing_fixture_statements (build_applied_state cfg).billing
        ≡ some stmts)
billing_statements_built cfg =
    elim (billing_fixture_statements_total (build_applied_state cfg).billing) [
      | inl (fits, (stmts, e, bound)) ↦ (stmts, e)
      | inr (more, e) ↦ absurd (omega (arith, billing_plan-fits cfg))
    ]

-- Whatever the plan, the phases are built, under the five names, in order.
pub build_apply_phases_total :
    (cfg : Config)
    → (generic billing : List ApplyStatement) × (generic_fixture_statements
          (build_applied_state cfg).generic
        ≡ some generic)
      × (billing_fixture_statements (build_applied_state cfg).billing ≡ some billing)
      × (build_apply_phases (build_applied_state cfg) ≡ some (phases_of generic billing))
unfolding build_apply_phases
build_apply_phases_total cfg =
    let (g, eg, _) = generic_fixture_statements_total (build_applied_state cfg).generic in
    let (b, eb) = billing_statements_built cfg in (g, b, eg, eb, rw (eg, eb))

-- The statements that `ApplyAll` sends, in order.
abbrev pub prepare_statements :
    Config → ℕ → List ApplyStatement → List ApplyStatement → List ApplyStatement
prepare_statements cfg now generic billing =
    statements_of (phases_of generic billing) ++ metadata_statement cfg now ∷ []

module _ {S : Type 0} (exec : ExecContext S) where
  metadata-world :
      (cfg : Config) (now : ℕ) (r : ApplyResult S)
      → let q = record_prepare_metadata exec cfg now r in
        (r.err ≡ none → q.world ≡ (run_statements exec (metadata_statement cfg now ∷ []) r.world).1)
        × (r.err ≢ none → q.world ≡ r.world)
        × ((q.err ≡ none) ↔ (
            (r.err ≡ none)
            × ((run_statements exec (metadata_statement cfg now ∷ []) r.world).0 ≡ none)))
  unfolding record_prepare_metadata run_statements
  metadata-world cfg now r = ground arith

  prepare-world :
      (cfg : Config) (now : ℕ) (phases : List ApplyPhase) (applied : AppliedState) (s : S)
      → let q = record_prepare_metadata exec cfg now (run_phases exec phases applied s) in
        let t = run_statements exec (statements_of phases ++ metadata_statement cfg now ∷ []) s in
        (q.world ≡ t.1) × ((q.err ≡ none) ↔ (t.0 ≡ none))
  prepare-world cfg now phases applied s = ground (
    arith,
    run_statements-append exec (statements_of phases) (metadata_statement cfg now ∷ []) s,
    run_phases-world exec phases applied s,
    metadata-world cfg now (run_phases exec phases applied s),
  )

-- `ApplyAll` leaves the database as a run of one list of statements does, up to the first that
-- fails: the schemas, the fixtures of its plans and the metadata row, in this order. It returns no
-- error exactly where all of them succeed.
pub apply_all_world :
    {S : Type 0} (exec : ExecContext S) (cfg : Config) (now : ℕ) (s : S)
    → (r : ApplyResult S) × (generic billing : List ApplyStatement) × (apply_all exec cfg now s
        ≡ some r)
      × (generic_fixture_statements (build_applied_state cfg).generic ≡ some generic)
      × (billing_fixture_statements (build_applied_state cfg).billing ≡ some billing)
      × (let t = run_statements exec (prepare_statements cfg now generic billing) s in
          (r.world ≡ t.1) × ((r.err ≡ none) ↔ (t.0 ≡ none)))
unfolding apply_all
apply_all_world exec cfg now s =
    let (g, b, eg, eb, e) = build_apply_phases_total cfg in
    let r = run_phases exec (phases_of g b) (build_applied_state cfg) s in
    (
      record_prepare_metadata exec cfg now r,
      g,
      b,
      rw e,
      eg,
      eb,
      prepare-world exec cfg now (phases_of g b) (build_applied_state cfg) s,
    )
