-- ===== src/Seed/Apply/Progress.antt =====
-- How far `ApplyAll` comes, and which error it returns.
use mathlib.Core.List.{append_assoc, append-nil}
use tidb_fk_test.Base.{
  inl, inr, ℕ, ◌≡◌, ◌≢◌, refl, sym, ◌∙◌, Option, none, some, List, [], ◌∷◌, ◌++◌, Text,
  Option-cases,
}
use tidb_fk_test.Base.Errors.{Error, wrap}
use tidb_fk_test.Base.Runs.{Runs, finished, goes_on, fails}
use tidb_fk_test.Config.{Config}
use tidb_fk_test.Db.Session.{ExecContext}
use tidb_fk_test.Seed.Apply.Insert.{ApplyStatement}
use tidb_fk_test.Seed.Apply.Fixtures.{generic_fixture_statements, billing_fixture_statements}
use tidb_fk_test.Seed.Apply.Phases.{
  AppliedState, ApplyPhase, ApplyResult, complete, phases_of, phase_record_prepare_metadata,
  build_applied_state, run_statements, run_phases, record_prepare_metadata, apply_all,
}
use tidb_fk_test.Seed.Apply.Prepare.{metadata_statement, build_apply_phases_total}

-- The upsert of the metadata row, as a phase of its own.
abbrev pub metadata_phase : Config → ℕ → ApplyPhase
metadata_phase cfg now = record {
  name = phase_record_prepare_metadata;
  statements = metadata_statement cfg now ∷ [];
}

module _ {S : Type 0} (exec : ExecContext S) where
  -- A statement is sent, with its arguments.
  abbrev pub Executes : ApplyStatement → S → Option Error → S → Type 0
  Executes stmt s err t = exec stmt.query stmt.args s ≡ (err, t)

  -- The phases in order: which of them complete, the error, and the world. A phase completes when all
  -- its statements succeed; the error of the first statement that fails ends the run, under the name
  -- of its phase.
  pub data Progress : List ApplyPhase → S → List Text → Option Error → S → Type 0 where
    ended : {s : S} → Progress [] s [] none s
    completes :
        {phase : ApplyPhase} {phases : List ApplyPhase} {s t u : S} {names : List Text}
        {err : Option Error}
        → Runs Executes phase.statements s none t
        → Progress phases t names err u
        → Progress (phase ∷ phases) s (phase.name ∷ names) err u
    stops :
        {phase : ApplyPhase} {phases : List ApplyPhase} {s t : S} {e : Error}
        → Runs Executes phase.statements s (some e) t
        → Progress (phase ∷ phases) s [] (some (wrap phase.name e)) t

  run_statements-Runs :
      (stmts : List ApplyStatement) (s : S)
      → Runs Executes stmts s (run_statements exec stmts s).0 (run_statements exec stmts s).1
  unfolding run_statements
  run_statements-Runs [] s = finished
  run_statements-Runs (stmt ∷ stmts) s =
      sent (exec stmt.query stmt.args s) refl (run_statements-Runs stmts)
    where
      sent :
          (r : Option Error × S)
          → exec stmt.query stmt.args s ≡ r
          → ((t : S)
              → Runs Executes stmts t
                  (run_statements exec stmts t).0
                  (run_statements exec stmts t).1)
          → let q : Option Error × S = elim r.0 [
            | none ↦ run_statements exec stmts r.1
            | some e ↦ (some e, r.1)
          ] in
            Runs Executes (stmt ∷ stmts) s q.0 q.1
      sent (none, t) e more = goes_on e (more t)
      sent (some err, t) e more = fails e

  -- What `r` has added to the completed phases, and that the phases ran to it.
  abbrev Reaches : List ApplyPhase → List Text → S → ApplyResult S → Type 0
  Reaches phases before s r =
      (names : List Text) × (r.applied.completed_phases ≡ before ++ names)
      × Progress phases s names r.err r.world

  run_phases-Progress :
      (phases : List ApplyPhase) (applied : AppliedState) (s : S)
      → Reaches phases applied.completed_phases s (run_phases exec phases applied s)
  unfolding run_phases
  run_phases-Progress [] applied s = ([], sym (append-nil _), ended)
  run_phases-Progress (phase ∷ phases) applied s =
      ran (run_statements exec phase.statements s) (run_statements-Runs phase.statements s)
        (run_phases-Progress phases (complete phase.name applied))
    where
      ran :
          (r : Option Error × S)
          → Runs Executes phase.statements s r.0 r.1
          → ((t : S)
              → Reaches phases
                  (applied.completed_phases ++ phase.name ∷ [])
                  t
                  (run_phases exec phases (complete phase.name applied) t))
          → Reaches (phase ∷ phases) applied.completed_phases s (elim r.0 [
            | none ↦ run_phases exec phases (complete phase.name applied) r.1
            | some e ↦ record { applied = applied; err = some (wrap phase.name e); world = r.1 }
          ])
      ran (none, t) runs more =
          let (names, c, p) = more t in
          (
            phase.name ∷ names,
            c ∙ append_assoc applied.completed_phases (phase.name ∷ []) names,
            completes runs p,
          )
      ran (some e, t) runs more = ([], sym (append-nil _), stops runs)

  -- A run of phases without an error goes on with the phases behind them.
  Progress-append :
      {phases : List ApplyPhase} {s t u : S} {names others : List Text} {err err2 : Option Error}
      (behind : List ApplyPhase)
      → Progress phases s names err t
      → err ≡ none
      → Progress behind t others err2 u
      → Progress (phases ++ behind) s (names ++ others) err2 u
  Progress-append behind ended e q = q
  Progress-append behind (completes runs p) e q = completes runs (Progress-append behind p e q)
  Progress-append behind (stops runs) e q = absurd (cc)

  -- One that stops does not reach them.
  Progress-stops :
      {phases : List ApplyPhase} {s t : S} {names : List Text} {err : Option Error}
      (behind : List ApplyPhase)
      → Progress phases s names err t
      → err ≢ none
      → Progress (phases ++ behind) s names err t
  Progress-stops behind ended h = absurd (h refl)
  Progress-stops behind (completes runs p) h = completes runs (Progress-stops behind p h)
  Progress-stops behind (stops runs) h = stops runs

  metadata-Progress :
      (cfg : Config) (now : ℕ) (phases : List ApplyPhase) (s : S) (r : ApplyResult S)
      → Reaches phases [] s r
      → Reaches
          (phases ++ metadata_phase cfg now ∷ [])
          []
          s
          (record_prepare_metadata exec cfg now r)
  unfolding record_prepare_metadata
  metadata-Progress cfg now phases s r (names, c, p) = elim (Option-cases r.err) [
    | inl e ↦ rw (e, record_prepare_metadata) (sent (exec stmt.query stmt.args r.world) refl e)
    | inr (err, e) ↦
        rw (e, record_prepare_metadata)
          (names, c, Progress-stops (metadata_phase cfg now ∷ []) p λ n. cc)
  ]
    where
      stmt : ApplyStatement
      stmt = metadata_statement cfg now

      sent :
          (o : Option Error × S)
          → exec stmt.query stmt.args r.world ≡ o
          → r.err ≡ none
          → Reaches (phases ++ metadata_phase cfg now ∷ []) [] s (elim o.0 [
            | some e ↦ record r { err = some (wrap phase_record_prepare_metadata e); world = o.1 }
            | none ↦ record r {
              applied = complete phase_record_prepare_metadata r.applied;
              world = o.1;
            }
          ])
      sent (none, t) q e = (
        names ++ phase_record_prepare_metadata ∷ [],
        rw c refl,
        Progress-append (metadata_phase cfg now ∷ []) p e
            (completes (goes_on q finished) (rw e ended)),
      )
      sent (some err, t) q e = (
        names ++ [],
        c ∙ sym (append-nil names),
        Progress-append (metadata_phase cfg now ∷ []) p e (stops (fails q)),
      )

-- `ApplyAll` never panics. It runs its six phases in order, the schemas, the fixtures of its plans and
-- the metadata row, and in each the statements in order. A phase completes where all its statements
-- succeed; the first statement that fails ends the run, and the error is that of its call, under
-- the name of its phase, with the phases before it completed. Without an error all are.
pub apply_all-Progress :
    {S : Type 0} (exec : ExecContext S) (cfg : Config) (now : ℕ) (s : S)
    → (r : ApplyResult S) × (generic billing : List ApplyStatement) × (apply_all exec cfg now s
        ≡ some r)
      × (generic_fixture_statements (build_applied_state cfg).generic ≡ some generic)
      × (billing_fixture_statements (build_applied_state cfg).billing ≡ some billing)
      × Progress exec
          (phases_of generic billing ++ metadata_phase cfg now ∷ [])
          s
          r.applied.completed_phases
          r.err
          r.world
unfolding apply_all
apply_all-Progress exec cfg now s =
    let (g, b, eg, eb, e) = build_apply_phases_total cfg in
    let r = run_phases exec (phases_of g b) (build_applied_state cfg) s in
    let (names, c, p) =
      metadata-Progress exec cfg now (phases_of g b) s r
        (run_phases-Progress exec (phases_of g b) (build_applied_state cfg) s) in
    (record_prepare_metadata exec cfg now r, g, b, rw e, eg, eb, rw c p)
