-- ===== src/Runner/Engine/Safe.antt =====
-- What holds in every state that the workers reach, whatever the order of their steps.
use native.Mathlib.Nat.{mod-lt}
use tidb_fk_test.Base.{
  ℕ, ◌+◌, ◌<◌, Bool, true, false, Option, none, some, length, get_elem?-lt, All, arith,
  if◌then◌else◌, Text,
}
use tidb_fk_test.Base.Errors.{Error}
use tidb_fk_test.Db.Session.{Outcome, ok, failed, Tx}
use tidb_fk_test.Scenario.Types.{Metadata}
use tidb_fk_test.Scenario.Catalog.{Scenario, meta}
use tidb_fk_test.Report.Summary.{Summary, record_classified}
use tidb_fk_test.Report.Summary.Counts.{IsConsistent, record_result-IsConsistent}
use tidb_fk_test.Runner.Plans.{WorkerPlan, next_scenario}
use tidb_fk_test.Runner.Step.{
  Env, Shared, should_stop, should_ignore_stop_artifact, record_and_log_error, report_error,
}
use tidb_fk_test.Runner.Engine.{
  Pc, top, checks, begins, runs, commits, rolls_back, reports, records, returned, crashed, begun_pc,
  run_pc, committed_pc, taken, move, System, Reach,
}
use tidb_fk_test.Runner.Engine.Invariant.{if-pc, Reach-All, Reach-shared}

-- The next scenario of a worker exists.
abbrev pub IsReady : WorkerPlan → Type 0
IsReady plan = plan.next < length plan.scenarios

-- A worker that has not panicked, and whose plan gives a scenario at the top of the loop.
abbrev pub IsSafe : {S : Type 0} → Pc S → Type 0
IsSafe (top plan) = IsReady plan
IsSafe (checks plan item) = IsReady plan
IsSafe (begins plan item) = IsReady plan
IsSafe (runs plan item tx) = IsReady plan
IsSafe (commits plan item tx) = IsReady plan
IsSafe (rolls_back plan item tx step e) = IsReady plan
IsSafe (reports plan item step e) = IsReady plan
IsSafe (records plan item) = IsReady plan
IsSafe returned = Unit
IsSafe crashed = ⊥

module _ {S : Type 0} (env : Env S) (id : ℕ) where
  taken-IsSafe : (plan : WorkerPlan) → IsReady plan → IsSafe (taken env (next_scenario plan))
  unfolding next_scenario
  taken-IsSafe plan h =
      let (item, at) = get_elem?-lt plan.scenarios plan.next h in
      let positive : 0 < length plan.scenarios = omega arith in
      rw (next_scenario, at) (mod-lt (plan.next + 1) positive)

  begun_pc-IsSafe :
      (plan : WorkerPlan) (item : Scenario) (o : Outcome (Tx S))
      → IsReady plan
      → IsSafe (begun_pc env plan item o)
  begun_pc-IsSafe plan item (ok tx) h = h
  begun_pc-IsSafe plan item (failed e) h = h

  run_pc-IsSafe :
      (plan : WorkerPlan) (item : Scenario) (tx : Tx S) (o : Option Error)
      → IsReady plan
      → IsSafe (run_pc env plan item tx o)
  run_pc-IsSafe plan item tx none h = h
  run_pc-IsSafe plan item tx (some e) h = h

  committed_pc-IsSafe :
      (plan : WorkerPlan) (item : Scenario) (tx : Tx S) (o : Option Error)
      → IsReady plan
      → IsSafe (committed_pc env plan item tx o)
  committed_pc-IsSafe plan item tx none h = h
  committed_pc-IsSafe plan item tx (some e) h = h

  move-IsSafe : (pc : Pc S) (st : Shared S) → IsSafe pc → IsSafe (move env id pc st).0
  unfolding move
  move-IsSafe (top plan) st h =
      if-pc env IsSafe (should_stop env st.world) returned (taken env (next_scenario plan)) st tt
        (taken-IsSafe plan h)
  move-IsSafe (checks plan item) st h =
      if-pc env IsSafe (should_stop env st.world) (top plan) (begins plan item) st h h
  move-IsSafe (begins plan item) st h = begun_pc-IsSafe plan item _ h
  move-IsSafe (runs plan item tx) st h = run_pc-IsSafe plan item tx _ h
  move-IsSafe (commits plan item tx) st h = committed_pc-IsSafe plan item tx _ h
  move-IsSafe (rolls_back plan item tx step e) st h = h
  move-IsSafe (reports plan item step e) st h = h
  move-IsSafe (records plan item) st h = h
  move-IsSafe returned st h = h
  move-IsSafe crashed st h = h

  record_classified-IsConsistent :
      (m : Metadata) (e : Option Error) (at : ℕ) (s : Summary)
      → IsConsistent s
      → IsConsistent (record_classified env.lower m e at s).0
  unfolding record_classified
  record_classified-IsConsistent m e at s h = record_result-IsConsistent m _ at s h

  report_error-IsCounted :
      (m : Metadata) (step : Text) (e : Error) (st : Shared S)
      → IsConsistent st.summary
      → IsConsistent (report_error env id m step e st).summary
  unfolding report_error record_and_log_error
  report_error-IsCounted m step e st h = split (should_ignore_stop_artifact env st.world (some e))
    where
      split :
          (b : Bool)
          → IsConsistent (if b then st else record_and_log_error env id m step e st).summary
      split true = h
      split false = record_classified-IsConsistent m (some e) _ st.summary h

  if-IsConsistent :
      (b : Bool) (x y : Pc S) (st : Shared S)
      → IsConsistent st.summary
      → IsConsistent (if◌then◌else◌ {A = Pc S × Shared S} b (x, st) (y, st)).1.summary
  if-IsConsistent true x y st h = h
  if-IsConsistent false x y st h = h

  move-IsConsistent :
      (pc : Pc S) (st : Shared S)
      → IsConsistent st.summary
      → IsConsistent (move env id pc st).1.summary
  unfolding move
  move-IsConsistent (top plan) st h =
      if-IsConsistent (should_stop env st.world) returned (taken env (next_scenario plan)) st h
  move-IsConsistent (checks plan item) st h =
      if-IsConsistent (should_stop env st.world) (top plan) (begins plan item) st h
  move-IsConsistent (begins plan item) st h = h
  move-IsConsistent (runs plan item tx) st h = h
  move-IsConsistent (commits plan item tx) st h = h
  move-IsConsistent (rolls_back plan item tx step e) st h = h
  move-IsConsistent (reports plan item step e) st h = report_error-IsCounted (meta item) step e st h
  move-IsConsistent (records plan item) st h =
      record_classified-IsConsistent (meta item) none (env.now st.world).0 st.summary h
  move-IsConsistent returned st h = h
  move-IsConsistent crashed st h = h

-- Every worker is safe, and the summary is consistent.
abbrev pub AreSafe : {S : Type 0} → System S → Type 0
AreSafe a = All (λ w. IsSafe w.1) a.workers × IsConsistent a.shared.summary

module _ {S : Type 0} (env : Env S) where
  pub Reach-AreSafe :
      {Outside : S → S → Type 0} {a b : System S} → AreSafe a → Reach env Outside a b → AreSafe b
  Reach-AreSafe (h, k) r = (
    Reach-All env IsSafe (move-IsSafe env) h r,
    Reach-shared env (λ st. IsConsistent st.summary) (move-IsConsistent env) (λ st s o c. c) k r,
  )
