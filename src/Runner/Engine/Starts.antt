-- ===== src/Runner/Engine/Starts.antt =====
-- The workers that `Run` starts, in every state they reach.
use native.Mathlib.Nat.{mod-lt}
use mathlib.Core.Path.{subst}
use tidb_fk_test.Base.{
  ℕ, suc, ◌≡◌, refl, inl, inr, Option, none, some, List, [], ◌∷◌, get_elem?, get_elem?-lt,
  get_elem?-below, All,
}
use tidb_fk_test.Base.Errors.{Error}
use tidb_fk_test.Scenario.Types.{Group}
use tidb_fk_test.Scenario.Catalog.{Scenario}
use tidb_fk_test.Report.Summary.Counts.{IsConsistent}
use tidb_fk_test.Runner.Scheduler.{Worker, workers}
use tidb_fk_test.Runner.Plans.{WorkerPlan, build_worker_plans}
use tidb_fk_test.Runner.Plans.Ready.{AreReady, plan_at, build_worker_plans_lem}
use tidb_fk_test.Runner.Step.{Env, Shared}
use tidb_fk_test.Runner.Engine.{
  EngineConfig, started, validate, validated, plan_for, planned, all_of, start, Pc, System, spawned,
  Reach,
}
use tidb_fk_test.Runner.Engine.Safe.{IsReady, IsSafe, AreSafe, Reach-AreSafe}

AreReady-All :
    (items : List WorkerPlan)
    → ((i : ℕ) (p : WorkerPlan) → get_elem? items i ≡ some p → IsReady p)
    → All IsReady items
AreReady-All [] h = tt
AreReady-All (p ∷ ps) h = (h 0 p refl, AreReady-All ps λ i q e. h (suc i) q e)

AreReady-IsReady :
    (items : Group → List Scenario) (ws : List Worker) (plans : List WorkerPlan)
    → AreReady items (λ g. 0) ws plans
    → All IsReady plans
AreReady-IsReady items ws plans (l, r) = AreReady-All plans ready
  where
    ready : (i : ℕ) (p : WorkerPlan) → get_elem? plans i ≡ some p → IsReady p
    ready i p e =
        let (w, at) = get_elem?-lt ws i (rw (← l) (get_elem?-below plans i p e)) in
        let (positive, f) = r i w at in
        let same : plan_at items (λ g. 0) ws i w ≡ p = cc (e, f) in
        subst IsReady same (mod-lt _ positive)

spawned-All :
    (S : Type 0) (plans : List WorkerPlan)
    → All IsReady plans
    → All (λ (w : ℕ × Pc S). IsSafe w.1) (spawned plans)
spawned-All S [] h = tt
spawned-All S (p ∷ ps) h = (h.0, spawned-All S ps h.1)

start-IsReady :
    {S : Type 0} (cfg : EngineConfig S) (plans : List WorkerPlan)
    → start cfg ≡ started plans
    → All IsReady plans
unfolding start
start-IsReady cfg plans e = validated-ready (validate cfg) e
  where
    built :
        (ws : List Worker)
        → planned (build_worker_plans (all_of cfg.registry) ws) ≡ started plans
        → All IsReady plans
    built ws h =
        let (groups, found) = build_worker_plans_lem (all_of cfg.registry) ws in
        elim found [
          | inl (w, _, _, f) ↦ absurd (cc (rw f at h))
          | inr (ps, f, ready) ↦
              let same : started ps ≡ started plans = rw f at h in
              let q : ps ≡ plans = cc in
              AreReady-IsReady _ ws plans (subst (AreReady _ (λ g. 0) ws) q ready)
        ]

    listed :
        (ws : Option (List Worker))
        → plan_for (all_of cfg.registry) ws ≡ started plans
        → All IsReady plans
    listed none h = absurd (cc)
    listed (some ws) h = built ws h

    validated-ready : (r : Option Error) → validated cfg r ≡ started plans → All IsReady plans
    validated-ready (some x) h = absurd (cc)
    validated-ready none h = listed (workers cfg.scheduler) h

-- In every state that the workers of `Run` reach, whatever the order of their steps, whatever the
-- calls return and whatever the rest of the program does to the world, no worker has read its
-- scenarios out of range, and the totals of the summary are the sums of the scenarios' counters and
-- of the outcomes, if they are at the start.
pub workers-AreSafe :
    {S : Type 0} (env : Env S) (cfg : EngineConfig S) (plans : List WorkerPlan) (shared : Shared S)
    {Outside : S → S → Type 0} (b : System S)
    → start cfg ≡ started plans
    → IsConsistent shared.summary
    → Reach env Outside (record { shared = shared; workers = spawned plans }) b
    → AreSafe b
workers-AreSafe env cfg plans shared b e h r =
    Reach-AreSafe env (spawned-All _ plans (start-IsReady cfg plans e), h) r
