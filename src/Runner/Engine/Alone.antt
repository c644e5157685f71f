-- ===== src/Runner/Engine/Alone.antt =====
-- A worker that nobody interrupts does what `runWorkerStep` does.
use tidb_fk_test.Base.{
  ℕ, zero, suc, ◌≡◌, refl, ap, ◌∙◌, Bool, true, false, Option, none, some, Text, codes,
  if◌then◌else◌,
}
use tidb_fk_test.Base.Errors.{Error}
use tidb_fk_test.Base.Maps.{lookup, insert, or_else}
use tidb_fk_test.Db.Session.{Outcome, ok, failed, Tx}
use tidb_fk_test.Scenario.Catalog.{Scenario, meta, run}
use tidb_fk_test.Scenario.Steps.{RunResult}
use tidb_fk_test.Runner.Plans.{WorkerPlan}
use tidb_fk_test.Runner.Step.{
  Env, Shared, should_stop, report_error, committed, ran, begun, run_worker_step,
}
use tidb_fk_test.Runner.Engine.{
  Pc, top, checks, begins, runs, commits, rolls_back, reports, records, begun_pc, run_pc,
  committed_pc, in_world, move,
}

module _ {S : Type 0} (env : Env S) (id : ℕ) where
  -- `n` steps of the worker in a row.
  unfoldable pub iterate : ℕ → Pc S × Shared S → Pc S × Shared S
  unfolding move
  iterate zero x = x
  iterate (suc n) (pc, st) = iterate n (move env id pc st)

  -- Some steps in a row lead from one place to another.
  abbrev pub Leads : Pc S × Shared S → Pc S × Shared S → Type 0
  Leads x y = (n : ℕ) × (iterate n x ≡ y)

  one_more :
      (pc : Pc S) (st : Shared S) (y z : Pc S × Shared S)
      → move env id pc st ≡ y
      → Leads y z
      → Leads (pc, st) z
  unfolding iterate
  one_more pc st y z e (n, h) = (suc n, ap (iterate n) e ∙ h)

  here : (x : Pc S × Shared S) → Leads x x
  unfolding iterate
  here x = (0, refl)

  module _ (plan : WorkerPlan) (item : Scenario) where
    reports-Leads :
        (step : Text) (e : Error) (st : Shared S)
        → Leads (reports plan item step e, st) (top plan, report_error env id (meta item) step e st)
    unfolding move
    reports-Leads step e st = one_more _ st _ _ refl (here _)

    rolls_back-Leads :
        (tx : Tx S) (step : Text) (e : Error) (st : Shared S)
        → Leads
            (rolls_back plan item tx step e, st)
            (
              top plan,
              report_error env id (meta item) step e (in_world env st (tx.rollback st.world).1),
            )
    unfolding move
    rolls_back-Leads tx step e st = one_more _ st _ _ refl (reports-Leads step e _)

    commits-Leads :
        (tx : Tx S) (st : Shared S) (c : Option Error × S)
        → tx.commit st.world ≡ c
        → Leads (commits plan item tx, st) (top plan, committed env id (meta item) tx st c)
    unfolding move
    commits-Leads tx st (some e, s) h =
        one_more _ st (rolls_back plan item tx (codes "commit") e, in_world env st s) _
          (ap (λ (c : Option Error × S). (committed_pc env plan item tx c.0, in_world env st c.1))
            h)
          (rolls_back-Leads tx (codes "commit") e _)
    commits-Leads tx st (none, s) h =
        one_more _ st (records plan item, in_world env st s) _
          (ap (λ (c : Option Error × S). (committed_pc env plan item tx c.0, in_world env st c.1))
            h)
          (one_more _ _ _ _ refl (here _))

    module _ (tx : Tx S) (st : Shared S) where
      result : RunResult S
      result =
          run tx.session item env.seed_state (or_else 0 (lookup (meta item).name st.counters))
            st.world

      after_run : Shared S
      after_run = record st {
        world = result.world;
        counters = insert (meta item).name result.counter st.counters;
      }

      runs-Leads :
          (err : Option Error)
          → result.err ≡ err
          → Leads (runs plan item tx, st) (top plan, ran env id (meta item) tx after_run err)
      unfolding move ran result after_run
      runs-Leads (some e) h =
          one_more _ st (rolls_back plan item tx (codes "run") e, after_run) _
            (ap (λ (o : Option Error). (run_pc env plan item tx o, after_run)) h)
            (rolls_back-Leads tx (codes "run") e after_run)
      runs-Leads none h =
          one_more _ st (commits plan item tx, after_run) _
            (ap (λ (o : Option Error). (run_pc env plan item tx o, after_run)) h)
            (commits-Leads tx after_run (tx.commit after_run.world) refl)

    goes : Shared S → Outcome (Tx S) × S → Pc S × Shared S
    goes st o = (begun_pc env plan item o.0, in_world env st o.1)

    begun-Leads :
        (st : Shared S) (o : Outcome (Tx S) × S)
        → Leads (goes st o) (top plan, begun env id item st o)
    unfolding begun goes result after_run
    begun-Leads st (failed e, s) = reports-Leads (codes "begin_tx") e _
    begun-Leads st (ok tx, s) = runs-Leads tx (in_world env st s) _ refl

    -- A worker whose steps no other step interrupts goes from the check of the stop flag in
    -- `runWorkerStep` back to the top of its loop, and leaves exactly what `runWorkerStep` leaves: the
    -- world, the summary, the counters and the log.
    move-run_worker_step :
        (st : Shared S) → Leads (checks plan item, st) (top plan, run_worker_step env id item st)
    unfolding run_worker_step move goes
    move-run_worker_step st = split (should_stop env st.world) refl
      where
        split :
            (b : Bool)
            → should_stop env st.world ≡ b
            → Leads
                (checks plan item, st)
                (top plan, (if b then st else begun env id item st (env.begin_tx st.world)))
        split true h =
            one_more _ st (top plan, st) _
              (ap (λ (b : Bool). if b then (top plan, st) else (begins plan item, st)) h) (here _)
        split false h =
            one_more _ st (begins plan item, st) _
              (ap (λ (b : Bool). if b then (top plan, st) else (begins plan item, st)) h)
              (one_more _ st (goes st (env.begin_tx st.world)) _ refl
                (begun-Leads st (env.begin_tx st.world)))
