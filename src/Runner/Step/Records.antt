-- ===== src/Runner/Step/Records.antt =====
-- A worker's step as one transaction and one report of its outcome.
use tidb_fk_test.Base.{
  ℕ, ◌≡◌, ◌≢◌, refl, ◌⊎◌, inl, inr, Bool, true, false, Option, none, some, List, [], ◌∷◌, ◌++◌,
  Text, codes, if◌then◌else◌, arith,
}
use tidb_fk_test.Base.Errors.{Error}
use tidb_fk_test.Base.Maps.{Map, insert, lookup, or_else}
use tidb_fk_test.Db.Session.{Outcome, ok, failed, Tx}
use tidb_fk_test.Scenario.Types.{Metadata}
use tidb_fk_test.Scenario.Catalog.{Scenario, meta, run}
use tidb_fk_test.Scenario.Steps.{RunResult}
use tidb_fk_test.Report.Summary.{Summary, record_classified}
use tidb_fk_test.Logging.{LogEvent}
use tidb_fk_test.Runner.Step.{
  run_phase, Env, Shared, should_stop, should_ignore_stop_artifact, record_and_log_error,
  report_error, committed, ran, begun, run_worker_step,
}

module _ {S : Type 0} (env : Env S) where
  -- A transaction of a scenario: it begins, runs and commits, and it is rolled back where the run
  -- or the commit fails. The last index is the name of the step that failed, with its error.
  pub data Transacts (item : Scenario) (counter : ℕ) (s : S)
      : S → Option (Text × Error) → Type 0 where
    begin_fails :
        (e : Error) (s' : S)
        → env.begin_tx s ≡ (failed e, s')
        → Transacts item counter s s' (some (codes "begin_tx", e))
    run_fails :
        (tx : Tx S) (e : Error) (s' : S)
        → env.begin_tx s ≡ (ok tx, s')
        → (run tx.session item env.seed_state counter s').err ≡ some e
        → Transacts item counter s
            (tx.rollback (run tx.session item env.seed_state counter s').world).1
            (some (codes "run", e))
    commit_fails :
        (tx : Tx S) (e : Error) (s' t : S)
        → env.begin_tx s ≡ (ok tx, s')
        → (run tx.session item env.seed_state counter s').err ≡ none
        → tx.commit (run tx.session item env.seed_state counter s').world ≡ (some e, t)
        → Transacts item counter s (tx.rollback t).1 (some (codes "commit", e))
    commits :
        (tx : Tx S) (s' t : S)
        → env.begin_tx s ≡ (ok tx, s')
        → (run tx.session item env.seed_state counter s').err ≡ none
        → tx.commit (run tx.session item env.seed_state counter s').world ≡ (none, t)
        → Transacts item counter s t none

  abbrev pub error_of : Option (Text × Error) → Option Error
  error_of none = none
  error_of (some (step, e)) = some e

  -- The log, with an entry for an error: what was classified, at the second reading of the clock.
  abbrev pub logged :
      ℕ → Metadata → S → Summary → List LogEvent → Option (Text × Error) → List LogEvent
  logged worker_id m s summary log none = log
  logged worker_id m s summary log (some (step, e)) =
      let result = (record_classified env.lower m (some e) (env.now s).0 summary).1 in
      log
      ++ record {
        timestamp = (env.now (env.now s).1).0;
        phase = run_phase;
        scenario = m.name;
        worker_id = worker_id;
        txn_name = m.name;
        step_name = step;
        classified_as = result.kind;
        error_text = result.error_text;
      }
        ∷ []

  abbrev pub clock_read : S → Option (Text × Error) → S
  clock_read s none = (env.now s).1
  clock_read s (some e) = (env.now (env.now s).1).1

  -- What a step reports of a transaction that left the world `s`: nothing, where it failed while a
  -- stop was requested; otherwise the summary has one result more, and the log an entry for an error.
  pub record IsIgnored (before after : Shared S) (s : S) (out : Option (Text × Error))
      : Type 0 where
    pub fails : error_of out ≢ none
    pub stopped : should_stop env s ≡ true
    pub world : after.world ≡ s
    pub summary : after.summary ≡ before.summary
    pub log : after.log ≡ before.log

  pub record IsReported (worker_id : ℕ) (m : Metadata) (before after : Shared S) (s : S)
      (out : Option (Text × Error)) : Type 0 where
    pub world : after.world ≡ clock_read s out
    pub summary :
        after.summary
        ≡ (record_classified env.lower m (error_of out) (env.now s).0 before.summary).0
    pub log : after.log ≡ logged worker_id m s before.summary before.log out

  abbrev pub Reports : ℕ → Metadata → Shared S → Shared S → S → Option (Text × Error) → Type 0
  Reports worker_id m before after s out =
      IsIgnored before after s out ⊎ IsReported worker_id m before after s out

  ignored-stops :
      (s : S) (e : Error)
      → should_ignore_stop_artifact env s (some e) ≡ true
      → should_stop env s ≡ true
  unfolding should_ignore_stop_artifact should_stop
  ignored-stops s e h = ground arith

  module _ (worker_id : ℕ) (m : Metadata) (before : Shared S) where
    report_error_lem :
        (step : Text) (e : Error) (s : S) (counters : Map ℕ)
        → Reports worker_id m before
            (report_error env worker_id m step e (record before { world = s; counters = counters }))
            s
            (some (step, e))
    unfolding report_error record_and_log_error
    report_error_lem step e s counters = split (should_ignore_stop_artifact env s (some e)) refl
      where
        st : Shared S
        st = record before { world = s; counters = counters }

        split :
            (b : Bool)
            → should_ignore_stop_artifact env s (some e) ≡ b
            → Reports worker_id m before
                (if b then st else record_and_log_error env worker_id m step e st)
                s
                (some (step, e))
        split true h = inl (record {
          fails = λ f. cc;
          stopped = ignored-stops s e h;
          world = refl;
          summary = refl;
          log = refl;
        })
        split false h = inr (record { world = refl; summary = refl; log = refl })

  -- What a step does, where it is not stopped at its start.
  abbrev pub Steps : ℕ → Scenario → Shared S → Shared S → Type 0
  Steps worker_id item before after =
      (s : S) × (out : Option (Text × Error)) × Transacts item
        (or_else 0 (lookup (meta item).name before.counters)) before.world s out
      × Reports worker_id (meta item) before after s out

  module _ (worker_id : ℕ) (item : Scenario) (before : Shared S) where
    counter : ℕ
    counter = or_else 0 (lookup (meta item).name before.counters)

    module _ (tx : Tx S) (s : S) (b : env.begin_tx before.world ≡ (ok tx, s)) where
      result : RunResult S
      result = run tx.session item env.seed_state counter s

      after_run : Shared S
      after_run = record before {
        world = result.world;
        counters = insert (meta item).name result.counter before.counters;
      }

      committed-Steps :
          (c : Option Error × S)
          → result.err ≡ none
          → tx.commit result.world ≡ c
          → Steps worker_id item before (committed env worker_id (meta item) tx after_run c)
      unfolding counter result after_run
      committed-Steps (some e, t) r c = (
        (tx.rollback t).1,
        some (codes "commit", e),
        commit_fails tx e s t b r c,
        report_error_lem worker_id (meta item) before (codes "commit") e (tx.rollback t).1
            after_run.counters,
      )
      committed-Steps (none, t) r c =
          (t, none, commits tx s t b r c, inr (record { world = refl; summary = refl; log = refl }))

      ran-Steps :
          (err : Option Error)
          → result.err ≡ err
          → Steps worker_id item before (ran env worker_id (meta item) tx after_run err)
      unfolding counter result after_run ran
      ran-Steps (some e) r = (
        (tx.rollback result.world).1,
        some (codes "run", e),
        run_fails tx e s b r,
        report_error_lem worker_id (meta item) before (codes "run") e (tx.rollback result.world).1
            after_run.counters,
      )
      ran-Steps none r = committed-Steps (tx.commit result.world) r refl

    begun-Steps :
        (b : Outcome (Tx S) × S)
        → env.begin_tx before.world ≡ b
        → Steps worker_id item before (begun env worker_id item before b)
    unfolding begun counter result after_run
    begun-Steps (failed e, s) b = (
      s,
      some (codes "begin_tx", e),
      begin_fails e s b,
      report_error_lem worker_id (meta item) before (codes "begin_tx") e s before.counters,
    )
    begun-Steps (ok tx, s) b = ran-Steps tx s b (result tx s b).err refl

  -- A step does nothing where a stop is requested at its start. Otherwise it is one transaction of
  -- the scenario, which commits, or fails at one of three points and is rolled back where it had
  -- begun; a failure is left unreported only where a stop is requested behind it, and any other
  -- outcome is classified and added to the summary once, with an entry in the log for an error.
  pub run_worker_step_lem :
      (worker_id : ℕ) (item : Scenario) (before : Shared S)
      → let after = run_worker_step env worker_id item before in
        ((should_stop env before.world ≡ true) × (after ≡ before))
        ⊎ ((should_stop env before.world ≡ false) × Steps worker_id item before after)
  unfolding run_worker_step
  run_worker_step_lem worker_id item before = split (should_stop env before.world) refl
    where
      split :
          (b : Bool)
          → should_stop env before.world ≡ b
          → let after =
              if b then before else begun env worker_id item before (env.begin_tx before.world) in
            ((should_stop env before.world ≡ true) × (after ≡ before))
            ⊎ ((should_stop env before.world ≡ false) × Steps worker_id item before after)
      split true h = inl (h, refl)
      split false h = inr (h, begun-Steps worker_id item before (env.begin_tx before.world) refl)
