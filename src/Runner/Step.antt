-- ===== src/Runner/Step.antt =====
-- `runWorkerStep` of internal/runner/engine.go. What is not in the worker's hands is read off an abstract world `S`: the stop flag, the
-- context, the clock and the database. A call may change the world in any way, so the work of the
-- other goroutines at that time is part of it.
pub mod Records
pub mod Closes
use tidb_fk_test.Base.{
  ℕ, Bool, true, false, ◌||◌, Option, none, some, List, [], ◌∷◌, ◌++◌, Text, codes, if◌then◌else◌,
}
use tidb_fk_test.Base.Strings.{contains, to_lower}
use tidb_fk_test.Base.Errors.{Error, canceled, is_error}
use tidb_fk_test.Base.Maps.{Map, lookup, insert, or_else}
use tidb_fk_test.Logging.{LogEvent}
use tidb_fk_test.Db.Session.{Outcome, ok, failed, Tx, BeginTx}
use tidb_fk_test.Scenario.Types.{Metadata, SeedState}
use tidb_fk_test.Scenario.Catalog.{Scenario, meta, run}
use tidb_fk_test.Report.Summary.{Summary, record_classified}

abbrev pub run_phase : Text
run_phase = codes "run"

-- What the engine is given. `lower` is unicode.ToLower above ASCII.
pub record Env (S : Type 0) : Type 0 where
  pub begin_tx : BeginTx S
  pub stop_requested : S → Bool
  pub ctx_err : S → Option Error
  pub now : S → ℕ × S
  pub lower : ℕ → ℕ
  pub seed_state : SeedState

-- What the workers share: the world, the summary, the scenarios' counters, and the error log.
pub record Shared (S : Type 0) : Type 0 where
  pub world : S
  pub summary : Summary
  pub counters : Map ℕ
  pub log : List LogEvent

abbrev is_some {ℓ} : {A : Type ℓ} → Option A → Bool
is_some none = false
is_some (some x) = true

module _ {S : Type 0} (env : Env S) where
  unfoldable pub should_stop : S → Bool
  should_stop s = env.stop_requested s || is_some (env.ctx_err s)

  unfoldable pub should_ignore_stop_artifact : S → Option Error → Bool
  unfolding codes
  should_ignore_stop_artifact s none = false
  should_ignore_stop_artifact s (some err) =
      if env.stop_requested s || is_error (env.ctx_err s) canceled
      then if is_error (some err) canceled
        then true
        else contains (to_lower env.lower err.text) (codes "context canceled")
      else false

  unfoldable pub record_and_log_error : ℕ → Metadata → Text → Error → Shared S → Shared S
  unfolding record_classified codes
  record_and_log_error worker_id m step err st =
      let (at, s) = env.now st.world in
      let (summary, result) = record_classified env.lower m (some err) at st.summary in
      let (at', s') = env.now s in
      record st {
        world = s';
        summary = summary;
        log =
            st.log
            ++ record {
              timestamp = at';
              phase = run_phase;
              scenario = m.name;
              worker_id = worker_id;
              txn_name = m.name;
              step_name = step;
              classified_as = result.kind;
              error_text = result.error_text;
            }
              ∷ [];
      }

  -- if e.shouldIgnoreStopArtifact(ctx, err) { return }, then e.recordAndLogError
  unfoldable pub report_error : ℕ → Metadata → Text → Error → Shared S → Shared S
  unfolding should_ignore_stop_artifact record_and_log_error
  report_error worker_id m step err st =
      if should_ignore_stop_artifact st.world (some err)
      then st
      else record_and_log_error worker_id m step err st

  abbrev rolled_back : Tx S → Shared S → Shared S
  rolled_back tx st = record st { world = (tx.rollback st.world).1 }

  -- Behind the call of `Commit`.
  abbrev pub committed : ℕ → Metadata → Tx S → Shared S → Option Error × S → Shared S
  committed worker_id m tx st (some e, s) =
      report_error worker_id m (codes "commit") e (rolled_back tx (record st { world = s }))
  committed worker_id m tx st (none, s) =
      let (at, s') = env.now s in
      record st { world = s'; summary = (record_classified env.lower m none at st.summary).0 }

  -- Behind the call of `Run`, which left the world and the counter in `st`.
  unfoldable pub ran : ℕ → Metadata → Tx S → Shared S → Option Error → Shared S
  unfolding report_error record_classified codes
  ran worker_id m tx st (some e) = report_error worker_id m (codes "run") e (rolled_back tx st)
  ran worker_id m tx st none = committed worker_id m tx st (tx.commit st.world)

  -- Behind the call of `BeginTx`.
  unfoldable pub begun : ℕ → Scenario → Shared S → Outcome (Tx S) × S → Shared S
  unfolding meta run report_error ran lookup insert codes
  begun worker_id item st (failed e, s) =
      report_error worker_id (meta item) (codes "begin_tx") e (record st { world = s })
  begun worker_id item st (ok tx, s) =
      let m = meta item in
      let r = run tx.session item env.seed_state (or_else 0 (lookup m.name st.counters)) s in
      ran worker_id m tx
        (record st { world = r.world; counters = insert m.name r.counter st.counters }) r.err

  unfoldable pub run_worker_step : ℕ → Scenario → Shared S → Shared S
  unfolding should_stop begun
  run_worker_step worker_id item st =
      if should_stop st.world then st else begun worker_id item st (env.begin_tx st.world)
