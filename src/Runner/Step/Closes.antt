-- ===== src/Runner/Step/Closes.antt =====
-- No step leaves a transaction open.
use tidb_fk_test.Base.{ℕ, ◌≡◌, inl, inr, Option, none, some, Text}
use mathlib.Core.Path.{subst, sym}
use tidb_fk_test.Base.Errors.{Error}
use tidb_fk_test.Db.Session.{ok, failed, Tx}
use tidb_fk_test.Scenario.Catalog.{Scenario}
use tidb_fk_test.Runner.Step.{Env, Shared, run_worker_step}
use tidb_fk_test.Runner.Step.Records.{
  Transacts, begin_fails, run_fails, commit_fails, commits, Steps, clock_read, run_worker_step_lem,
}

module _ {S : Type 0} (env : Env S) (Closed : S → Type 0) where
  -- What the code relies on in database/sql, for the transaction that a worker holds: a `BeginTx`
  -- with an error opens none, a `Commit` without an error and any `Rollback` close it. The clock
  -- opens none.
  pub record ClosesTx : Type 0 where
    pub begin_fails : (e : Error) (s t : S) → env.begin_tx s ≡ (failed e, t) → Closed s → Closed t
    pub commit :
        (tx : Tx S) (r s t : S)
        → env.begin_tx r ≡ (ok tx, s)
        → (u : S) → tx.commit u ≡ (none, t)
        → Closed t
    pub rollback : (tx : Tx S) (r s u : S) → env.begin_tx r ≡ (ok tx, s) → Closed (tx.rollback u).1
    pub now : (s : S) → Closed s → Closed (env.now s).1

  module _ (c : ClosesTx) where
    Transacts-Closed :
        (item : Scenario) (counter : ℕ) (s t : S) (out : Option (Text × Error))
        → Transacts env item counter s t out
        → Closed s
        → Closed t
    Transacts-Closed item counter s _ _ (begin_fails e t b) h = c.begin_fails e s t b h
    Transacts-Closed item counter s _ _ (run_fails tx e s' b r) h = c.rollback tx s s' _ b
    Transacts-Closed item counter s _ _ (commit_fails tx e s' t b r k) h = c.rollback tx s s' t b
    Transacts-Closed item counter s _ _ (commits tx s' t b r k) h = c.commit tx s s' t b _ k

    clock_read-Closed :
        (s : S) (out : Option (Text × Error)) → Closed s → Closed (clock_read env s out)
    clock_read-Closed s none h = c.now s h
    clock_read-Closed s (some e) h = c.now _ (c.now s h)

    Steps-Closed :
        (worker_id : ℕ) (item : Scenario) (before after : Shared S)
        → Steps env worker_id item before after
        → Closed before.world
        → Closed after.world
    Steps-Closed worker_id item before after (s, out, t, inl r) h =
        subst Closed (sym r.world) (Transacts-Closed item _ _ s out t h)
    Steps-Closed worker_id item before after (s, out, t, inr r) h =
        subst Closed (sym r.world) (clock_read-Closed s out (Transacts-Closed item _ _ s out t h))

    -- A step that starts without an open transaction ends without one, on every path: after a failed
    -- begin, run or commit, after a success, and where a stop is requested.
    pub run_worker_step-Closed :
        (worker_id : ℕ) (item : Scenario) (st : Shared S)
        → Closed st.world
        → Closed (run_worker_step env worker_id item st).world
    run_worker_step-Closed worker_id item st h = elim (run_worker_step_lem env worker_id item st) [
      | inl (_, e) ↦ subst (λ (q : Shared S). Closed q.world) (sym e) h
      | inr (_, steps) ↦ Steps-Closed worker_id item st _ steps h
    ]
