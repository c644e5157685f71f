-- ===== src/Scenario/Steps/Calls.antt =====
-- Which calls the steps of a scenario make.
use tidb_fk_test.Base.{
  ℕ, ◌≡◌, refl, sym, if◌then◌else◌, Bool, true, false, Option, none, some, List, [], ◌∷◌,
}
use tidb_fk_test.Base.Errors.{Error}
use tidb_fk_test.Base.Runs.{Runs, finished, goes_on, fails}
use tidb_fk_test.Db.Session.{TxSession, Outcome, ok, failed}
use tidb_fk_test.Scenario.Steps.{ExecStep, BillingStep, exec_steps, billing_steps, scan}

module _ {S : Type 0} (sess : TxSession S) where
  -- A step of a generic scenario sends its statement.
  abbrev pub Sends : ExecStep → S → Option Error → S → Type 0
  Sends step s err t = sess.exec_context step.query step.args s ≡ (err, t)

  -- A step of a billing scenario sends its statement, or asks for a row where it is a locking read;
  -- it fails with the error of that call.
  pub data Makes : BillingStep → S → Option Error → S → Type 0 where
    sends :
        {step : BillingStep} {s t : S} {err : Option Error}
        → step.query_row ≡ false
        → sess.exec_context step.query step.args s ≡ (err, t)
        → Makes step s err t
    locks :
        {step : BillingStep} {s t : S} (rows : ℕ)
        → step.query_row ≡ true
        → sess.query_row_context step.query step.args s ≡ (ok rows, t)
        → Makes step s none t
    refused :
        {step : BillingStep} {s t : S} {e : Error}
        → step.query_row ≡ true
        → sess.query_row_context step.query step.args s ≡ (failed e, t)
        → Makes step s (some e) t

  pub exec_steps-Runs :
      (steps : List ExecStep) (s : S)
      → Runs Sends steps s (exec_steps sess steps s).0 (exec_steps sess steps s).1
  unfolding exec_steps
  exec_steps-Runs [] s = finished
  exec_steps-Runs (step ∷ steps) s =
      sent (sess.exec_context step.query step.args s) refl (exec_steps-Runs steps)
    where
      sent :
          (r : Option Error × S)
          → sess.exec_context step.query step.args s ≡ r
          → ((t : S) → Runs Sends steps t (exec_steps sess steps t).0 (exec_steps sess steps t).1)
          → let q : Option Error × S = elim r.0 [
            | none ↦ exec_steps sess steps r.1
            | some e ↦ (some e, r.1)
          ] in
            Runs Sends (step ∷ steps) s q.0 q.1
      sent (none, t) e more = goes_on e (more t)
      sent (some err, t) e more = fails e

  Makes-step :
      (step : BillingStep) (s : S) (r : Option Error × S)
      → (if step.query_row
          then scan sess step.query step.args s
          else sess.exec_context step.query step.args s)
        ≡ r
      → Makes step s r.0 r.1
  Makes-step step s r e = chosen step.query_row refl e
    where
      chosen :
          (b : Bool)
          → step.query_row ≡ b
          → (if b
              then scan sess step.query step.args s
              else sess.exec_context step.query step.args s)
            ≡ r
          → Makes step s r.0 r.1
      chosen false h q = sends h q
      chosen true h q = scanned (sess.query_row_context step.query step.args s) refl q
        where
          scanned :
              (o : Outcome ℕ × S)
              → sess.query_row_context step.query step.args s ≡ o
              → (elim o.0 [ ok n ↦ (none, o.1) | failed f ↦ (some f, o.1) ]) ≡ r
              → Makes step s r.0 r.1
          scanned (ok rows, t) p w = rw (sym w) (locks rows h p)
          scanned (failed err, t) p w = rw (sym w) (refused h p)

  pub billing_steps-Runs :
      (steps : List BillingStep) (s : S)
      → Runs Makes steps s (billing_steps sess steps s).0 (billing_steps sess steps s).1
  unfolding billing_steps
  billing_steps-Runs [] s = finished
  billing_steps-Runs (step ∷ steps) s = made _ refl (billing_steps-Runs steps)
    where
      made :
          (r : Option Error × S)
          → (if step.query_row
              then scan sess step.query step.args s
              else sess.exec_context step.query step.args s)
            ≡ r
          → ((t : S)
              → Runs Makes steps t (billing_steps sess steps t).0 (billing_steps sess steps t).1)
          → let q : Option Error × S = elim r.0 [
            | none ↦ billing_steps sess steps r.1
            | some e ↦ (some e, r.1)
          ] in
            Runs Makes (step ∷ steps) s q.0 q.1
      made (none, t) e more = goes_on (Makes-step step s (none, t) e) (more t)
      made (some err, t) e more = fails (Makes-step step s (some err, t) e)
