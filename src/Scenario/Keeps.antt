-- ===== src/Scenario/Keeps.antt =====
-- What each call of a session keeps, a run of a scenario keeps.
use tidb_fk_test.Base.{
  ℕ, Bool, true, false, Option, none, some, List, [], ◌∷◌, Text, codes, if◌then◌else◌,
}
use tidb_fk_test.Base.Errors.{Error}
use tidb_fk_test.Db.Session.{Outcome, ok, failed, TxSession}
use tidb_fk_test.Seed.Value.{Value}
use tidb_fk_test.Scenario.Types.{SeedState}
use tidb_fk_test.Scenario.Steps.{
  ExecStep, BillingStep, RunResult, exec_steps, scan, billing_steps, finish_run, generic_run,
  billing_run, clone_exec_steps, clone_billing_steps, missing_generic_seed_plan,
  missing_billing_seed_plan, next_counter, run_number, select_pool_slot,
}
use tidb_fk_test.Scenario.Probe.{
  run_slot, payment_bill_update_probe_steps, statement_folio_parent_update_probe_steps,
  payment_bill_update_probe_run, statement_folio_parent_update_probe_run,
}
use tidb_fk_test.Scenario.Catalog.{
  Scenario, generic_exec, billing_exec, payment_bill_update_probe,
  statement_folio_parent_update_probe, placeholder, run,
}

module _ {S : Type 0} (sess : TxSession S) (P : S → Type 0) where
  pub record CallsKeep : Type 0 where
    pub exec_context :
        (query : Text) (args : List Value) (s : S) → P s → P (sess.exec_context query args s).1
    pub query_row_context :
        (query : Text) (args : List Value) (s : S) → P s → P (sess.query_row_context query args s).1

  module _ (k : CallsKeep) where
    exec_steps-keeps : (steps : List ExecStep) (s : S) → P s → P (exec_steps sess steps s).1
    unfolding exec_steps
    exec_steps-keeps [] s h = h
    exec_steps-keeps (step ∷ steps) s h =
        split (sess.exec_context step.query step.args s) (k.exec_context step.query step.args s h)
          (exec_steps-keeps steps)
      where
        split :
            (r : Option Error × S)
            → P r.1
            → ((t : S) → P t → P (exec_steps sess steps t).1)
            → P
                (elim r.0 as (λ _. Option Error × S) [
                  | none ↦ exec_steps sess steps r.1
                  | some e ↦ (some e, r.1)
                ]).1
        split (none, t) p more = more t p
        split (some e, t) p more = p

    scan-keeps : (query : Text) (args : List Value) (s : S) → P s → P (scan sess query args s).1
    scan-keeps query args s h =
        split (sess.query_row_context query args s) (k.query_row_context query args s h)
      where
        split :
            (r : Outcome ℕ × S)
            → P r.1
            → P
                (elim r.0 as (λ _. Option Error × S) [
                  | ok n ↦ (none, r.1)
                  | failed e ↦ (some e, r.1)
                ]).1
        split (ok n, t) p = p
        split (failed e, t) p = p

    step-keeps :
        (b : Bool) (step : BillingStep) (s : S)
        → P s
        → P
            (if b
              then scan sess step.query step.args s
              else sess.exec_context step.query step.args s).1
    step-keeps true step s h = scan-keeps step.query step.args s h
    step-keeps false step s h = k.exec_context step.query step.args s h

    billing_steps-keeps :
        (steps : List BillingStep) (s : S) → P s → P (billing_steps sess steps s).1
    unfolding billing_steps
    billing_steps-keeps [] s h = h
    billing_steps-keeps (step ∷ steps) s h =
        split _ (step-keeps step.query_row step s h) (billing_steps-keeps steps)
      where
        split :
            (r : Option Error × S)
            → P r.1
            → ((t : S) → P t → P (billing_steps sess steps t).1)
            → P
                (elim r.0 as (λ _. Option Error × S) [
                  | none ↦ billing_steps sess steps r.1
                  | some e ↦ (some e, r.1)
                ]).1
        split (none, t) p more = more t p
        split (some e, t) p more = p

    Ends : RunResult S → Type 0
    Ends r = P r.world

    if-Ends : (b : Bool) (x y : RunResult S) → Ends x → Ends y → Ends (if b then x else y)
    if-Ends true x y h k = h
    if-Ends false x y h k = k

    run_slot-keeps :
        {T : Type 0} (o : Outcome T) (steps : T → List ExecStep) (counter : ℕ) (s : S)
        → P s
        → Ends (run_slot sess o steps counter s)
    unfolding Ends
    run_slot-keeps (failed e) steps counter s h = h
    run_slot-keeps (ok slot) steps counter s h =
        exec_steps-keeps (clone_exec_steps (steps slot)) s h

    generic-keeps :
        (o : Outcome (List ExecStep)) (counter : ℕ) (s : S)
        → P s
        → Ends (elim o as (λ _. RunResult S) [
          | failed e ↦ record { err = some e; counter = next_counter counter; world = s }
          | ok steps ↦
              finish_run sess (next_counter counter) (exec_steps sess (clone_exec_steps steps) s)
        ])
    unfolding Ends
    generic-keeps (failed e) counter s h = h
    generic-keeps (ok steps) counter s h = exec_steps-keeps (clone_exec_steps steps) s h

    billing-keeps :
        (o : Outcome (List BillingStep)) (counter : ℕ) (s : S)
        → P s
        → Ends (elim o as (λ _. RunResult S) [
          | failed e ↦ record { err = some e; counter = next_counter counter; world = s }
          | ok steps ↦
              finish_run sess
                (next_counter counter)
                (billing_steps sess (clone_billing_steps steps) s)
        ])
    unfolding Ends
    billing-keeps (failed e) counter s h = h
    billing-keeps (ok steps) counter s h = billing_steps-keeps (clone_billing_steps steps) s h

    -- A run of any scenario keeps what the calls of its session keep.
    pub run-keeps :
        (item : Scenario) (seed : SeedState) (counter : ℕ) (s : S)
        → P s
        → P (run sess item seed counter s).world
    unfolding run generic_run billing_run payment_bill_update_probe_run
        statement_folio_parent_update_probe_run Ends
    run-keeps (generic_exec sc) seed counter s h =
        if-Ends (missing_generic_seed_plan seed.generic) _ _ h
          (generic-keeps (sc.build_steps seed.generic (run_number counter)) counter s h)
    run-keeps (billing_exec sc) seed counter s h =
        if-Ends (missing_billing_seed_plan seed.billing) _ _ h
          (billing-keeps (sc.build_steps seed.billing (run_number counter)) counter s h)
    run-keeps payment_bill_update_probe seed counter s h =
        if-Ends (missing_billing_seed_plan seed.billing) _ _ h (
          run_slot-keeps
            (select_pool_slot (codes "payment_bill_update_probe")
              seed.billing.payment_bill_update_probe_slots (run_number counter)
              (codes "payment/bill update probe fixture slots"))
            payment_bill_update_probe_steps (next_counter counter) s h)
    run-keeps statement_folio_parent_update_probe seed counter s h =
        if-Ends (missing_billing_seed_plan seed.billing) _ _ h (
          run_slot-keeps
            (select_pool_slot (codes "statement_folio_parent_update_probe")
              seed.billing.statement_folio_parent_update_probe_slots (run_number counter)
              (codes "statement/folio parent-update probe fixture slots"))
            statement_folio_parent_update_probe_steps (next_counter counter) s h)
    run-keeps (placeholder m) seed counter s h = h
