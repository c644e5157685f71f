-- ===== src/Scenario/Steps.antt =====
-- The steps of a scenario and the loops that run them: internal/scenario/generic.go and billing.go.
pub mod Calls
pub mod Slots
use tidb_fk_test.Base.{
  ℕ, ◌+◌, ◌-◌, ◌%◌, ◌^◌, Bool, true, false, ◌&&◌, Option, none, some, List, [], ◌∷◌, ◌++◌, map,
  Text, codes, length, if◌then◌else◌,
}
use tidb_fk_test.Base.Errors.{Error, new_error}
use tidb_fk_test.Db.Session.{TxSession, Outcome, ok, failed}
use tidb_fk_test.Seed.Value.{Value, get_or}
use tidb_fk_test.Seed.Generic.{GenericSeedPlan}
use tidb_fk_test.Seed.Billing.{BillingSeedPlan}
use tidb_fk_test.Scenario.Types.{Metadata, SeedState, generic_group, billing_group}

pub record ExecStep : Type 0 where
  pub query : Text
  pub args : List Value

pub record BillingStep : Type 0 where
  pub query : Text
  pub args : List Value
  pub query_row : Bool

-- append([]any(nil), step.args...): a copy with the same entries.
unfoldable pub clone_exec_steps : List ExecStep → List ExecStep
clone_exec_steps steps =
    map (λ (step : ExecStep). record { query = step.query; args = [] ++ step.args }) steps

unfoldable pub clone_billing_steps : List BillingStep → List BillingStep
clone_billing_steps steps =
    map
      (λ (step : BillingStep). record {
        query = step.query;
        args = [] ++ step.args;
        query_row = step.query_row;
      })
      steps

abbrev pub is_nil {ℓ} : {A : Type ℓ} → List A → Bool
is_nil [] = true
is_nil (x ∷ xs) = false

unfoldable pub missing_generic_seed_plan : GenericSeedPlan → Bool
missing_generic_seed_plan plan =
    is_nil plan.parent_ids
    && (is_nil plan.hot_parent_ids
        && (is_nil plan.insert_existing_parent_slots
            && (is_nil plan.update_child_no_fk_change_slots
                && (is_nil plan.rebind_child_slots
                    && (is_nil plan.insert_parent_then_child_slots
                        && (is_nil plan.insert_parent_then_update_child_slots
                            && (is_nil plan.delete_parent_cascade_slots
                                && is_nil plan.concurrent_hot_parent_insert_slots)))))))

unfoldable pub missing_billing_seed_plan : BillingSeedPlan → Bool
missing_billing_seed_plan plan =
    is_nil plan.customer_ids
    && (is_nil plan.folio_ids
        && (is_nil plan.journal_posting_bill_slots
            && (is_nil plan.folio_balance_update_slots
                && (is_nil plan.fk_backfill_slots
                    && (is_nil plan.payment_mixed_reference_slots
                        && (is_nil plan.cascade_path_slots
                            && (is_nil plan.payment_bill_update_probe_slots
                                && is_nil plan.statement_folio_parent_update_probe_slots)))))))

unfoldable pub select_pool_slot {ℓ} : {T : Type ℓ} → Text → List T → ℕ → Text → Outcome T
unfolding codes
select_pool_slot scenario_name [] run requirement =
    failed (new_error (scenario_name ++ (codes " requires " ++ requirement)))
select_pool_slot scenario_name (slot ∷ slots) run requirement =
    ok (get_or (slot ∷ slots) (run % length (slot ∷ slots)) slot)

-- The rest of a builder, behind `if err != nil { return nil, err }`.
abbrev pub then_build {ℓ κ} : {A : Type ℓ} {B : Type κ} → Outcome A → (A → B) → Outcome B
then_build (ok a) f = ok (f a)
then_build (failed e) f = failed e

pub record GenericExecScenario : Type 0 where
  pub meta : Metadata
  pub build_steps : GenericSeedPlan → ℕ → Outcome (List ExecStep)

pub record BillingExecScenario : Type 0 where
  pub meta : Metadata
  pub build_steps : BillingSeedPlan → ℕ → Outcome (List BillingStep)

abbrev pub new_generic_exec_scenario :
    Text → ℕ → (GenericSeedPlan → ℕ → Outcome (List ExecStep)) → GenericExecScenario
new_generic_exec_scenario name concurrency_hint build_steps = record {
  meta = record {
    name = name;
    group = generic_group;
    weight = 1;
    concurrency_hint = concurrency_hint;
    expected_error_match = [];
  };
  build_steps = build_steps;
}

abbrev pub new_billing_exec_scenario :
    Text → ℕ → (BillingSeedPlan → ℕ → Outcome (List BillingStep)) → BillingExecScenario
new_billing_exec_scenario name concurrency_hint build_steps = record {
  meta = record {
    name = name;
    group = billing_group;
    weight = 1;
    concurrency_hint = concurrency_hint;
    expected_error_match = [];
  };
  build_steps = build_steps;
}

-- runCounter.Add(1), and the run that it stands for, on uint64.
unfoldable pub next_counter : ℕ → ℕ
next_counter counter = (counter + 1) % 2 ^ 64

unfoldable pub run_number : ℕ → ℕ
unfolding next_counter
run_number counter = (next_counter counter + 2 ^ 64 - 1) % 2 ^ 64

-- What a call of `Run` leaves: its error, the scenario's counter, and the world.
pub record RunResult (S : Type 0) : Type 0 where
  pub err : Option Error
  pub counter : ℕ
  pub world : S

module _ {S : Type 0} (sess : TxSession S) where
  unfoldable pub exec_steps : List ExecStep → S → Option Error × S
  exec_steps [] s = (none, s)
  exec_steps (step ∷ steps) s =
      let (err, s') = sess.exec_context step.query step.args s in
      elim err [ none ↦ exec_steps steps s' | some e ↦ (some e, s') ]

  -- The row that a locking read scans is dropped.
  abbrev pub scan : Text → List Value → S → Option Error × S
  scan query args s =
      let (out, s') = sess.query_row_context query args s in
      elim out [ ok n ↦ (none, s') | failed e ↦ (some e, s') ]

  unfoldable pub billing_steps : List BillingStep → S → Option Error × S
  billing_steps [] s = (none, s)
  billing_steps (step ∷ steps) s =
      let (err, s') =
        if step.query_row
        then scan step.query step.args s
        else sess.exec_context step.query step.args s in
      elim err [ none ↦ billing_steps steps s' | some e ↦ (some e, s') ]

  abbrev pub finish_run : ℕ → Option Error × S → RunResult S
  finish_run counter (err, s) = record { err = err; counter = counter; world = s }

  unfoldable pub generic_run : GenericExecScenario → SeedState → ℕ → S → RunResult S
  unfolding missing_generic_seed_plan next_counter run_number clone_exec_steps exec_steps codes
  generic_run sc seed_state counter s =
      if missing_generic_seed_plan seed_state.generic
      then record {
        err = some (new_error (sc.meta.name ++ codes ": generic seed plan required"));
        counter = counter;
        world = s;
      }
      else elim (sc.build_steps seed_state.generic (run_number counter)) [
        | failed e ↦ record { err = some e; counter = next_counter counter; world = s }
        | ok steps ↦ finish_run (next_counter counter) (exec_steps (clone_exec_steps steps) s)
      ]

  unfoldable pub billing_run : BillingExecScenario → SeedState → ℕ → S → RunResult S
  unfolding missing_billing_seed_plan next_counter run_number clone_billing_steps billing_steps
      codes
  billing_run sc seed_state counter s =
      if missing_billing_seed_plan seed_state.billing
      then record {
        err = some (new_error (sc.meta.name ++ codes ": billing seed plan required"));
        counter = counter;
        world = s;
      }
      else elim (sc.build_steps seed_state.billing (run_number counter)) [
        | failed e ↦ record { err = some e; counter = next_counter counter; world = s }
        | ok steps ↦ finish_run (next_counter counter) (billing_steps (clone_billing_steps steps) s)
      ]
