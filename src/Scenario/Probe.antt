-- ===== src/Scenario/Probe.antt =====
-- The expected-failure probes of internal/scenario/failure_probe.go.
use tidb_fk_test.Base.{ℕ, some, List, [], ◌∷◌, Text, codes, if◌then◌else◌}
use tidb_fk_test.Base.Errors.{new_error}
use tidb_fk_test.Db.Session.{TxSession, Outcome, ok, failed}
use tidb_fk_test.Seed.Billing.Slots.{
  PaymentBillUpdateProbeSlot, StatementFolioParentUpdateProbeSlot,
}
use tidb_fk_test.Seed.Value.{int64, str}
use tidb_fk_test.Scenario.Types.{Metadata, SeedState, failure_probe_group}
use tidb_fk_test.Scenario.Steps.{
  ExecStep, RunResult, select_pool_slot, clone_exec_steps, missing_billing_seed_plan, next_counter,
  run_number, exec_steps, finish_run,
}

unfoldable pub shared_lock_upgrade_expected_error : Text
unfolding codes
shared_lock_upgrade_expected_error =
    codes "upgrading a shared lock to an exclusive lock is not supported"

abbrev probe_meta : Text → Metadata
probe_meta name = record {
  name = name;
  group = failure_probe_group;
  weight = 1;
  concurrency_hint = 1;
  expected_error_match = shared_lock_upgrade_expected_error;
}

abbrev pub payment_bill_update_probe_meta : Metadata
payment_bill_update_probe_meta = probe_meta (codes "payment_bill_update_probe")

abbrev pub statement_folio_parent_update_probe_meta : Metadata
statement_folio_parent_update_probe_meta = probe_meta (codes "statement_folio_parent_update_probe")

unfoldable pub payment_bill_update_probe_steps : PaymentBillUpdateProbeSlot → List ExecStep
payment_bill_update_probe_steps slot =
    record { query = codes "DELETE FROM payment WHERE id = ?"; args = int64 slot.payment_id ∷ [] }
    ∷ record {
      query =
          codes
            "INSERT INTO payment (id, bill_id, journal_id, status, amount_cents) VALUES (?, ?, ?, ?, ?)";
      args =
          int64 slot.payment_id
          ∷ int64 slot.bill_id
          ∷ int64 slot.journal_id
          ∷ str (codes "pending")
          ∷ int64 450
          ∷ [];
    }
    ∷ record {
      query =
          codes "UPDATE bill SET paid_cents = paid_cents + ?, version = version + 1 WHERE id = ?";
      args = int64 450 ∷ int64 slot.bill_id ∷ [];
    }
    ∷ []

unfoldable pub statement_folio_parent_update_probe_steps :
    StatementFolioParentUpdateProbeSlot → List ExecStep
statement_folio_parent_update_probe_steps slot =
    record {
      query = codes "DELETE FROM statement WHERE id = ?";
      args = int64 slot.statement_id ∷ [];
    }
    ∷ record {
      query =
          codes
            "INSERT INTO statement (id, customer_id, folio_id, status, balance_cents) VALUES (?, ?, ?, ?, ?)";
      args =
          int64 slot.statement_id
          ∷ int64 slot.customer_id
          ∷ int64 slot.folio_id
          ∷ str (codes "issued")
          ∷ int64 525
          ∷ [];
    }
    ∷ record {
      query = codes "UPDATE folio SET last_statement_id = ? WHERE id = ?";
      args = int64 slot.statement_id ∷ int64 slot.folio_id ∷ [];
    }
    ∷ []

module _ {S : Type 0} (sess : TxSession S) where
  -- The common part of the two bodies of `Run`, behind the choice of the slot.
  abbrev pub run_slot {ℓ} : {T : Type ℓ} → Outcome T → (T → List ExecStep) → ℕ → S → RunResult S
  run_slot (failed e) steps counter s = record { err = some e; counter = counter; world = s }
  run_slot (ok slot) steps counter s =
      finish_run sess counter (exec_steps sess (clone_exec_steps (steps slot)) s)

  unfoldable pub payment_bill_update_probe_run : SeedState → ℕ → S → RunResult S
  unfolding missing_billing_seed_plan next_counter run_number clone_exec_steps exec_steps
      select_pool_slot payment_bill_update_probe_steps codes
  payment_bill_update_probe_run seed_state counter s =
      if missing_billing_seed_plan seed_state.billing
      then record {
        err = some (new_error (codes "payment_bill_update_probe: billing seed plan required"));
        counter = counter;
        world = s;
      }
      else run_slot
          (select_pool_slot (codes "payment_bill_update_probe")
            seed_state.billing.payment_bill_update_probe_slots (run_number counter)
            (codes "payment/bill update probe fixture slots"))
          payment_bill_update_probe_steps (next_counter counter) s

  unfoldable pub statement_folio_parent_update_probe_run : SeedState → ℕ → S → RunResult S
  unfolding missing_billing_seed_plan next_counter run_number clone_exec_steps exec_steps
      select_pool_slot statement_folio_parent_update_probe_steps codes
  statement_folio_parent_update_probe_run seed_state counter s =
      if missing_billing_seed_plan seed_state.billing
      then record {
        err =
            some
              (new_error (codes "statement_folio_parent_update_probe: billing seed plan required"));
        counter = counter;
        world = s;
      }
      else run_slot
          (select_pool_slot (codes "statement_folio_parent_update_probe")
            seed_state.billing.statement_folio_parent_update_probe_slots (run_number counter)
            (codes "statement/folio parent-update probe fixture slots"))
          statement_folio_parent_update_probe_steps (next_counter counter) s
