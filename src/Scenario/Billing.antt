-- ===== src/Scenario/Billing.antt =====
-- The scenarios of internal/scenario/billing.go.
use tidb_fk_test.Base.{true, false, List, [], ◌∷◌, codes}
use tidb_fk_test.Seed.Billing.Slots.{
  JournalPostingBillSlot, FolioBalanceUpdateSlot, FkBackfillSlot, PaymentMixedReferenceSlot,
  CascadePathSlot,
}
use tidb_fk_test.Seed.Value.{int64, str, null}
use tidb_fk_test.Scenario.Steps.{
  BillingStep, BillingExecScenario, new_billing_exec_scenario, select_pool_slot, then_build,
}

unfoldable pub billing_journal_posting_bill_steps : JournalPostingBillSlot → List BillingStep
billing_journal_posting_bill_steps slot =
    record {
      query = codes "DELETE FROM bill WHERE id = ?";
      args = int64 slot.bill_id ∷ [];
      query_row = false;
    }
    ∷ record {
      query = codes "DELETE FROM posting WHERE id = ?";
      args = int64 slot.posting_id ∷ [];
      query_row = false;
    }
    ∷ record {
      query = codes "DELETE FROM journal WHERE id = ?";
      args = int64 slot.journal_id ∷ [];
      query_row = false;
    }
    ∷ record {
      query =
          codes
            "INSERT INTO journal (id, customer_id, folio_id, member_id, reference, amount_cents) VALUES (?, ?, ?, ?, ?, ?)";
      args =
          int64 slot.journal_id
          ∷ int64 slot.customer_id
          ∷ int64 slot.folio_id
          ∷ null
          ∷ str (codes "billing-journal")
          ∷ int64 1500
          ∷ [];
      query_row = false;
    }
    ∷ record {
      query =
          codes "INSERT INTO posting (id, journal_id, status, amount_cents) VALUES (?, ?, ?, ?)";
      args = int64 slot.posting_id ∷ int64 slot.journal_id ∷ str (codes "posted") ∷ int64 1500 ∷ [];
      query_row = false;
    }
    ∷ record {
      query =
          codes
            "INSERT INTO bill (id, journal_id, folio_id, status, total_cents, paid_cents) VALUES (?, ?, ?, ?, ?, ?)";
      args =
          int64 slot.bill_id
          ∷ int64 slot.journal_id
          ∷ int64 slot.folio_id
          ∷ str (codes "open")
          ∷ int64 1500
          ∷ int64 0
          ∷ [];
      query_row = false;
    }
    ∷ []

unfoldable pub new_billing_journal_posting_bill : BillingExecScenario
unfolding billing_journal_posting_bill_steps
new_billing_journal_posting_bill =
    new_billing_exec_scenario (codes "billing_journal_posting_bill") 2 λ plan run.
      then_build
        (select_pool_slot (codes "billing_journal_posting_bill") plan.journal_posting_bill_slots run
          (codes "journal/posting/bill fixture slots"))
        billing_journal_posting_bill_steps

unfoldable pub billing_folio_balance_update_steps : FolioBalanceUpdateSlot → List BillingStep
billing_folio_balance_update_steps slot =
    record {
      query = codes "SELECT id FROM foliobalance WHERE id = ? FOR UPDATE";
      args = int64 slot.folio_balance_id ∷ [];
      query_row = true;
    }
    ∷ record {
      query =
          codes
            "UPDATE foliobalance SET balance_cents = balance_cents + ?, updated_count = updated_count + 1 WHERE id = ?";
      args = int64 250 ∷ int64 slot.folio_balance_id ∷ [];
      query_row = false;
    }
    ∷ []

unfoldable pub new_billing_folio_balance_update : BillingExecScenario
unfolding billing_folio_balance_update_steps
new_billing_folio_balance_update =
    new_billing_exec_scenario (codes "billing_folio_balance_update") 2 λ plan run.
      then_build
        (select_pool_slot (codes "billing_folio_balance_update") plan.folio_balance_update_slots run
          (codes "folio balance fixture slots"))
        billing_folio_balance_update_steps

unfoldable pub billing_fk_backfill_steps : FkBackfillSlot → List BillingStep
billing_fk_backfill_steps slot =
    record {
      query = codes "DELETE FROM feelog WHERE id = ?";
      args = int64 slot.fee_log_id ∷ [];
      query_row = false;
    }
    ∷ record {
      query = codes "DELETE FROM withdrawal WHERE id = ?";
      args = int64 slot.withdrawal_id ∷ [];
      query_row = false;
    }
    ∷ record {
      query = codes "DELETE FROM bill WHERE id = ?";
      args = int64 slot.bill_id ∷ [];
      query_row = false;
    }
    ∷ record {
      query = codes "DELETE FROM statement WHERE id = ?";
      args = int64 slot.statement_id ∷ [];
      query_row = false;
    }
    ∷ record {
      query =
          codes
            "INSERT INTO feelog (id, journal_id, fee_bill_id, amount_cents) VALUES (?, ?, ?, ?)";
      args = int64 slot.fee_log_id ∷ int64 slot.journal_id ∷ null ∷ int64 225 ∷ [];
      query_row = false;
    }
    ∷ record {
      query =
          codes
            "INSERT INTO withdrawal (id, journal_id, statement_id, status, amount_cents) VALUES (?, ?, ?, ?, ?)";
      args =
          int64 slot.withdrawal_id
          ∷ int64 slot.journal_id
          ∷ null
          ∷ str (codes "pending")
          ∷ int64 300
          ∷ [];
      query_row = false;
    }
    ∷ record {
      query =
          codes
            "INSERT INTO bill (id, journal_id, folio_id, status, total_cents, paid_cents) VALUES (?, ?, ?, ?, ?, ?)";
      args =
          int64 slot.bill_id
          ∷ int64 slot.journal_id
          ∷ int64 slot.folio_id
          ∷ str (codes "open")
          ∷ int64 225
          ∷ int64 0
          ∷ [];
      query_row = false;
    }
    ∷ record {
      query = codes "UPDATE feelog SET fee_bill_id = ? WHERE id = ?";
      args = int64 slot.bill_id ∷ int64 slot.fee_log_id ∷ [];
      query_row = false;
    }
    ∷ record {
      query =
          codes
            "INSERT INTO statement (id, customer_id, folio_id, status, balance_cents) VALUES (?, ?, ?, ?, ?)";
      args =
          int64 slot.statement_id
          ∷ int64 slot.customer_id
          ∷ int64 slot.folio_id
          ∷ str (codes "issued")
          ∷ int64 525
          ∷ [];
      query_row = false;
    }
    ∷ record {
      query = codes "UPDATE withdrawal SET statement_id = ? WHERE id = ?";
      args = int64 slot.statement_id ∷ int64 slot.withdrawal_id ∷ [];
      query_row = false;
    }
    ∷ []

unfoldable pub new_billing_fk_backfill : BillingExecScenario
unfolding billing_fk_backfill_steps
new_billing_fk_backfill = new_billing_exec_scenario (codes "billing_fk_backfill") 1 λ plan run.
    then_build
      (select_pool_slot (codes "billing_fk_backfill") plan.fk_backfill_slots run
        (codes "FK backfill fixture slots"))
      billing_fk_backfill_steps

unfoldable pub billing_payment_mixed_references_steps : PaymentMixedReferenceSlot → List BillingStep
billing_payment_mixed_references_steps slot =
    record {
      query = codes "DELETE FROM payment WHERE id = ?";
      args = int64 slot.payment_id ∷ [];
      query_row = false;
    }
    ∷ record {
      query = codes "DELETE FROM journal WHERE id = ?";
      args = int64 slot.journal_id ∷ [];
      query_row = false;
    }
    ∷ record {
      query =
          codes
            "INSERT INTO journal (id, customer_id, folio_id, member_id, reference, amount_cents) VALUES (?, ?, ?, ?, ?, ?)";
      args =
          int64 slot.journal_id
          ∷ int64 slot.customer_id
          ∷ int64 slot.folio_id
          ∷ null
          ∷ str (codes "billing-payment")
          ∷ int64 875
          ∷ [];
      query_row = false;
    }
    ∷ record {
      query =
          codes
            "INSERT INTO payment (id, bill_id, journal_id, status, amount_cents) VALUES (?, ?, ?, ?, ?)";
      args =
          int64 slot.payment_id
          ∷ int64 slot.bill_id
          ∷ int64 slot.journal_id
          ∷ str (codes "applied")
          ∷ int64 875
          ∷ [];
      query_row = false;
    }
    ∷ []

unfoldable pub new_billing_payment_mixed_references : BillingExecScenario
unfolding billing_payment_mixed_references_steps
new_billing_payment_mixed_references =
    new_billing_exec_scenario (codes "billing_payment_mixed_references") 2 λ plan run.
      then_build
        (select_pool_slot (codes "billing_payment_mixed_references")
          plan.payment_mixed_reference_slots run (codes "payment mixed-reference fixture slots"))
        billing_payment_mixed_references_steps

unfoldable pub billing_cascade_path_steps : CascadePathSlot → List BillingStep
billing_cascade_path_steps slot =
    record {
      query = codes "DELETE FROM withdrawal WHERE id = ?";
      args = int64 slot.withdrawal_id ∷ [];
      query_row = false;
    }
    ∷ record {
      query = codes "DELETE FROM statement WHERE id = ?";
      args = int64 slot.statement_id ∷ [];
      query_row = false;
    }
    ∷ record {
      query =
          codes
            "INSERT INTO statement (id, customer_id, folio_id, status, balance_cents) VALUES (?, ?, ?, ?, ?)";
      args =
          int64 slot.statement_id
          ∷ int64 slot.customer_id
          ∷ int64 slot.folio_id
          ∷ str (codes "issued")
          ∷ int64 640
          ∷ [];
      query_row = false;
    }
    ∷ record {
      query =
          codes
            "INSERT INTO withdrawal (id, journal_id, statement_id, status, amount_cents) VALUES (?, ?, ?, ?, ?)";
      args =
          int64 slot.withdrawal_id
          ∷ int64 slot.journal_id
          ∷ int64 slot.statement_id
          ∷ str (codes "pending")
          ∷ int64 640
          ∷ [];
      query_row = false;
    }
    ∷ record {
      query = codes "DELETE FROM statement WHERE id = ?";
      args = int64 slot.statement_id ∷ [];
      query_row = false;
    }
    ∷ []

unfoldable pub new_billing_cascade_path : BillingExecScenario
unfolding billing_cascade_path_steps
new_billing_cascade_path = new_billing_exec_scenario (codes "billing_cascade_path") 1 λ plan run.
    then_build
      (select_pool_slot (codes "billing_cascade_path") plan.cascade_path_slots run
        (codes "cascade fixture slots"))
      billing_cascade_path_steps
