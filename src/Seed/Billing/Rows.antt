-- ===== src/Seed/Billing/Rows.antt =====
-- The row builders of internal/seed/billing.go.
pub mod Folios
use mathlib.Core.Option
use tidb_fk_test.Base.{ℕ, ◌+◌, Option, none, some, get_elem?, List, [], ◌∷◌, ◌++◌, map, codes}
use tidb_fk_test.Seed.Value.{Row, int64, str, null}
use tidb_fk_test.Seed.Billing.{BillingSeedPlan}
use tidb_fk_test.Seed.Billing.Slots.{
  JournalPostingBillSlot, FolioBalanceUpdateSlot, FkBackfillSlot, PaymentMixedReferenceSlot,
  CascadePathSlot, PaymentBillUpdateProbeSlot,
}

unfoldable pub billing_customer_rows : BillingSeedPlan → List Row
billing_customer_rows plan =
    map (λ customer_id. int64 customer_id ∷ str (codes "active") ∷ []) plan.customer_ids

-- for index, folioID := range folio_ids, from `index`. `none` is the panic of plan.CustomerIDs[index]
-- out of range.
unfoldable pub folio_rows : ℕ → List ℕ → List ℕ → Option (List Row)
folio_rows index customer_ids [] = some []
folio_rows index customer_ids (folio_id ∷ folio_ids) = elim (get_elem? customer_ids index) [
  | none ↦ none
  | some customer_id ↦
      Option.map (◌∷◌ (int64 folio_id ∷ int64 customer_id ∷ null ∷ []))
        (folio_rows (index + 1) customer_ids folio_ids)
]

unfoldable pub billing_folio_rows : BillingSeedPlan → Option (List Row)
unfolding folio_rows
billing_folio_rows plan = folio_rows 0 plan.customer_ids plan.folio_ids

-- The rows under the guard `len(plan.CustomerIDs) == 0`.
abbrev pub with_customers : List ℕ → List Row → List Row
with_customers [] rows = []
with_customers (id ∷ ids) rows = rows

unfoldable pub billing_journal_rows : BillingSeedPlan → List Row
billing_journal_rows plan = with_customers plan.customer_ids (
    (int64 plan.existing_journal_id
      ∷ int64 plan.existing_customer_id
      ∷ int64 plan.existing_folio_id
      ∷ null
      ∷ str (codes "seed-existing-journal")
      ∷ int64 500
      ∷ [])
    ∷ (map
          (λ (slot : JournalPostingBillSlot).
            int64 slot.journal_id
            ∷ int64 slot.customer_id
            ∷ int64 slot.folio_id
            ∷ null
            ∷ str (codes "seed-journal-posting")
            ∷ int64 1500
            ∷ [])
          plan.journal_posting_bill_slots
        ++ (map
              (λ (slot : FkBackfillSlot).
                int64 slot.journal_id
                ∷ int64 slot.customer_id
                ∷ int64 slot.folio_id
                ∷ null
                ∷ str (codes "seed-fk-backfill")
                ∷ int64 525
                ∷ [])
              plan.fk_backfill_slots
            ++ map
                (λ (slot : PaymentMixedReferenceSlot).
                  int64 slot.journal_id
                  ∷ int64 slot.customer_id
                  ∷ int64 slot.folio_id
                  ∷ null
                  ∷ str (codes "seed-payment-mixed")
                  ∷ int64 875
                  ∷ [])
                plan.payment_mixed_reference_slots)))

unfoldable pub billing_posting_rows : BillingSeedPlan → List Row
billing_posting_rows plan =
    map
      (λ (slot : JournalPostingBillSlot).
        int64 slot.posting_id ∷ int64 slot.journal_id ∷ str (codes "posted") ∷ int64 1500 ∷ [])
      plan.journal_posting_bill_slots

unfoldable pub billing_bill_rows : BillingSeedPlan → List Row
billing_bill_rows plan = with_customers plan.customer_ids (
    (int64 plan.existing_bill_id
      ∷ int64 plan.existing_journal_id
      ∷ int64 plan.existing_folio_id
      ∷ str (codes "open")
      ∷ int64 2000
      ∷ int64 0
      ∷ int64 0
      ∷ [])
    ∷ (map
          (λ (slot : JournalPostingBillSlot).
            int64 slot.bill_id
            ∷ int64 slot.journal_id
            ∷ int64 slot.folio_id
            ∷ str (codes "open")
            ∷ int64 1500
            ∷ int64 0
            ∷ int64 0
            ∷ [])
          plan.journal_posting_bill_slots
        ++ map
            (λ (slot : FkBackfillSlot).
              int64 slot.bill_id
              ∷ int64 slot.journal_id
              ∷ int64 slot.folio_id
              ∷ str (codes "open")
              ∷ int64 225
              ∷ int64 0
              ∷ int64 0
              ∷ [])
            plan.fk_backfill_slots))

unfoldable pub billing_payment_rows : BillingSeedPlan → List Row
billing_payment_rows plan =
    map
      (λ (slot : PaymentMixedReferenceSlot).
        int64 slot.payment_id
        ∷ int64 slot.bill_id
        ∷ int64 slot.journal_id
        ∷ str (codes "applied")
        ∷ int64 875
        ∷ [])
      plan.payment_mixed_reference_slots
    ++ map
        (λ (slot : PaymentBillUpdateProbeSlot).
          int64 slot.payment_id
          ∷ int64 slot.bill_id
          ∷ int64 slot.journal_id
          ∷ str (codes "probe")
          ∷ int64 100
          ∷ [])
        plan.payment_bill_update_probe_slots

unfoldable pub billing_folio_balance_rows : BillingSeedPlan → List Row
billing_folio_balance_rows plan =
    map
      (λ (slot : FolioBalanceUpdateSlot).
        int64 slot.folio_balance_id ∷ int64 slot.customer_id ∷ int64 slot.folio_id ∷ int64 0 ∷ [])
      plan.folio_balance_update_slots

unfoldable pub billing_fee_log_rows : BillingSeedPlan → List Row
billing_fee_log_rows plan =
    map
      (λ (slot : FkBackfillSlot).
        int64 slot.fee_log_id ∷ int64 slot.journal_id ∷ int64 slot.bill_id ∷ int64 225 ∷ [])
      plan.fk_backfill_slots

unfoldable pub billing_statement_rows : BillingSeedPlan → List Row
billing_statement_rows plan =
    map
      (λ (slot : FkBackfillSlot).
        int64 slot.statement_id
        ∷ int64 slot.customer_id
        ∷ int64 slot.folio_id
        ∷ str (codes "issued")
        ∷ int64 525
        ∷ [])
      plan.fk_backfill_slots
    ++ map
        (λ (slot : CascadePathSlot).
          int64 slot.statement_id
          ∷ int64 slot.customer_id
          ∷ int64 slot.folio_id
          ∷ str (codes "issued")
          ∷ int64 640
          ∷ [])
        plan.cascade_path_slots

unfoldable pub billing_withdrawal_rows : BillingSeedPlan → List Row
billing_withdrawal_rows plan =
    map
      (λ (slot : FkBackfillSlot).
        int64 slot.withdrawal_id
        ∷ int64 slot.journal_id
        ∷ int64 slot.statement_id
        ∷ str (codes "pending")
        ∷ int64 300
        ∷ [])
      plan.fk_backfill_slots
    ++ map
        (λ (slot : CascadePathSlot).
          int64 slot.withdrawal_id
          ∷ int64 slot.journal_id
          ∷ int64 slot.statement_id
          ∷ str (codes "pending")
          ∷ int64 640
          ∷ [])
        plan.cascade_path_slots
