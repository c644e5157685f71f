-- ===== src/Seed/Billing.antt =====
-- internal/seed/billing.go: the plan of the billing fixtures. Ids are `int64`s.
pub mod Slots
pub mod Rows
pub mod Lengths
pub mod Tables
pub mod References
use tidb_fk_test.Base.{ℕ, ◌+◌, ℤ, List, [], ◌∷◌, ◌==◌, if◌then◌else◌}
use tidb_fk_test.Base.Ints.{add64}
use tidb_fk_test.Config.{Config}
use tidb_fk_test.Seed.Value.{build, get_or}
use tidb_fk_test.Seed.Generic.{parent_count}
use Slots.{
  JournalPostingBillSlot, FolioBalanceUpdateSlot, FkBackfillSlot, PaymentMixedReferenceSlot,
  CascadePathSlot, PaymentBillUpdateProbeSlot, StatementFolioParentUpdateProbeSlot,
  build_journal_posting_bill_slots, build_folio_balance_update_slots, build_fk_backfill_slots,
  build_payment_mixed_reference_slots, build_cascade_path_slots,
  build_payment_bill_update_probe_slots, build_statement_folio_parent_update_probe_slots,
}

pub record BillingSeedPlan : Type 0 where
  pub customer_ids : List ℕ
  pub folio_ids : List ℕ
  pub existing_customer_id : ℕ
  pub existing_folio_id : ℕ
  pub existing_journal_id : ℕ
  pub existing_bill_id : ℕ
  pub journal_posting_bill_slots : List JournalPostingBillSlot
  pub folio_balance_update_slots : List FolioBalanceUpdateSlot
  pub fk_backfill_slots : List FkBackfillSlot
  pub payment_mixed_reference_slots : List PaymentMixedReferenceSlot
  pub cascade_path_slots : List CascadePathSlot
  pub payment_bill_update_probe_slots : List PaymentBillUpdateProbeSlot
  pub statement_folio_parent_update_probe_slots : List StatementFolioParentUpdateProbeSlot

abbrev pub empty_billing_plan : BillingSeedPlan
empty_billing_plan = record {
  customer_ids = [];
  folio_ids = [];
  existing_customer_id = 0;
  existing_folio_id = 0;
  existing_journal_id = 0;
  existing_bill_id = 0;
  journal_posting_bill_slots = [];
  folio_balance_update_slots = [];
  fk_backfill_slots = [];
  payment_mixed_reference_slots = [];
  cascade_path_slots = [];
  payment_bill_update_probe_slots = [];
  statement_folio_parent_update_probe_slots = [];
}

-- int64(i+1) and int64(1001+i); the sums of `int`s do not wrap below 2^63 rounds.
unfoldable pub build_customer_ids : ℕ → List ℕ
unfolding build add64
build_customer_ids count = build count 0 λ i. add64 i 1

unfoldable pub build_folio_ids : ℕ → List ℕ
unfolding build add64
build_folio_ids count = build count 0 λ i. add64 1001 i

-- The plan for lists with an entry each.
unfoldable pub billing_plan_of : List ℕ → List ℕ → BillingSeedPlan
unfolding build_journal_posting_bill_slots build_folio_balance_update_slots build_fk_backfill_slots
    build_payment_mixed_reference_slots build_cascade_path_slots
    build_payment_bill_update_probe_slots build_statement_folio_parent_update_probe_slots
billing_plan_of customer_ids folio_ids = record {
  customer_ids = customer_ids;
  folio_ids = folio_ids;
  existing_customer_id = get_or customer_ids 0 0;
  existing_folio_id = get_or folio_ids 0 0;
  existing_journal_id = 3001;
  existing_bill_id = 4001;
  journal_posting_bill_slots =
      build_journal_posting_bill_slots customer_ids folio_ids 10001 11001 12001;
  folio_balance_update_slots = build_folio_balance_update_slots customer_ids folio_ids 13001;
  fk_backfill_slots = build_fk_backfill_slots customer_ids folio_ids 14001 15001 16001 17001 18001;
  payment_mixed_reference_slots =
      build_payment_mixed_reference_slots customer_ids folio_ids 4001 19001 20001;
  cascade_path_slots = build_cascade_path_slots customer_ids folio_ids 3001 21001 22001;
  payment_bill_update_probe_slots =
      build_payment_bill_update_probe_slots customer_ids folio_ids 4001 3001 18001;
  statement_folio_parent_update_probe_slots =
      build_statement_folio_parent_update_probe_slots customer_ids folio_ids 23001;
}

unfoldable pub billing_plan : Config → BillingSeedPlan
unfolding billing_plan_of build_customer_ids build_folio_ids
billing_plan cfg =
    let count = parent_count cfg in
    if count == 0
    then empty_billing_plan
    else billing_plan_of (build_customer_ids count) (build_folio_ids count)
