-- ===== src/Seed/Billing/Slots.antt =====
-- The fixture pools of internal/seed/billing.go. The lists of customers and folios have an entry
-- each, so an index that is reduced modulo their length is in range.
use tidb_fk_test.Base.{ℕ, ◌%◌, List, length}
use tidb_fk_test.Base.Ints.{add64}
use tidb_fk_test.Seed.Value.{build, get_or}

abbrev pub billing_fixture_pool_size : ℕ
billing_fixture_pool_size = 4

pub record JournalPostingBillSlot : Type 0 where
  pub customer_id : ℕ
  pub folio_id : ℕ
  pub journal_id : ℕ
  pub posting_id : ℕ
  pub bill_id : ℕ

pub record FolioBalanceUpdateSlot : Type 0 where
  pub customer_id : ℕ
  pub folio_id : ℕ
  pub folio_balance_id : ℕ

pub record FkBackfillSlot : Type 0 where
  pub customer_id : ℕ
  pub folio_id : ℕ
  pub journal_id : ℕ
  pub bill_id : ℕ
  pub fee_log_id : ℕ
  pub statement_id : ℕ
  pub withdrawal_id : ℕ

pub record PaymentMixedReferenceSlot : Type 0 where
  pub customer_id : ℕ
  pub folio_id : ℕ
  pub bill_id : ℕ
  pub journal_id : ℕ
  pub payment_id : ℕ

pub record CascadePathSlot : Type 0 where
  pub customer_id : ℕ
  pub folio_id : ℕ
  pub journal_id : ℕ
  pub statement_id : ℕ
  pub withdrawal_id : ℕ

pub record PaymentBillUpdateProbeSlot : Type 0 where
  pub customer_id : ℕ
  pub folio_id : ℕ
  pub bill_id : ℕ
  pub journal_id : ℕ
  pub payment_id : ℕ

pub record StatementFolioParentUpdateProbeSlot : Type 0 where
  pub customer_id : ℕ
  pub folio_id : ℕ
  pub statement_id : ℕ

-- ids[i%len(ids)]
abbrev pub cyclic : List ℕ → ℕ → ℕ
cyclic ids i = get_or ids (i % length ids) 0

module _ (customer_ids folio_ids : List ℕ) where
  unfoldable pub build_journal_posting_bill_slots : ℕ → ℕ → ℕ → List JournalPostingBillSlot
  unfolding build add64
  build_journal_posting_bill_slots first_journal_id first_posting_id first_bill_id =
      build billing_fixture_pool_size 0 λ i. record {
        customer_id = cyclic customer_ids i;
        folio_id = cyclic folio_ids i;
        journal_id = add64 first_journal_id i;
        posting_id = add64 first_posting_id i;
        bill_id = add64 first_bill_id i;
      }

  unfoldable pub build_folio_balance_update_slots : ℕ → List FolioBalanceUpdateSlot
  unfolding build add64
  build_folio_balance_update_slots first_balance_id = build billing_fixture_pool_size 0 λ i.
      record {
        customer_id = cyclic customer_ids i;
        folio_id = cyclic folio_ids i;
        folio_balance_id = add64 first_balance_id i;
      }

  unfoldable pub build_fk_backfill_slots : ℕ → ℕ → ℕ → ℕ → ℕ → List FkBackfillSlot
  unfolding build add64
  build_fk_backfill_slots first_journal_id first_bill_id first_fee_log_id first_statement_id
        first_withdrawal_id =
      build billing_fixture_pool_size 0 λ i. record {
        customer_id = cyclic customer_ids i;
        folio_id = cyclic folio_ids i;
        journal_id = add64 first_journal_id i;
        bill_id = add64 first_bill_id i;
        fee_log_id = add64 first_fee_log_id i;
        statement_id = add64 first_statement_id i;
        withdrawal_id = add64 first_withdrawal_id i;
      }

  unfoldable pub build_payment_mixed_reference_slots : ℕ → ℕ → ℕ → List PaymentMixedReferenceSlot
  unfolding build add64
  build_payment_mixed_reference_slots bill_id first_journal_id first_payment_id =
      build billing_fixture_pool_size 0 λ i. record {
        customer_id = cyclic customer_ids i;
        folio_id = cyclic folio_ids i;
        bill_id = bill_id;
        journal_id = add64 first_journal_id i;
        payment_id = add64 first_payment_id i;
      }

  unfoldable pub build_cascade_path_slots : ℕ → ℕ → ℕ → List CascadePathSlot
  unfolding build add64
  build_cascade_path_slots journal_id first_statement_id first_withdrawal_id =
      build billing_fixture_pool_size 0 λ i. record {
        customer_id = cyclic customer_ids i;
        folio_id = cyclic folio_ids i;
        journal_id = journal_id;
        statement_id = add64 first_statement_id i;
        withdrawal_id = add64 first_withdrawal_id i;
      }

  unfoldable pub build_payment_bill_update_probe_slots : ℕ → ℕ → ℕ → List PaymentBillUpdateProbeSlot
  unfolding build add64
  build_payment_bill_update_probe_slots bill_id journal_id first_payment_id =
      build billing_fixture_pool_size 0 λ i. record {
        customer_id = cyclic customer_ids i;
        folio_id = cyclic folio_ids i;
        bill_id = bill_id;
        journal_id = journal_id;
        payment_id = add64 first_payment_id i;
      }

  unfoldable pub build_statement_folio_parent_update_probe_slots :
      ℕ → List StatementFolioParentUpdateProbeSlot
  unfolding build add64
  build_statement_folio_parent_update_probe_slots first_statement_id =
      build billing_fixture_pool_size 0 λ i. record {
        customer_id = cyclic customer_ids i;
        folio_id = cyclic folio_ids i;
        statement_id = add64 first_statement_id i;
      }
