-- ===== src/Seed/Nulls.antt =====
-- The columns that the CREATE TABLE statements of internal/seed declare NOT NULL.
use tidb_fk_test.Base.{
  ℕ, ◌+◌, ◌≡◌, refl, Bool, true, false, ◌&&◌, List, [], ◌∷◌, map, Text, codes, text_eq, All, ◌⊳◌,
  All-append,
}
use tidb_fk_test.Base.Maps.{Map, lookup, or_else}
use tidb_fk_test.Seed.Value.{Value, Row, int64, int, str, time, null}
use tidb_fk_test.Seed.Integrity.{column}
use tidb_fk_test.Seed.Generic.{GenericSeedPlan}
use tidb_fk_test.Seed.Generic.Rows.{
  generic_parent_basic_rows, generic_child_basic_rows, generic_child_rebind_rows,
  generic_parent_cascade_rows, generic_child_cascade_rows, generic_parent_hot_rows,
  generic_child_hot_rows, generic_probe_summary_rows,
}
use tidb_fk_test.Seed.Billing.{BillingSeedPlan}
use tidb_fk_test.Seed.Billing.Rows.{
  with_customers, billing_customer_rows, billing_journal_rows, billing_posting_rows,
  billing_bill_rows, billing_payment_rows, billing_folio_balance_rows, billing_fee_log_rows,
  billing_statement_rows, billing_withdrawal_rows,
}
use tidb_fk_test.Seed.Billing.Rows.Folios.{paired_rows}
use tidb_fk_test.Seed.Apply.Insert.{Insert}
use tidb_fk_test.Seed.Apply.Fixtures.{generic_fixture_inserts, billing_inserts}

-- By their positions among the columns of the inserts. A primary key is NOT NULL too.
abbrev not_null_columns : Map (List ℕ)
not_null_columns =
    (codes "parent_basic", 0 ∷ 1 ∷ [])
    ∷ (codes "child_basic", 0 ∷ 1 ∷ 2 ∷ [])
    ∷ (codes "child_rebind", 0 ∷ 1 ∷ 2 ∷ [])
    ∷ (codes "parent_cascade", 0 ∷ 1 ∷ [])
    ∷ (codes "child_cascade", 0 ∷ 1 ∷ 2 ∷ [])
    ∷ (codes "parent_hot", 0 ∷ 1 ∷ [])
    ∷ (codes "child_hot", 0 ∷ 1 ∷ 2 ∷ [])
    ∷ (codes "probe_summary", 0 ∷ 1 ∷ 2 ∷ [])
    ∷ (codes "customer", 0 ∷ 1 ∷ [])
    ∷ (codes "folio", 0 ∷ 1 ∷ [])
    ∷ (codes "journal", 0 ∷ 1 ∷ 2 ∷ 4 ∷ 5 ∷ [])
    ∷ (codes "posting", 0 ∷ 1 ∷ 2 ∷ 3 ∷ [])
    ∷ (codes "bill", 0 ∷ 1 ∷ 2 ∷ 3 ∷ 4 ∷ 5 ∷ 6 ∷ [])
    ∷ (codes "payment", 0 ∷ 1 ∷ 2 ∷ 3 ∷ 4 ∷ [])
    ∷ (codes "foliobalance", 0 ∷ 1 ∷ 2 ∷ 3 ∷ [])
    ∷ (codes "feelog", 0 ∷ 1 ∷ 3 ∷ [])
    ∷ (codes "statement", 0 ∷ 1 ∷ 2 ∷ 3 ∷ 4 ∷ [])
    ∷ (codes "withdrawal", 0 ∷ 1 ∷ 3 ∷ 4 ∷ [])
    ∷ []

unfoldable pub not_null : Text → List ℕ
unfolding lookup codes text_eq
not_null table = or_else [] (lookup table not_null_columns)

abbrev is_given : Value → Bool
is_given null = false
is_given (int64 n) = true
is_given (int n) = true
is_given (str t) = true
is_given (time n) = true

abbrev all_given : List ℕ → Row → Bool
all_given [] row = true
all_given (i ∷ is) row = is_given (column i row) && all_given is row

-- None of the columns is NULL in the row.
abbrev pub HasGiven : List ℕ → Row → Type 0
HasGiven columns row = all_given columns row ≡ true

-- No row of the insert has NULL in a column that is NOT NULL.
abbrev pub HasNoNull : Insert → Type 0
HasNoNull i = All (HasGiven (not_null i.table)) i.rows

given_rows {ℓ} :
    {A : Type ℓ} (columns : List ℕ) (f : A → Row) (slots : List A)
    → ((slot : A) → HasGiven columns (f slot))
    → All (HasGiven columns) (map f slots)
given_rows columns f [] h = tt
given_rows columns f (slot ∷ slots) h = (h slot, given_rows columns f slots h)

pub generic_fixture_inserts-HaveNoNull :
    (plan : GenericSeedPlan) → All HasNoNull (generic_fixture_inserts plan)
unfolding generic_fixture_inserts not_null generic_parent_basic_rows generic_child_basic_rows
    generic_child_rebind_rows generic_parent_cascade_rows generic_child_cascade_rows
    generic_parent_hot_rows generic_child_hot_rows generic_probe_summary_rows
generic_fixture_inserts-HaveNoNull plan =
    (given_rows (not_null (codes "parent_basic")) _ plan.parent_ids (λ _. refl))
    ⊳ (All-append (HasGiven (not_null (codes "child_basic"))) _ _
        (given_rows (not_null (codes "child_basic")) _ plan.insert_existing_parent_slots
          (λ _. refl))
        (given_rows (not_null (codes "child_basic")) _ plan.update_child_no_fk_change_slots
          (λ _. refl)))
    ⊳ (All-append (HasGiven (not_null (codes "child_rebind"))) _ _
        (given_rows (not_null (codes "child_rebind")) _ plan.rebind_child_slots (λ _. refl))
        (given_rows (not_null (codes "child_rebind")) _ plan.insert_parent_then_update_child_slots
          (λ _. refl)))
    ⊳ (given_rows (not_null (codes "parent_cascade")) _ plan.delete_parent_cascade_slots
        (λ _. refl))
    ⊳ (given_rows (not_null (codes "child_cascade")) _ plan.delete_parent_cascade_slots (λ _. refl))
    ⊳ (given_rows (not_null (codes "parent_hot")) _ plan.hot_parent_ids (λ _. refl))
    ⊳ (given_rows (not_null (codes "child_hot")) _ plan.concurrent_hot_parent_insert_slots
        (λ _. refl))
    ⊳ (refl ⊳ tt)
    ⊳ tt

paired_rows-given :
    (index : ℕ) (customer_ids folio_ids : List ℕ)
    → All (HasGiven (0 ∷ 1 ∷ [])) (paired_rows index customer_ids folio_ids)
paired_rows-given index customer_ids [] = tt
paired_rows-given index customer_ids (f ∷ fs) = refl ⊳ paired_rows-given (index + 1) customer_ids fs

with_customers-given :
    (columns ids : List ℕ) (rows : List Row)
    → All (HasGiven columns) rows
    → All (HasGiven columns) (with_customers ids rows)
with_customers-given columns [] rows h = tt
with_customers-given columns (id ∷ ids) rows h = h

pub billing_inserts-HaveNoNull :
    (plan : BillingSeedPlan)
    → All HasNoNull (billing_inserts plan (paired_rows 0 plan.customer_ids plan.folio_ids))
unfolding billing_inserts not_null billing_customer_rows billing_journal_rows billing_posting_rows
    billing_bill_rows billing_payment_rows billing_folio_balance_rows billing_fee_log_rows
    billing_statement_rows billing_withdrawal_rows
billing_inserts-HaveNoNull plan =
    (given_rows (not_null (codes "customer")) _ plan.customer_ids (λ _. refl))
    ⊳ (paired_rows-given 0 plan.customer_ids plan.folio_ids)
    ⊳ (with_customers-given (not_null (codes "journal")) plan.customer_ids _ (
        refl
        ⊳ All-append (HasGiven (not_null (codes "journal"))) _ _
            (given_rows (not_null (codes "journal")) _ plan.journal_posting_bill_slots (λ _. refl))
            (All-append (HasGiven (not_null (codes "journal"))) _ _
              (given_rows (not_null (codes "journal")) _ plan.fk_backfill_slots (λ _. refl))
              (given_rows (not_null (codes "journal")) _ plan.payment_mixed_reference_slots
                (λ _. refl)))))
    ⊳ (given_rows (not_null (codes "posting")) _ plan.journal_posting_bill_slots (λ _. refl))
    ⊳ (with_customers-given (not_null (codes "bill")) plan.customer_ids _ (
        refl
        ⊳ All-append (HasGiven (not_null (codes "bill"))) _ _
            (given_rows (not_null (codes "bill")) _ plan.journal_posting_bill_slots (λ _. refl))
            (given_rows (not_null (codes "bill")) _ plan.fk_backfill_slots (λ _. refl))))
    ⊳ (All-append (HasGiven (not_null (codes "payment"))) _ _
        (given_rows (not_null (codes "payment")) _ plan.payment_mixed_reference_slots (λ _. refl))
        (given_rows (not_null (codes "payment")) _ plan.payment_bill_update_probe_slots
          (λ _. refl)))
    ⊳ (given_rows (not_null (codes "foliobalance")) _ plan.folio_balance_update_slots (λ _. refl))
    ⊳ (given_rows (not_null (codes "feelog")) _ plan.fk_backfill_slots (λ _. refl))
    ⊳ (All-append (HasGiven (not_null (codes "statement"))) _ _
        (given_rows (not_null (codes "statement")) _ plan.fk_backfill_slots (λ _. refl))
        (given_rows (not_null (codes "statement")) _ plan.cascade_path_slots (λ _. refl)))
    ⊳ (All-append (HasGiven (not_null (codes "withdrawal"))) _ _
        (given_rows (not_null (codes "withdrawal")) _ plan.fk_backfill_slots (λ _. refl))
        (given_rows (not_null (codes "withdrawal")) _ plan.cascade_path_slots (λ _. refl)))
    ⊳ tt
