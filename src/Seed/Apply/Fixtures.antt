-- ===== src/Seed/Apply/Fixtures.antt =====
-- `genericFixtureStatements` and `billingFixtureStatements`: the tables, in the order of the inserts.
use mathlib.Core.Option
use tidb_fk_test.Base.{Option, none, some, List, [], ◌∷◌, Text, codes}
use tidb_fk_test.Seed.Value.{Row}
use tidb_fk_test.Seed.Generic.{GenericSeedPlan}
use tidb_fk_test.Seed.Generic.Rows.{
  generic_parent_basic_rows, generic_child_basic_rows, generic_child_rebind_rows,
  generic_parent_cascade_rows, generic_child_cascade_rows, generic_parent_hot_rows,
  generic_child_hot_rows, generic_probe_summary_rows,
}
use tidb_fk_test.Seed.Billing.{BillingSeedPlan}
use tidb_fk_test.Seed.Billing.Rows.{
  billing_customer_rows, billing_folio_rows, billing_journal_rows, billing_posting_rows,
  billing_bill_rows, billing_payment_rows, billing_folio_balance_rows, billing_fee_log_rows,
  billing_statement_rows, billing_withdrawal_rows,
}
use tidb_fk_test.Seed.Apply.Insert.{ApplyStatement, Insert, collect}

abbrev child_columns : List Text
child_columns = codes "id" ∷ codes "parent_id" ∷ codes "payload" ∷ []

abbrev child_update_columns : List Text
child_update_columns = codes "parent_id" ∷ codes "payload" ∷ []

-- An upsert into `table` by its columns, the first of which is the key and is not updated.
abbrev pub upsert : Text → Text → List Text → List Row → Insert
upsert table key others rows = record {
  table = table;
  columns = key ∷ others;
  update_columns = others;
  rows = rows;
}

unfoldable pub generic_fixture_inserts : GenericSeedPlan → List Insert
generic_fixture_inserts plan =
    upsert (codes "parent_basic") (codes "id") (codes "note" ∷ []) (generic_parent_basic_rows plan)
    ∷ upsert (codes "child_basic") (codes "id") child_update_columns (generic_child_basic_rows plan)
    ∷ upsert (codes "child_rebind") (codes "id") child_update_columns
        (generic_child_rebind_rows plan)
    ∷ upsert (codes "parent_cascade") (codes "id") (codes "note" ∷ [])
        (generic_parent_cascade_rows plan)
    ∷ upsert (codes "child_cascade") (codes "id") child_update_columns
        (generic_child_cascade_rows plan)
    ∷ upsert (codes "parent_hot") (codes "id") (codes "note" ∷ []) (generic_parent_hot_rows plan)
    ∷ upsert (codes "child_hot") (codes "id") child_update_columns (generic_child_hot_rows plan)
    ∷ upsert (codes "probe_summary") (codes "singleton_id")
        (codes "expected_fk_failure" ∷ codes "unexpected_failure" ∷ []) generic_probe_summary_rows
    ∷ []

-- The inserts behind the rows of `folio`, which `billingFolioRows` computes and may not.
unfoldable pub billing_inserts : BillingSeedPlan → List Row → List Insert
billing_inserts plan folio_rows =
    upsert (codes "customer") (codes "id") (codes "status" ∷ []) (billing_customer_rows plan)
    ∷ upsert (codes "folio") (codes "id") (codes "customer_id" ∷ codes "last_statement_id" ∷ [])
        folio_rows
    ∷ upsert (codes "journal") (codes "id")
        (codes "customer_id"
          ∷ codes "folio_id"
          ∷ codes "member_id"
          ∷ codes "reference"
          ∷ codes "amount_cents"
          ∷ [])
        (billing_journal_rows plan)
    ∷ upsert (codes "posting") (codes "id")
        (codes "journal_id" ∷ codes "status" ∷ codes "amount_cents" ∷ [])
        (billing_posting_rows plan)
    ∷ upsert (codes "bill") (codes "id")
        (codes "journal_id"
          ∷ codes "folio_id"
          ∷ codes "status"
          ∷ codes "total_cents"
          ∷ codes "paid_cents"
          ∷ codes "version"
          ∷ [])
        (billing_bill_rows plan)
    ∷ upsert (codes "payment") (codes "id")
        (codes "bill_id" ∷ codes "journal_id" ∷ codes "status" ∷ codes "amount_cents" ∷ [])
        (billing_payment_rows plan)
    ∷ upsert (codes "foliobalance") (codes "id")
        (codes "customer_id" ∷ codes "folio_id" ∷ codes "balance_cents" ∷ [])
        (billing_folio_balance_rows plan)
    ∷ upsert (codes "feelog") (codes "id")
        (codes "journal_id" ∷ codes "fee_bill_id" ∷ codes "amount_cents" ∷ [])
        (billing_fee_log_rows plan)
    ∷ upsert (codes "statement") (codes "id")
        (codes "customer_id" ∷ codes "folio_id" ∷ codes "status" ∷ codes "balance_cents" ∷ [])
        (billing_statement_rows plan)
    ∷ upsert (codes "withdrawal") (codes "id")
        (codes "journal_id" ∷ codes "statement_id" ∷ codes "status" ∷ codes "amount_cents" ∷ [])
        (billing_withdrawal_rows plan)
    ∷ []

-- `none` is the panic of `billingFolioRows`.
unfoldable pub billing_fixture_inserts : BillingSeedPlan → Option (List Insert)
unfolding billing_folio_rows billing_inserts
billing_fixture_inserts plan = Option.map (billing_inserts plan) (billing_folio_rows plan)

-- `none` is the panic of `newInsertStatement`, or of `billingFolioRows`.
unfoldable pub generic_fixture_statements : GenericSeedPlan → Option (List ApplyStatement)
unfolding generic_fixture_inserts collect
generic_fixture_statements plan = collect (generic_fixture_inserts plan)

unfoldable pub billing_fixture_statements : BillingSeedPlan → Option (List ApplyStatement)
unfolding billing_fixture_inserts collect
billing_fixture_statements plan = elim (billing_fixture_inserts plan) [
  | none ↦ none
  | some inserts ↦ collect inserts
]
