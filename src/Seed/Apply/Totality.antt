-- ===== src/Seed/Apply/Totality.antt =====
-- The fixture statements are built without a panic, for every plan.
use tidb_fk_test.Base.{
  ℕ, suc, ◌≤◌, ◌<◌, ◌⊎◌, inl, inr, none, arith, leb, Bool-cases, ◌+◌, ◌≡◌, refl, some, List, [],
  ◌∷◌, map, Text, codes, length, All, ◌⊳◌, All-append,
}
use tidb_fk_test.Seed.Value.{Row}
use tidb_fk_test.Seed.Generic.{GenericSeedPlan}
use tidb_fk_test.Seed.Generic.Rows.{
  generic_parent_basic_rows, generic_child_basic_rows, generic_child_rebind_rows,
  generic_parent_cascade_rows, generic_child_cascade_rows, generic_parent_hot_rows,
  generic_child_hot_rows, generic_probe_summary_rows,
}
use tidb_fk_test.Seed.Billing.{BillingSeedPlan}
use tidb_fk_test.Seed.Billing.Rows.{
  with_customers, billing_customer_rows, billing_folio_rows, billing_journal_rows,
  billing_posting_rows, billing_bill_rows, billing_payment_rows, billing_folio_balance_rows,
  billing_fee_log_rows, billing_statement_rows, billing_withdrawal_rows,
}
use tidb_fk_test.Seed.Billing.Rows.Folios.{paired_rows, folio_rows-fits, folio_rows-panics}
use tidb_fk_test.Seed.Apply.Insert.{ApplyStatement}
use tidb_fk_test.Seed.Apply.Fixtures.{
  upsert, billing_inserts, generic_fixture_inserts, billing_fixture_inserts,
  generic_fixture_statements, billing_fixture_statements,
}
use tidb_fk_test.Seed.Apply.Placeholders.{HasNoMarks, HasWidth, IsBound, IsSafe, collect_total}

-- Rows that are written out from a list of slots.
rows_width {ℓ} :
    {A : Type ℓ} (want : ℕ) (f : A → Row) (slots : List A)
    → ((slot : A) → length (f slot) ≡ want)
    → All (HasWidth want) (map f slots)
rows_width want f [] h = tt
rows_width want f (slot ∷ slots) h = (h slot, rows_width want f slots h)

upsert-IsSafe :
    (table key : Text) (others : List Text) (rows : List Row)
    → HasNoMarks table
    → HasNoMarks key
    → All HasNoMarks others
    → All (HasWidth (suc (length others))) rows
    → IsSafe (upsert table key others rows)
upsert-IsSafe table key others rows t k o r = record {
  table = t;
  columns = (k, o);
  update_columns = o;
  rows = r;
}

generic_fixture_inserts-IsSafe :
    (plan : GenericSeedPlan) → All IsSafe (generic_fixture_inserts plan)
unfolding generic_fixture_inserts codes generic_parent_basic_rows generic_child_basic_rows
    generic_child_rebind_rows generic_parent_cascade_rows generic_child_cascade_rows
    generic_parent_hot_rows generic_child_hot_rows generic_probe_summary_rows
generic_fixture_inserts-IsSafe plan =
    upsert-IsSafe _ _ _ _ refl refl (refl ⊳ tt) (rows_width 2 _ plan.parent_ids (λ _. refl))
    ⊳ upsert-IsSafe _ _ _ _ refl refl (refl ⊳ refl ⊳ tt) (
        All-append (HasWidth 3) _ _ (rows_width 3 _ plan.insert_existing_parent_slots (λ _. refl))
          (rows_width 3 _ plan.update_child_no_fk_change_slots (λ _. refl)))
    ⊳ upsert-IsSafe _ _ _ _ refl refl (refl ⊳ refl ⊳ tt) (
        All-append (HasWidth 3) _ _ (rows_width 3 _ plan.rebind_child_slots (λ _. refl))
          (rows_width 3 _ plan.insert_parent_then_update_child_slots (λ _. refl)))
    ⊳ upsert-IsSafe _ _ _ _ refl refl (refl ⊳ tt)
        (rows_width 2 _ plan.delete_parent_cascade_slots (λ _. refl))
    ⊳ upsert-IsSafe _ _ _ _ refl refl (refl ⊳ refl ⊳ tt)
        (rows_width 3 _ plan.delete_parent_cascade_slots (λ _. refl))
    ⊳ upsert-IsSafe _ _ _ _ refl refl (refl ⊳ tt) (rows_width 2 _ plan.hot_parent_ids (λ _. refl))
    ⊳ upsert-IsSafe _ _ _ _ refl refl (refl ⊳ refl ⊳ tt)
        (rows_width 3 _ plan.concurrent_hot_parent_insert_slots (λ _. refl))
    ⊳ upsert-IsSafe _ _ _ _ refl refl (refl ⊳ refl ⊳ tt) (refl ⊳ tt)
    ⊳ tt

paired_rows-width :
    (index : ℕ) (customer_ids folio_ids : List ℕ)
    → All (HasWidth 3) (paired_rows index customer_ids folio_ids)
paired_rows-width index customer_ids [] = tt
paired_rows-width index customer_ids (f ∷ fs) = refl ⊳ paired_rows-width (index + 1) customer_ids fs

with_customers-width :
    (want : ℕ) (ids : List ℕ) (rows : List Row)
    → All (HasWidth want) rows
    → All (HasWidth want) (with_customers ids rows)
with_customers-width want [] rows h = tt
with_customers-width want (id ∷ ids) rows h = h

billing_inserts-IsSafe :
    (plan : BillingSeedPlan)
    → All IsSafe (billing_inserts plan (paired_rows 0 plan.customer_ids plan.folio_ids))
unfolding billing_inserts codes billing_customer_rows billing_journal_rows billing_posting_rows
    billing_bill_rows billing_payment_rows billing_folio_balance_rows billing_fee_log_rows
    billing_statement_rows billing_withdrawal_rows
billing_inserts-IsSafe plan =
    upsert-IsSafe _ _ _ _ refl refl (refl ⊳ tt) (rows_width 2 _ plan.customer_ids (λ _. refl))
    ⊳ upsert-IsSafe _ _ _ _ refl refl (refl ⊳ refl ⊳ tt)
        (paired_rows-width 0 plan.customer_ids plan.folio_ids)
    ⊳ upsert-IsSafe _ _ _ _ refl refl (refl ⊳ refl ⊳ refl ⊳ refl ⊳ refl ⊳ tt) (
        with_customers-width 6 plan.customer_ids _ (
          refl
          ⊳ All-append (HasWidth 6) _ _ (rows_width 6 _ plan.journal_posting_bill_slots (λ _. refl))
              (All-append (HasWidth 6) _ _ (rows_width 6 _ plan.fk_backfill_slots (λ _. refl))
                (rows_width 6 _ plan.payment_mixed_reference_slots (λ _. refl)))))
    ⊳ upsert-IsSafe _ _ _ _ refl refl (refl ⊳ refl ⊳ refl ⊳ tt)
        (rows_width 4 _ plan.journal_posting_bill_slots (λ _. refl))
    ⊳ upsert-IsSafe _ _ _ _ refl refl (refl ⊳ refl ⊳ refl ⊳ refl ⊳ refl ⊳ refl ⊳ tt) (
        with_customers-width 7 plan.customer_ids _ (
          refl
          ⊳ All-append (HasWidth 7) _ _ (rows_width 7 _ plan.journal_posting_bill_slots (λ _. refl))
              (rows_width 7 _ plan.fk_backfill_slots (λ _. refl))))
    ⊳ upsert-IsSafe _ _ _ _ refl refl (refl ⊳ refl ⊳ refl ⊳ refl ⊳ tt) (
        All-append (HasWidth 5) _ _ (rows_width 5 _ plan.payment_mixed_reference_slots (λ _. refl))
          (rows_width 5 _ plan.payment_bill_update_probe_slots (λ _. refl)))
    ⊳ upsert-IsSafe _ _ _ _ refl refl (refl ⊳ refl ⊳ refl ⊳ tt)
        (rows_width 4 _ plan.folio_balance_update_slots (λ _. refl))
    ⊳ upsert-IsSafe _ _ _ _ refl refl (refl ⊳ refl ⊳ refl ⊳ tt)
        (rows_width 4 _ plan.fk_backfill_slots (λ _. refl))
    ⊳ upsert-IsSafe _ _ _ _ refl refl (refl ⊳ refl ⊳ refl ⊳ refl ⊳ tt) (
        All-append (HasWidth 5) _ _ (rows_width 5 _ plan.fk_backfill_slots (λ _. refl))
          (rows_width 5 _ plan.cascade_path_slots (λ _. refl)))
    ⊳ upsert-IsSafe _ _ _ _ refl refl (refl ⊳ refl ⊳ refl ⊳ refl ⊳ tt) (
        All-append (HasWidth 5) _ _ (rows_width 5 _ plan.fk_backfill_slots (λ _. refl))
          (rows_width 5 _ plan.cascade_path_slots (λ _. refl)))
    ⊳ tt

-- For every generic plan the statements of the fixtures are built without a panic, and each has as
-- many arguments as placeholders.
pub generic_fixture_statements_total :
    (plan : GenericSeedPlan)
    → (stmts : List ApplyStatement) × (generic_fixture_statements plan ≡ some stmts)
      × All IsBound stmts
unfolding generic_fixture_statements
generic_fixture_statements_total plan =
    collect_total (generic_fixture_inserts plan) (generic_fixture_inserts-IsSafe plan)

billing_fixture_inserts-fits :
    (plan : BillingSeedPlan)
    → length plan.folio_ids ≤ length plan.customer_ids
    → billing_fixture_inserts plan
      ≡ some (billing_inserts plan (paired_rows 0 plan.customer_ids plan.folio_ids))
unfolding billing_fixture_inserts billing_folio_rows
billing_fixture_inserts-fits plan h =
    rw (folio_rows-fits 0 plan.customer_ids plan.folio_ids (omega arith)) refl

-- For every billing plan that has no more folios than customers, the statements of the fixtures are
-- built without a panic, and each has as many arguments as placeholders. With more folios than
-- customers they panic.
pub billing_fixture_statements_total :
    (plan : BillingSeedPlan)
    → ((length plan.folio_ids ≤ length plan.customer_ids)
        × ((stmts : List ApplyStatement) × (billing_fixture_statements plan ≡ some stmts)
            × All IsBound stmts))
      ⊎ ((length plan.customer_ids < length plan.folio_ids)
          × (billing_fixture_statements plan ≡ none))
unfolding billing_fixture_statements billing_fixture_inserts billing_folio_rows
billing_fixture_statements_total plan =
    elim (Bool-cases (leb (length plan.folio_ids) (length plan.customer_ids))) [
      | inl fits ↦
          let h : length plan.folio_ids ≤ length plan.customer_ids = ground arith in
          let (stmts, e, bound) =
            collect_total (billing_inserts plan (paired_rows 0 plan.customer_ids plan.folio_ids))
              (billing_inserts-IsSafe plan) in
          inl (
            h,
            (stmts, rw (billing_fixture_inserts-fits plan h, billing_fixture_statements) e, bound),
          )
      | inr e ↦
          let h : length plan.customer_ids < length plan.folio_ids = ground arith in
          inr (
            h,
            rw
                (
                  folio_rows-panics 0 plan.customer_ids plan.folio_ids (omega arith) (omega arith),
                  billing_fixture_statements,
                  billing_fixture_inserts,
                )
                refl,
          )
    ]
