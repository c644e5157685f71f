-- ===== src/Seed/Billing/References.antt =====
-- The billing fixtures keep the foreign keys of their tables.
use tidb_fk_test.Base.{
  ℕ, ◌<◌, ◌^◌, some, ◌≡◌, refl, inl, inr, List, [], ◌∷◌, map, arith, length, All, ◌⊳◌, false,
  Bool-cases, ◌==◌,
}
use tidb_fk_test.Base.Ints.{add64, add64-eq}
use tidb_fk_test.Config.{Config}
use tidb_fk_test.Seed.Value.{int64}
use tidb_fk_test.Seed.Generic.{parent_count}
use tidb_fk_test.Seed.Billing.{
  BillingSeedPlan, billing_plan, billing_plan_of, build_customer_ids, build_folio_ids,
  empty_billing_plan,
}
use tidb_fk_test.Seed.Billing.Lengths.{length-customer_ids, length-folio_ids}
use tidb_fk_test.Seed.Billing.Rows.{
  billing_customer_rows, folio_rows, billing_folio_rows, billing_journal_rows, billing_posting_rows,
  billing_bill_rows, billing_payment_rows, billing_folio_balance_rows, billing_fee_log_rows,
  billing_statement_rows, billing_withdrawal_rows,
}
use tidb_fk_test.Seed.Apply.Fixtures.{billing_fixture_inserts, billing_inserts}
use tidb_fk_test.Seed.Apply.Insert.{Insert}
use tidb_fk_test.Seed.Billing.Rows.Folios.{folio_rows-fits}
use tidb_fk_test.Seed.Nulls.{HasNoNull, billing_inserts-HaveNoNull}
use tidb_fk_test.Seed.Integrity.{
  IsDistinct, IsLoadable, done, load, constraints, rows_of, IsDistinct-build,
}
use tidb_fk_test.Seed.Billing.Tables.{folios, IsLoadable-billing}

-- The inserts of a plan are built, load into empty tables, and give every NOT NULL column.
abbrev pub IsLoaded : BillingSeedPlan → Type 0
IsLoaded plan =
    (inserts : List Insert) × (billing_fixture_inserts plan ≡ some inserts)
    × IsLoadable [] inserts
    × All HasNoNull inserts

customer_ids-IsDistinct :
    (count : ℕ) → count < 2 ^ 62 → IsDistinct (map int64 (build_customer_ids count))
unfolding build_customer_ids
customer_ids-IsDistinct count h =
    IsDistinct-build (λ i. add64 i 1) count 0 count (omega arith)
      (λ k l lt le e. omega (arith, e, add64-eq k 1 (omega arith), add64-eq l 1 (omega arith)))

folio_ids-IsDistinct : (count : ℕ) → count < 2 ^ 62 → IsDistinct (map int64 (build_folio_ids count))
unfolding build_folio_ids
folio_ids-IsDistinct count h =
    IsDistinct-build (λ i. add64 1001 i) count 0 count (omega arith)
      (λ k l lt le e.
        omega (arith, e, add64-eq 1001 k (omega arith), add64-eq 1001 l (omega arith)))

IsLoadable-billing_plan_of :
    (customers folios : List ℕ)
    → 0 < length customers
    → length folios ≡ length customers
    → IsDistinct (map int64 customers)
    → IsDistinct (map int64 folios)
    → IsLoaded (billing_plan_of customers folios)
unfolding billing_fixture_inserts billing_folio_rows billing_plan_of
IsLoadable-billing_plan_of [] folios pos e dc df = absurd (omega arith)
IsLoadable-billing_plan_of (c ∷ cs) [] pos e dc df = absurd (omega arith)
IsLoadable-billing_plan_of (c ∷ cs) (f ∷ fs) pos e dc df = (
  _,
  rw (folio_rows-fits 0 (c ∷ cs) (f ∷ fs) (omega arith)) refl,
  IsLoadable-billing c cs f fs dc df (omega arith),
  billing_inserts-HaveNoNull (billing_plan_of (c ∷ cs) (f ∷ fs)),
)

positive : (n : ℕ) → (n == 0) ≡ false → 0 < n
positive n e = ground arith

IsLoadable-empty : IsLoadable [] (billing_inserts empty_billing_plan [])
unfolding billing_inserts billing_customer_rows billing_folio_rows billing_journal_rows
    billing_posting_rows billing_bill_rows billing_payment_rows billing_folio_balance_rows
    billing_fee_log_rows billing_statement_rows billing_withdrawal_rows constraints rows_of
IsLoadable-empty = load _ tt tt (
    load _ tt (tt ⊳ tt) (
      load _ tt (tt ⊳ tt ⊳ tt) (
        load _ tt (tt ⊳ tt) (
          load _ tt (tt ⊳ tt ⊳ tt) (
            load _ tt (tt ⊳ tt ⊳ tt) (
              load _ tt (tt ⊳ tt ⊳ tt) (
                load _ tt (tt ⊳ tt ⊳ tt)
                  (load _ tt (tt ⊳ tt ⊳ tt) (load _ tt (tt ⊳ tt ⊳ tt) done)))))))))

-- The inserts of the billing fixtures are built without a panic and load into empty tables, for every
-- configuration of fewer than 2 ^ 62 parent rows: no key comes twice in a table, no column that is
-- declared NOT NULL is NULL, and each foreign key is NULL or refers to a row of a table that was
-- filled before.
pub billing_fixtures-IsLoadable :
    (cfg : Config) → parent_count cfg < 2 ^ 62 → IsLoaded (billing_plan cfg)
unfolding billing_plan billing_fixture_inserts billing_folio_rows folio_rows
billing_fixtures-IsLoadable cfg h =
    let n = parent_count cfg in
    elim (Bool-cases (n == 0)) [
      | inl e ↦ rw e (_, refl, IsLoadable-empty, billing_inserts-HaveNoNull empty_billing_plan)
      | inr e ↦ rw e (
          IsLoadable-billing_plan_of (build_customer_ids n) (build_folio_ids n)
            (omega (arith, length-customer_ids n, positive n e))
            (omega (arith, length-customer_ids n, length-folio_ids n)) (customer_ids-IsDistinct n h)
            (folio_ids-IsDistinct n h))
    ]
