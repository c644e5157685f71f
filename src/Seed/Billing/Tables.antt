-- ===== src/Seed/Billing/Tables.antt =====
-- The rows of the billing tables, with customers and folios: their keys, and what they refer to.
use tidb_fk_test.Base.{
  ℕ, ◌+◌, ◌%◌, ◌≤◌, ◌≡◌, refl, ap, inl, inr, ◌⊎◌, List, [], ◌∷◌, ◌++◌, map, arith, length, In, ◌⊳◌,
  codes,
}
use native.Mathlib.Nat.{mod-lt}
use mathlib.Core.Path.{subst, sym}
use tidb_fk_test.Seed.Value.{Value, Row, int64, str, null}
use tidb_fk_test.Seed.Billing.{BillingSeedPlan, billing_plan_of}
use tidb_fk_test.Seed.Billing.Slots.{cyclic}
use tidb_fk_test.Seed.Billing.Rows.{
  billing_customer_rows, billing_journal_rows, billing_posting_rows, billing_bill_rows,
  billing_payment_rows, billing_folio_balance_rows, billing_fee_log_rows, billing_statement_rows,
  billing_withdrawal_rows,
}
use tidb_fk_test.Seed.Apply.Fixtures.{billing_inserts}
use tidb_fk_test.Seed.Billing.Rows.Folios.{paired_rows}
use tidb_fk_test.Seed.Integrity.{
  References, IsDistinct, IsLoadable, done, load, constraints, rows_of, keys, References-test,
  IsDistinct-test, get_or-In, In-keys, IsDistinct-rows,
}

abbrev customer_row : ℕ → Row
customer_row customer_id = int64 customer_id ∷ str (codes "active") ∷ []

-- The folio at `index` belongs to the customer at `index`.
folio-References :
    (index : ℕ) (customers folios : List ℕ)
    → index + length folios ≤ length customers
    → References (paired_rows index customers folios) 1 (map customer_row customers ++ [])
folio-References index customers [] h = tt
folio-References index customers (f ∷ fs) h =
    inr (In-keys customer_row _ customers (λ k. refl) (get_or-In customers index 0 (omega arith)))
    ⊳ folio-References (index + 1) customers fs (omega arith)

folio_keys :
    (index : ℕ) (customers folios : List ℕ)
    → keys (paired_rows index customers folios) ≡ map int64 folios
folio_keys index customers [] = refl
folio_keys index customers (f ∷ fs) = ap (◌∷◌ (int64 f)) (folio_keys (index + 1) customers fs)

In-folio_keys :
    (index : ℕ) (customers folios : List ℕ) (id : ℕ)
    → In id folios
    → In (int64 id) (keys (paired_rows index customers folios ++ []))
In-folio_keys index customers [] id m = m
In-folio_keys index customers (f ∷ fs) id (inl e) = inl (ap int64 e)
In-folio_keys index customers (f ∷ fs) id (inr m) =
    inr (In-folio_keys (index + 1) customers fs id m)

-- The rows of `folio` that the plans of `billing_plan` give.
abbrev pub folios : BillingSeedPlan → List Row
folios plan = paired_rows 0 plan.customer_ids plan.folio_ids

-- The lists of customers and folios, which are not empty.
module _ (c : ℕ) (cs : List ℕ) (f : ℕ) (fs : List ℕ) where
  abbrev plan : BillingSeedPlan
  plan = billing_plan_of (c ∷ cs) (f ∷ fs)

  a_customer : (i : ℕ) → In (int64 (cyclic (c ∷ cs) i)) (keys (billing_customer_rows plan ++ []))
  unfolding billing_plan_of billing_customer_rows
  a_customer i =
      In-keys customer_row _ (c ∷ cs) (λ k. refl)
        (get_or-In (c ∷ cs) (i % length (c ∷ cs)) 0 (mod-lt i (omega arith)))

  a_folio : (i : ℕ) → In (int64 (cyclic (f ∷ fs) i)) (keys (folios plan ++ []))
  unfolding billing_plan_of
  a_folio i =
      In-folio_keys 0 (c ∷ cs) (f ∷ fs) _
        (get_or-In (f ∷ fs) (i % length (f ∷ fs)) 0 (mod-lt i (omega arith)))

  abbrev Refers : List Row → Value → Type 0
  Refers parents v = (v ≡ null) ⊎ In v (keys parents)

  -- The four rows of a pool, in front of others.
  four :
      {Rest : Type 0} (parents : List Row) (v : ℕ → Value)
      → ((k : ℕ) → In (v k) (keys parents))
      → Rest
      → Refers parents (v 0)
        × (Refers parents (v 1) × (Refers parents (v 2) × (Refers parents (v 3) × Rest)))
  four parents v h rest = inr (h 0) ⊳ inr (h 1) ⊳ inr (h 2) ⊳ inr (h 3) ⊳ rest

  four_customers :
      {Rest : Type 0}
      → Rest
      → let v : ℕ → Value = λ i. int64 (cyclic (c ∷ cs) i) in
        let parents = billing_customer_rows plan ++ [] in
        Refers parents (v 0)
        × (Refers parents (v 1) × (Refers parents (v 2) × (Refers parents (v 3) × Rest)))
  four_customers rest = four _ _ a_customer rest

  four_folios :
      {Rest : Type 0}
      → Rest
      → let v : ℕ → Value = λ i. int64 (cyclic (f ∷ fs) i) in
        let parents = folios plan ++ [] in
        Refers parents (v 0)
        × (Refers parents (v 1) × (Refers parents (v 2) × (Refers parents (v 3) × Rest)))
  four_folios rest = four _ _ a_folio rest

  journal-References :
      IsDistinct (keys (billing_journal_rows plan))
      × References (billing_journal_rows plan) 1 (billing_customer_rows plan ++ [])
      × References (billing_journal_rows plan) 2 (folios plan ++ [])
  unfolding billing_plan_of billing_journal_rows billing_customer_rows
  journal-References = (
    IsDistinct-test (keys (billing_journal_rows plan)) refl,
    inr (inl refl) ⊳ four_customers (four_customers (four_customers tt)),
    inr (inl refl) ⊳ four_folios (four_folios (four_folios tt)),
  )

  posting-References :
      IsDistinct (keys (billing_posting_rows plan))
      × References (billing_posting_rows plan) 1 (billing_journal_rows plan ++ [])
  unfolding billing_plan_of billing_posting_rows billing_journal_rows
  posting-References = (
    IsDistinct-test (keys (billing_posting_rows plan)) refl,
    References-test (billing_posting_rows plan) 1 (billing_journal_rows plan ++ []) refl,
  )

  bill-References :
      IsDistinct (keys (billing_bill_rows plan))
      × References (billing_bill_rows plan) 1 (billing_journal_rows plan ++ [])
      × References (billing_bill_rows plan) 2 (folios plan ++ [])
  unfolding billing_plan_of billing_bill_rows billing_journal_rows
  bill-References = (
    IsDistinct-test (keys (billing_bill_rows plan)) refl,
    References-test (billing_bill_rows plan) 1 (billing_journal_rows plan ++ []) refl,
    inr (inl refl) ⊳ four_folios (four_folios tt),
  )

  payment-References :
      IsDistinct (keys (billing_payment_rows plan))
      × References (billing_payment_rows plan) 1 (billing_bill_rows plan ++ [])
      × References (billing_payment_rows plan) 2 (billing_journal_rows plan ++ [])
  unfolding billing_plan_of billing_payment_rows billing_bill_rows billing_journal_rows
  payment-References = (
    IsDistinct-test (keys (billing_payment_rows plan)) refl,
    References-test (billing_payment_rows plan) 1 (billing_bill_rows plan ++ []) refl,
    References-test (billing_payment_rows plan) 2 (billing_journal_rows plan ++ []) refl,
  )

  folio_balance-References :
      IsDistinct (keys (billing_folio_balance_rows plan))
      × References (billing_folio_balance_rows plan) 1 (billing_customer_rows plan ++ [])
      × References (billing_folio_balance_rows plan) 2 (folios plan ++ [])
  unfolding billing_plan_of billing_folio_balance_rows billing_customer_rows
  folio_balance-References = (
    IsDistinct-test (keys (billing_folio_balance_rows plan)) refl,
    four_customers tt,
    four_folios tt,
  )

  fee_log-References :
      IsDistinct (keys (billing_fee_log_rows plan))
      × References (billing_fee_log_rows plan) 1 (billing_journal_rows plan ++ [])
      × References (billing_fee_log_rows plan) 2 (billing_bill_rows plan ++ [])
  unfolding billing_plan_of billing_fee_log_rows billing_bill_rows billing_journal_rows
  fee_log-References = (
    IsDistinct-test (keys (billing_fee_log_rows plan)) refl,
    References-test (billing_fee_log_rows plan) 1 (billing_journal_rows plan ++ []) refl,
    References-test (billing_fee_log_rows plan) 2 (billing_bill_rows plan ++ []) refl,
  )

  statement-References :
      IsDistinct (keys (billing_statement_rows plan))
      × References (billing_statement_rows plan) 1 (billing_customer_rows plan ++ [])
      × References (billing_statement_rows plan) 2 (folios plan ++ [])
  unfolding billing_plan_of billing_statement_rows billing_customer_rows
  statement-References = (
    IsDistinct-test (keys (billing_statement_rows plan)) refl,
    four_customers (four_customers tt),
    four_folios (four_folios tt),
  )

  withdrawal-References :
      IsDistinct (keys (billing_withdrawal_rows plan))
      × References (billing_withdrawal_rows plan) 1 (billing_journal_rows plan ++ [])
      × References (billing_withdrawal_rows plan) 2 (billing_statement_rows plan ++ [])
  unfolding billing_plan_of billing_withdrawal_rows billing_journal_rows billing_statement_rows
  withdrawal-References = (
    IsDistinct-test (keys (billing_withdrawal_rows plan)) refl,
    References-test (billing_withdrawal_rows plan) 1 (billing_journal_rows plan ++ []) refl,
    References-test (billing_withdrawal_rows plan) 2 (billing_statement_rows plan ++ []) refl,
  )

  pub IsLoadable-billing :
      IsDistinct (map int64 (c ∷ cs))
      → IsDistinct (map int64 (f ∷ fs))
      → length (f ∷ fs) ≤ length (c ∷ cs)
      → IsLoadable [] (billing_inserts plan (folios plan))
  unfolding billing_inserts billing_plan_of billing_customer_rows constraints rows_of
  IsLoadable-billing dc df fits =
      let (d3, r31, r32) = journal-References in
      let (d4, r4) = posting-References in
      let (d5, r51, r52) = bill-References in
      let (d6, r61, r62) = payment-References in
      let (d7, r71, r72) = folio_balance-References in
      let (d8, r81, r82) = fee_log-References in
      let (d9, r91, r92) = statement-References in
      let (d10, r101, r102) = withdrawal-References in
      load _ (IsDistinct-rows customer_row (c ∷ cs) (λ k. refl) dc) tt (
        load _ (subst IsDistinct (sym (folio_keys 0 (c ∷ cs) (f ∷ fs))) df)
          (folio-References 0 (c ∷ cs) (f ∷ fs) (omega arith) ⊳ tt)
          (load _ d3 (r31 ⊳ r32 ⊳ tt) (
            load _ d4 (r4 ⊳ tt) (
              load _ d5 (r51 ⊳ r52 ⊳ tt) (
                load _ d6 (r61 ⊳ r62 ⊳ tt) (
                  load _ d7 (r71 ⊳ r72 ⊳ tt) (
                    load _ d8 (r81 ⊳ r82 ⊳ tt)
                      (load _ d9 (r91 ⊳ r92 ⊳ tt) (load _ d10 (r101 ⊳ r102 ⊳ tt) done)))))))))
