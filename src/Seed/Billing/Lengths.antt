-- ===== src/Seed/Billing/Lengths.antt =====
-- How many customers and folios a billing plan has.
use tidb_fk_test.Base.{ℕ, ◌≡◌, length}
use tidb_fk_test.Seed.Value.{length-build}
use tidb_fk_test.Seed.Billing.{build_customer_ids, build_folio_ids}

pub length-customer_ids : (count : ℕ) → length (build_customer_ids count) ≡ count
unfolding build_customer_ids
length-customer_ids count = length-build count 0 _

pub length-folio_ids : (count : ℕ) → length (build_folio_ids count) ≡ count
unfolding build_folio_ids
length-folio_ids count = length-build count 0 _
