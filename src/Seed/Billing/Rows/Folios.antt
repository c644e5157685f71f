-- ===== src/Seed/Billing/Rows/Folios.antt =====
-- When `billingFolioRows` panics, and its rows where it does not.
use tidb_fk_test.Base.{
  ℕ, zero, suc, inl, inr, ◌+◌, ◌<◌, ◌≤◌, ◌≡◌, refl, none, some, List, [], ◌∷◌, arith, length,
  get_elem?, get_elem?-below, Option-cases,
}
use tidb_fk_test.Seed.Value.{Row, int64, null, get_or}
use tidb_fk_test.Seed.Billing.Rows.{folio_rows}

-- Each folio with the customer at its position, or with 0 where there is none.
abbrev pub paired_rows : ℕ → List ℕ → List ℕ → List Row
paired_rows index customer_ids [] = []
paired_rows index customer_ids (folio_id ∷ folio_ids) =
    (int64 folio_id ∷ int64 (get_or customer_ids index 0) ∷ null ∷ [])
    ∷ paired_rows (index + 1) customer_ids folio_ids

get_elem?-get_or :
    (ids : List ℕ) (index : ℕ)
    → index < length ids
    → get_elem? ids index ≡ some (get_or ids index 0)
get_elem?-get_or [] index h = absurd (omega arith)
get_elem?-get_or (x ∷ xs) zero h = refl
get_elem?-get_or (x ∷ xs) (suc i) h = get_elem?-get_or xs i (omega arith)

pub folio_rows-fits :
    (index : ℕ) (customer_ids folio_ids : List ℕ)
    → index + length folio_ids ≤ length customer_ids
    → folio_rows index customer_ids folio_ids ≡ some (paired_rows index customer_ids folio_ids)
unfolding folio_rows
folio_rows-fits index customers [] h = refl
folio_rows-fits index customers (f ∷ fs) h =
    rw
      (
        get_elem?-get_or customers index (omega arith),
        folio_rows-fits (index + 1) customers fs (omega arith),
        folio_rows,
      )
      refl

pub folio_rows-panics :
    (index : ℕ) (customer_ids folio_ids : List ℕ)
    → index ≤ length customer_ids
    → length customer_ids < index + length folio_ids
    → folio_rows index customer_ids folio_ids ≡ none
unfolding folio_rows
folio_rows-panics index customers [] lo h = absurd (omega arith)
folio_rows-panics index customers (f ∷ fs) lo h = elim (Option-cases (get_elem? customers index)) [
  | inl e ↦ rw (e, folio_rows) refl
  | inr (customer, e) ↦
      let below = get_elem?-below customers index customer e in
      rw (e, folio_rows-panics (index + 1) customers fs (omega arith) (omega arith), folio_rows)
        refl
]
