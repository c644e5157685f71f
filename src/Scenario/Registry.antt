-- ===== src/Scenario/Registry.antt =====
-- internal/scenario/registry.go.
pub mod Laws
use tidb_fk_test.Base.{Bool, Option, none, some, List, [], ◌∷◌, if◌then◌else◌, Text}
use tidb_fk_test.Base.Maps.{Map, lookup, insert, values}
use tidb_fk_test.Base.Order.{sort_by}
use tidb_fk_test.Model.{is_empty}
use tidb_fk_test.Scenario.Catalog.{
  Scenario, generic_exec, billing_exec, payment_bill_update_probe,
  statement_folio_parent_update_probe, meta, scenario_name,
}
use tidb_fk_test.Scenario.Generic.{
  new_generic_insert_existing_parent, new_generic_insert_parent_then_child,
  new_generic_update_child_no_fk_change, new_generic_rebind_child_fk,
  new_generic_insert_parent_then_update_child_fk, new_generic_delete_parent_cascade,
  new_generic_concurrent_hot_parent_insert,
}
use tidb_fk_test.Scenario.Billing.{
  new_billing_journal_posting_bill, new_billing_folio_balance_update, new_billing_fk_backfill,
  new_billing_payment_mixed_references, new_billing_cascade_path,
}

pub record Registry : Type 0 where
  pub items : Map Scenario

unfoldable pub get : Registry → Text → Option Scenario
unfolding lookup
get r name = lookup name r.items

abbrev add_new : Registry → Scenario → Option Scenario → Option Registry
add_new r s none = some (record { items = insert (scenario_name s) s r.items })
add_new r s (some old) = none

-- `none` is a panic: an empty or a taken name.
unfoldable pub add : Registry → Scenario → Option Registry
unfolding lookup insert meta
add r s =
    if is_empty (scenario_name s) then none else add_new r s (lookup (scenario_name s) r.items)

unfoldable pub add_all : Registry → List Scenario → Option Registry
unfolding add
add_all r [] = some r
add_all r (s ∷ ss) = elim (add r s) [ none ↦ none | some r' ↦ add_all r' ss ]

-- The scenarios in the order of the calls of `add`.
unfoldable pub registered : List Scenario
unfolding new_generic_insert_existing_parent new_generic_insert_parent_then_child
    new_generic_update_child_no_fk_change new_generic_rebind_child_fk
    new_generic_insert_parent_then_update_child_fk new_generic_delete_parent_cascade
    new_generic_concurrent_hot_parent_insert new_billing_journal_posting_bill
    new_billing_folio_balance_update new_billing_fk_backfill new_billing_payment_mixed_references
    new_billing_cascade_path
registered =
    generic_exec new_generic_insert_existing_parent
    ∷ generic_exec new_generic_insert_parent_then_child
    ∷ generic_exec new_generic_update_child_no_fk_change
    ∷ generic_exec new_generic_rebind_child_fk
    ∷ generic_exec new_generic_insert_parent_then_update_child_fk
    ∷ generic_exec new_generic_delete_parent_cascade
    ∷ generic_exec new_generic_concurrent_hot_parent_insert
    ∷ payment_bill_update_probe
    ∷ statement_folio_parent_update_probe
    ∷ billing_exec new_billing_journal_posting_bill
    ∷ billing_exec new_billing_folio_balance_update
    ∷ billing_exec new_billing_fk_backfill
    ∷ billing_exec new_billing_payment_mixed_references
    ∷ billing_exec new_billing_cascade_path
    ∷ []

unfoldable pub new_registry : Option Registry
unfolding registered add_all
new_registry = add_all (record { items = [] }) registered

-- `All`: the entries in any order, sorted by name.
unfoldable pub all : Registry → List Scenario
unfolding sort_by meta
all r = sort_by scenario_name (values r.items)
