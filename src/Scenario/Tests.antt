-- ===== src/Scenario/Tests.antt =====
-- Concrete runs of scenarios.
use mathlib.Core.List.{Perm}
use tidb_fk_test.Base.{
  ℕ, ◌+◌, ◌≡◌, ◌≢◌, ◌↔◌, ◌⊎◌, true, none, some, [], Text, text_eq, codes, arith, if◌then◌else◌,
}
use tidb_fk_test.Base.Errors.{Error, new_error}
use tidb_fk_test.Base.Order.{IsSorted}
use tidb_fk_test.Config.{default}
use tidb_fk_test.Model.{expected_fk_failure, classify}
use tidb_fk_test.Db.Session.{TxSession, ok}
use tidb_fk_test.Seed.Generic.{generic_plan}
use tidb_fk_test.Seed.Billing.{billing_plan}
use tidb_fk_test.Scenario.Types.{SeedState, matches_expected_error}
use tidb_fk_test.Scenario.Types.Match.{classify_matches}
use tidb_fk_test.Scenario.Steps.{
  missing_generic_seed_plan, missing_billing_seed_plan, generic_run, billing_run,
  new_generic_exec_scenario, new_billing_exec_scenario, then_build, select_pool_slot,
}
use tidb_fk_test.Scenario.Steps.Calls.{Sends, Makes}
use tidb_fk_test.Scenario.Steps.Slots.{SlotRun, generic_run_slot, billing_run_slot}
use tidb_fk_test.Scenario.Generic.{generic_insert_existing_parent_steps}
use tidb_fk_test.Scenario.Billing.{billing_journal_posting_bill_steps}
use tidb_fk_test.Scenario.Catalog.{meta, scenario_name, payment_bill_update_probe}
use tidb_fk_test.Scenario.Registry.{Registry, get, add, registered, new_registry, all}
use tidb_fk_test.Scenario.Registry.Laws.{add_lem, all_lem, registry, new_registry_lem}

abbrev same_letter : ℕ → ℕ
same_letter c = c

abbrev lost : Error
lost = new_error (codes "lost")

classify_matches_example :
    ((classify same_letter (meta payment_bill_update_probe).expected_error_match (some lost)).kind
      ≡ expected_fk_failure)
    ↔ (matches_expected_error same_letter (meta payment_bill_update_probe) (some lost) ≡ true)
classify_matches_example = classify_matches same_letter (meta payment_bill_update_probe) (some lost)

abbrev empty_registry : Registry
empty_registry = record { items = [] }

add_lem_example :
    ((add empty_registry payment_bill_update_probe ≡ none)
      × ((scenario_name payment_bill_update_probe ≡ [])
          ⊎ (get empty_registry (scenario_name payment_bill_update_probe) ≢ none)))
    ⊎ ((q : Registry) × (add empty_registry payment_bill_update_probe ≡ some q)
        × (scenario_name payment_bill_update_probe ≢ [])
        × (get empty_registry (scenario_name payment_bill_update_probe) ≡ none)
        × ((name : Text)
            → get q name ≡ (
                if text_eq (scenario_name payment_bill_update_probe) name
                then some payment_bill_update_probe
                else get empty_registry name)))
add_lem_example = add_lem empty_registry payment_bill_update_probe

all_lem_example : Perm (all registry) registered × IsSorted scenario_name (all registry)
unfolding new_registry
all_lem_example = all_lem registered registry new_registry_lem

-- A session that counts its calls.
abbrev counting : TxSession ℕ
counting = record {
  exec_context = λ query args s. (none, s + 1);
  query_row_context = λ query args s. (ok 1, s + 1);
}

abbrev seed_state : SeedState
seed_state = record { generic = generic_plan default; billing = billing_plan default }

generic_run_slot_example :
    SlotRun
      (Sends counting)
      (codes "insert")
      (codes ": generic seed plan required")
      (codes "slots")
      (missing_generic_seed_plan seed_state.generic)
      seed_state.generic.insert_existing_parent_slots
      generic_insert_existing_parent_steps
      6
      0
      (generic_run counting
        (new_generic_exec_scenario (codes "insert") 1 λ plan run.
          then_build
            (select_pool_slot
              (codes "insert")
              plan.insert_existing_parent_slots
              run
              (codes "slots"))
            generic_insert_existing_parent_steps)
        seed_state
        6
        0)
generic_run_slot_example =
    generic_run_slot counting (codes "insert") 1 (codes "slots")
      (λ plan. plan.insert_existing_parent_slots) generic_insert_existing_parent_steps seed_state 6
      0 (omega arith)

billing_run_slot_example :
    SlotRun
      (Makes counting)
      (codes "bill")
      (codes ": billing seed plan required")
      (codes "slots")
      (missing_billing_seed_plan seed_state.billing)
      seed_state.billing.journal_posting_bill_slots
      billing_journal_posting_bill_steps
      6
      0
      (billing_run counting
        (new_billing_exec_scenario (codes "bill") 1 λ plan run.
          then_build
            (select_pool_slot (codes "bill") plan.journal_posting_bill_slots run (codes "slots"))
            billing_journal_posting_bill_steps)
        seed_state
        6
        0)
billing_run_slot_example =
    billing_run_slot counting (codes "bill") 1 (codes "slots")
      (λ plan. plan.journal_posting_bill_slots) billing_journal_posting_bill_steps seed_state 6 0
      (omega arith)
