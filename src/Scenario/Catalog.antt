-- ===== src/Scenario/Catalog.antt =====
-- The `Scenario` interface of internal/scenario/types.go, with the types that implement it.
use tidb_fk_test.Base.{ℕ, some, [], ◌∷◌, Text, codes}
use tidb_fk_test.Base.Errors.{Error, not_implemented}
use tidb_fk_test.Db.Session.{TxSession}
use tidb_fk_test.Scenario.Types.{
  Group, Metadata, SeedState, generic_group, billing_group, failure_probe_group,
}
use tidb_fk_test.Scenario.Steps.{
  GenericExecScenario, BillingExecScenario, RunResult, generic_run, billing_run,
}
use tidb_fk_test.Scenario.Probe.{
  payment_bill_update_probe_meta, statement_folio_parent_update_probe_meta,
  payment_bill_update_probe_run, statement_folio_parent_update_probe_run,
}

-- The counter of an object is kept apart, as state.
pub data Scenario : Type 0 where
  generic_exec : GenericExecScenario → Scenario
  billing_exec : BillingExecScenario → Scenario
  payment_bill_update_probe statement_folio_parent_update_probe : Scenario
  placeholder : Metadata → Scenario

unfoldable pub meta : Scenario → Metadata
meta (generic_exec s) = s.meta
meta (billing_exec s) = s.meta
meta payment_bill_update_probe = payment_bill_update_probe_meta
meta statement_folio_parent_update_probe = statement_folio_parent_update_probe_meta
meta (placeholder m) = m

abbrev pub scenario_name : Scenario → Text
scenario_name s = (meta s).name

pub err_scenario_not_implemented : Error
err_scenario_not_implemented = record {
  text = codes "scenario not implemented";
  chain = not_implemented ∷ [];
}

unfoldable pub run : {S : Type 0} → TxSession S → Scenario → SeedState → ℕ → S → RunResult S
unfolding generic_run billing_run payment_bill_update_probe_run
    statement_folio_parent_update_probe_run
run sess (generic_exec sc) seed counter s = generic_run sess sc seed counter s
run sess (billing_exec sc) seed counter s = billing_run sess sc seed counter s
run sess payment_bill_update_probe seed counter s =
    payment_bill_update_probe_run sess seed counter s
run sess statement_folio_parent_update_probe seed counter s =
    statement_folio_parent_update_probe_run sess seed counter s
run sess (placeholder m) seed counter s = record {
  err = some err_scenario_not_implemented;
  counter = counter;
  world = s;
}

abbrev placeholder_meta : Text → Group → Text → Metadata
placeholder_meta name group expected = record {
  name = name;
  group = group;
  weight = 1;
  concurrency_hint = 1;
  expected_error_match = expected;
}

unfoldable pub generic_placeholder : Text → Scenario
generic_placeholder name = placeholder (placeholder_meta name generic_group [])

unfoldable pub billing_placeholder : Text → Scenario
billing_placeholder name = placeholder (placeholder_meta name billing_group [])

unfoldable pub failure_probe_placeholder : Text → Text → Scenario
failure_probe_placeholder name expected_error =
    placeholder (placeholder_meta name failure_probe_group expected_error)
