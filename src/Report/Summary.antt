-- ===== src/Report/Summary.antt =====
-- internal/report/summary.go. Each method holds the summary's mutex, so calls happen one after
-- the other. Counters are `int64`s, by their bits.
pub mod Counts
pub mod History
pub mod Order
use tidb_fk_test.Base.{
  ℕ, ◌+◌, ◌%◌, ◌^◌, Option, none, some, List, [], ◌∷◌, Text, text_eq, if◌then◌else◌,
}
use tidb_fk_test.Base.Errors.{Error}
use tidb_fk_test.Base.Maps.{Map, lookup, insert, values, or_else}
use tidb_fk_test.Base.Order.{sort_by}
use tidb_fk_test.Model.{
  ResultKind, Result, success, expected_fk_failure, infra_or_upgrade_transient, unexpected_failure,
  is_empty, classify,
}
use tidb_fk_test.Scenario.Types.{Metadata}
use tidb_fk_test.Scenario.Catalog.{Scenario, meta}

pub record Totals : Type 0 where
  pub executed : ℕ
  pub success : ℕ
  pub expected_failure : ℕ
  pub unexpected_failure : ℕ

abbrev pub no_totals : Totals
no_totals = record { executed = 0; success = 0; expected_failure = 0; unexpected_failure = 0 }

pub record ScenarioSummary : Type 0 where
  pub name : Text
  pub executed : ℕ
  pub success : ℕ
  pub expected_failure : ℕ
  pub unexpected_failure : ℕ
  pub last_error_at : ℕ
  pub last_error_text : Text

-- The zero value, with a name.
abbrev pub new_stats : Text → ScenarioSummary
new_stats name = record {
  name = name;
  executed = 0;
  success = 0;
  expected_failure = 0;
  unexpected_failure = 0;
  last_error_at = 0;
  last_error_text = [];
}

pub record Summary : Type 0 where
  pub totals : Totals
  pub scenarios : Map ScenarioSummary

abbrev add_names : Map ScenarioSummary → List Scenario → Map ScenarioSummary
add_names m [] = m
add_names m (item ∷ items) =
    add_names (insert (meta item).name (new_stats (meta item).name) m) items

unfoldable pub new_summary : List Scenario → Summary
unfolding insert meta
new_summary items = record { totals = no_totals; scenarios = add_names [] items }

-- x++ on int64
unfoldable pub inc64 : ℕ → ℕ
inc64 x = (x + 1) % 2 ^ 64

-- The switch on the kind, for the totals and for the scenario's counters.
unfoldable pub count_total : ResultKind → Totals → Totals
unfolding inc64
count_total success t = record t { success = inc64 t.success }
count_total expected_fk_failure t = record t { expected_failure = inc64 t.expected_failure }
count_total _ t = record t { unexpected_failure = inc64 t.unexpected_failure }

unfoldable pub count_scenario : ResultKind → ScenarioSummary → ScenarioSummary
unfolding inc64
count_scenario success t = record t { success = inc64 t.success }
count_scenario expected_fk_failure t = record t { expected_failure = inc64 t.expected_failure }
count_scenario _ t = record t { unexpected_failure = inc64 t.unexpected_failure }

abbrev note_error : Text → ℕ → ScenarioSummary → ScenarioSummary
note_error error_text at stats =
    if is_empty error_text
    then stats
    else record stats { last_error_at = at; last_error_text = error_text }

abbrev with_name : Text → ScenarioSummary → ScenarioSummary
with_name name stats = if is_empty stats.name then record stats { name = name } else stats

-- The body of `Record` on the entry of the scenario.
unfoldable pub update_stats : Text → Result → ℕ → ScenarioSummary → ScenarioSummary
unfolding inc64 count_scenario
update_stats name result at stats =
    let named = with_name name stats in
    note_error result.error_text at
      (count_scenario result.kind (record named { executed = inc64 named.executed }))

unfoldable pub record_result : Metadata → Result → ℕ → Summary → Summary
unfolding inc64 count_total update_stats lookup insert
record_result m result at s =
    let stats = or_else (new_stats []) (lookup m.name s.scenarios) in
    record {
      totals = count_total result.kind (record s.totals { executed = inc64 s.totals.executed });
      scenarios = insert m.name (update_stats m.name result at stats) s.scenarios;
    }

unfoldable pub record_classified :
    (ℕ → ℕ) → Metadata → Option Error → ℕ → Summary → Summary × Result
unfolding record_result classify
record_classified lower m err at s =
    let result = classify lower m.expected_error_match err in (record_result m result at s, result)

unfoldable pub scenario : Summary → Text → Option ScenarioSummary
unfolding lookup
scenario s name = lookup name s.scenarios

-- `Scenarios`: the entries in any order, sorted by name.
unfoldable pub scenarios : Summary → List ScenarioSummary
unfolding sort_by
scenarios s = sort_by (λ (stats : ScenarioSummary). stats.name) (values s.scenarios)
