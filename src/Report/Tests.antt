-- ===== src/Report/Tests.antt =====
-- Concrete histories of the summary.
use mathlib.Core.List.Perm
use tidb_fk_test.Base.{◌≡◌, List, [], ◌∷◌, Text, codes}
use tidb_fk_test.Model.{Result, success, unexpected_failure}
use tidb_fk_test.Scenario.Types.{Metadata}
use tidb_fk_test.Scenario.Catalog.{Scenario, meta, payment_bill_update_probe}
use tidb_fk_test.Report.Summary.{no_totals, new_summary}
use tidb_fk_test.Report.Summary.Counts.{IsConsistent}
use tidb_fk_test.Report.Summary.History.{
  Event, record_all, count_events, every, of_scenario, Shows, counters, entry, record_all_counts,
  history-IsConsistent,
}
use tidb_fk_test.Report.Summary.Order.{record_all-perm}

abbrev probes : List Scenario
probes = payment_bill_update_probe ∷ []

abbrev one_meta : Metadata
one_meta = meta payment_bill_update_probe

abbrev good : Result
good = record { kind = success; error_text = [] }

abbrev good_event : Event
good_event = record { meta = one_meta; result = good; at = 1 }

abbrev bad_event : Event
bad_event = record {
  meta = one_meta;
  result = record { kind = unexpected_failure; error_text = codes "lost" };
  at = 2;
}

abbrev events : List Event
events = good_event ∷ bad_event ∷ []

abbrev swapped_events : List Event
swapped_events = bad_event ∷ good_event ∷ []

history-IsConsistent_example : IsConsistent (record_all (new_summary probes) events)
history-IsConsistent_example = history-IsConsistent probes events

record_all_counts_example :
    let s = record_all (new_summary probes) events in
    Shows s.totals (count_events every events no_totals)
    × ((name : Text)
        → Shows (counters (entry s name)) (count_events (of_scenario name) events no_totals))
record_all_counts_example = record_all_counts probes events

record_all-perm_example :
    ((record_all (new_summary probes) events).totals
      ≡ (record_all (new_summary probes) swapped_events).totals)
    × ((name : Text)
        → counters (entry (record_all (new_summary probes) events) name)
          ≡ counters (entry (record_all (new_summary probes) swapped_events) name))
record_all-perm_example =
    record_all-perm probes events swapped_events (Perm.swap bad_event good_event [])
