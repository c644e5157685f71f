-- ===== src/Command/Output.antt =====
-- What `run` prints behind the workload, and what it logs. `tabulate` is a tabwriter of text/tabwriter
-- that is written to and flushed.
use tidb_fk_test.Base.{
  ℕ, Bool, true, false, ◌&&◌, ◌==◌, List, [], ◌∷◌, ◌++◌, Text, codes, if◌then◌else◌,
}
use tidb_fk_test.Base.Ints.{add64, of_bits}
use tidb_fk_test.Base.Decimal.{show_int}
use tidb_fk_test.Report.Summary.{ScenarioSummary}
use tidb_fk_test.Report.Progress.{Snapshot}
use tidb_fk_test.Checker.{CheckSummary, CheckOutcome}
use tidb_fk_test.Logging.{LogEntry, int, string}

-- %d of an `int64`, given by its bits.
unfoldable pub show_int64 : ℕ → Text
unfolding show_int of_bits
show_int64 n = show_int (of_bits n)

abbrev newline : Text
newline = codes "\n"

-- A line with a label and a number.
abbrev labelled : Text → Text → Text
labelled label value = label ++ (value ++ newline)

abbrev tab : Text
tab = codes "\t"

-- if item.Executed == 0 && item.ExpectedFailure == 0 && item.UnexpectedFailure == 0 { continue }
abbrev pub is_idle : ScenarioSummary → Bool
is_idle item =
    (item.executed == 0) && (item.expected_failure == 0) && (item.unexpected_failure == 0)

abbrev scenario_line : ScenarioSummary → Text
scenario_line item =
    item.name
    ++ (tab
        ++ (show_int64 item.executed
            ++ (tab
                ++ (show_int64 item.success
                    ++ (tab
                        ++ (show_int64 (add64 item.expected_failure item.unexpected_failure)
                            ++ (tab ++ (show_int64 item.unexpected_failure ++ newline))))))))

-- The loop over the scenarios.
unfoldable pub scenario_lines : List ScenarioSummary → Text
unfolding show_int64 codes
scenario_lines [] = []
scenario_lines (item ∷ items) =
    let rest = scenario_lines items in if is_idle item then rest else scenario_line item ++ rest

unfoldable pub run_summary_text : (Text → Text) → Snapshot → List ScenarioSummary → Text
unfolding show_int show_int64 scenario_lines codes
run_summary_text tabulate snapshot scenarios =
    newline
    ++ (codes "Run Summary\n"
        ++ (codes "===========\n"
            ++ (labelled (codes "Phase: ") snapshot.phase
                ++ (labelled (codes "Workers: ") (show_int snapshot.active_workers)
                    ++ (labelled (codes "Executed: ") (show_int64 snapshot.total_executed)
                        ++ (labelled (codes "Expected outcomes: ")
                              (show_int64 (add64 snapshot.success snapshot.expected_failure))
                            ++ (labelled (codes "Success: ") (show_int64 snapshot.success)
                                ++ (labelled (codes "Expected failures: ")
                                      (show_int64 snapshot.expected_failure)
                                    ++ (labelled (codes "Unexpected failures: ")
                                          (show_int64 snapshot.unexpected_failure)
                                        ++ tabulate (
                                            newline
                                            ++ (codes
                                                  "Scenario\tExecuted\tSuccess\tFail\tUnexpected\n"
                                                ++ scenario_lines scenarios)))))))))))

abbrev show_bool : Bool → Text
show_bool true = codes "true"
show_bool false = codes "false"

abbrev outcome_line : CheckOutcome → Text
outcome_line item =
    item.name ++ (tab ++ (show_int64 item.count ++ (tab ++ (show_bool item.passed ++ newline))))

unfoldable pub outcome_lines : List CheckOutcome → Text
unfolding show_int64 codes
outcome_lines [] = []
outcome_lines (item ∷ items) = outcome_line item ++ outcome_lines items

unfoldable pub checker_summary_text : (Text → Text) → CheckSummary → Text
unfolding show_int64 outcome_lines codes
checker_summary_text tabulate summary =
    newline
    ++ (codes "Checker Summary\n"
        ++ (codes "===============\n"
            ++ (labelled (codes "Runtime executed: ") (show_int64 summary.runtime.totals.executed)
                ++ (labelled (codes "Runtime expected outcomes: ") (
                      show_int64 (
                        add64 summary.runtime.totals.success
                          summary.runtime.totals.expected_failure))
                    ++ (labelled (codes "Runtime success: ")
                          (show_int64 summary.runtime.totals.success)
                        ++ (labelled (codes "Runtime expected failures: ")
                              (show_int64 summary.runtime.totals.expected_failure)
                            ++ (labelled (codes "Runtime unexpected failures: ")
                                  (show_int64 summary.runtime.totals.unexpected_failure)
                                ++ tabulate (
                                    newline
                                    ++ (codes "Check\tCount\tPassed\n"
                                        ++ outcome_lines summary.outcomes)))))))))

-- "... with a %s timeout", where the timeout is 10 s.
unfoldable pub interrupted_notice : Text
unfolding codes
interrupted_notice =
    newline
    ++ codes "Run interrupted; printing partial summary and running checker with a 10s timeout.\n"

-- The entry of `logRunProgressSnapshot`.
unfoldable pub progress_entry : Snapshot → LogEntry
unfolding of_bits codes
progress_entry snapshot = record {
  message = codes "run progress snapshot";
  args =
      (codes "phase", string snapshot.phase)
      ∷ (codes "active_workers", int snapshot.active_workers)
      ∷ (codes "total_executed", int (of_bits snapshot.total_executed))
      ∷ (codes "success", int (of_bits snapshot.success))
      ∷ (codes "expected_failure", int (of_bits snapshot.expected_failure))
      ∷ (codes "unexpected_failure", int (of_bits snapshot.unexpected_failure))
      ∷ [];
}
