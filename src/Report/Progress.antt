-- ===== src/Report/Progress.antt =====
-- internal/report/progress.go. Times are instants, intervals are signed.
use tidb_fk_test.Base.{ℕ, ℤ, Option, none, some, Text}
use tidb_fk_test.Report.Summary.{Totals, Summary, no_totals}

pub record ProgressReporter : Type 0 where
  pub interval : ℤ

abbrev pub new_progress_reporter : ℤ → ProgressReporter
new_progress_reporter interval = record { interval = interval }

pub record Snapshot : Type 0 where
  pub timestamp : ℕ
  pub phase : Text
  pub active_workers : ℤ
  pub total_executed : ℕ
  pub success : ℕ
  pub expected_failure : ℕ
  pub unexpected_failure : ℕ

abbrev totals_of : Option Summary → Totals
totals_of none = no_totals
totals_of (some s) = s.totals

-- The receiver is not used.
unfoldable pub build_snapshot : Text → ℤ → Option Summary → ℕ → Snapshot
build_snapshot phase active_workers summary now =
    let totals = totals_of summary in
    record {
      timestamp = now;
      phase = phase;
      active_workers = active_workers;
      total_executed = totals.executed;
      success = totals.success;
      expected_failure = totals.expected_failure;
      unexpected_failure = totals.unexpected_failure;
    }

-- `emit` is the callback, if any: a function on the world.
unfoldable pub emit_snapshot :
    {S : Type 0} → Text → ℤ → Option Summary → ℕ → Option (Snapshot → S → S) → S → Snapshot × S
unfolding build_snapshot
emit_snapshot phase active_workers summary now none s =
    (build_snapshot phase active_workers summary now, s)
emit_snapshot phase active_workers summary now (some emit) s =
    let snapshot = build_snapshot phase active_workers summary now in (snapshot, emit snapshot s)
