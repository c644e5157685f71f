-- ===== src/Report.antt =====
-- internal/report: the counters of a run, and the progress snapshots.
pub mod Summary
pub mod Progress
mod Tests
