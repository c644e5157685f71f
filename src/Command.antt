-- ===== src/Command.antt =====
-- cmd/tidb-fk-test/main.go: the command line.
pub mod Nodes
pub mod Options
pub mod Process
pub mod Output
pub mod Workload
pub mod Flow
mod Tests
