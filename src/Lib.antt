-- ===== src/Lib.antt =====
-- tidb-fk-test: a workload that tests foreign keys on TiDB. `prepare` creates two schemas and
-- fills them from a deterministic plan; `run` rebuilds that plan, lets workers execute scenarios,
-- each in a transaction of its own, counts the outcomes, and at the end asks the database whether
-- its references hold.
--
-- Parts, and the files that model them:
-- - internal/model, internal/config: `Classify` decides from an error's text how an outcome counts
--   (Model), the configuration is a record of signed integers (Config).
-- - internal/db/session.go: the database is a parameter. `ExecContext`, `QueryRowContext`, `BeginTx`,
--   `Commit` and `Rollback` are functions on an abstract world `S` (Db/Session).
-- - internal/db/cluster.go: a call goes to the alive nodes in turn (Db/Cluster), on a cluster that is
--   opened with its pools (Db/Cluster/Open). The cluster library and database/sql are parameters.
-- - internal/seed: `GenericPlan` and `BillingPlan` compute ids and slots (Seed/Generic,
--   Seed/Billing, Seed/Billing/Slots); the rows of the tables are in Seed/Generic/Rows and
--   Seed/Billing/Rows; `newInsertStatement`, the fixture statements, the schemas and `ApplyAll` are in
--   Seed/Apply/Insert, Fixtures, Schema and Phases. Seed/Integrity and
--   Seed/Nulls are the specification of the keys and of the columns that are NOT NULL.
--   What `run` reads back and validates is in Seed/Metadata.
-- - internal/scenario: the metadata and `matchesExpectedError` (Scenario/Types), the steps and the
--   loops of `Run` (Scenario/Steps), the scenarios themselves (Scenario/Generic, Scenario/Billing,
--   Scenario/Probe), the interface (Scenario/Catalog), and the registry (Scenario/Registry).
-- - internal/report: `Summary` (Report/Summary) and the snapshots (Report/Progress).
-- - internal/runner: `Workers` (Runner/Scheduler), `buildWorkerPlans` and `nextScenario`
--   (Runner/Plans), `runWorkerStep` (Runner/Step), and `Run` with its workers (Runner/Engine).
-- - internal/logging: the events of the error log (Logging).
-- - internal/checker: the checks behind a run (Checker).
-- - cmd/tidb-fk-test/main.go: `parseNodes` (Command/Nodes), the options, `buildDSNs` and the
--   configurations (Command/Options), the commands and `runMain` (Command/Flow) on the state of the
--   process (Command/Process), `runWorkload` before and behind the engine (Command/Workload), and what
--   it prints (Command/Output).
--
-- How the code is read. State is passed on explicitly: a method takes the state that it changes and
-- returns it. A Go error is an `Option Error`: its text, and the sentinels that `errors.Is` finds.
-- A panic is `none` or a constructor. A Go map is an association list (Base/Maps). `int64` ids and
-- counters are their bits, with the wrap-around at 2 ^ 64 written out (Base/Ints); `int`s that may be
-- negative are an ℤ. Text is a list of code points; unicode.ToLower above ASCII is a parameter
-- `lower`. Times are numbers that a clock gives. Loops are structural recursions on the list or
-- the count that they run over, so there is no fuel.
--
-- Numbers are printed with 20 digits at most (Base/Decimal), which all `int64`s and their bits have.
--
-- Concurrency. The summary's methods hold a mutex, so a history of calls is a list, in any order.
-- The world of Runner/Step also stands for what other goroutines do: each call and each reading of
-- the stop flag may find a world that they changed. The summary and the log of a step are those at
-- its own call of `Record`. In Runner/Engine each worker is a goroutine with a program counter, and a
-- run of the system is a sequence of steps, each of some worker, or of the rest of the program, which
-- changes the world: it requests the stop, or ends the context. One call of the database, one run of
-- a scenario and one report are a step each.
--
-- Not modelled: what SQL statements do to tables; the timers of the engine and its ticker, where a
-- parameter says what comes first; the goroutine of `progressLoop`, except its one round; the parsing
-- of flags by cobra, and the layout of text/tabwriter and log/slog, which are parameters or left out;
-- the deadlines of contexts; `tidbChecker` and `sqlTx`, which only pass calls on; slices that are too
-- large for the memory.
pub mod Base
pub mod Model
pub mod Config
pub mod Db
pub mod Seed
pub mod Scenario
pub mod Report
pub mod Runner
pub mod Checker
pub mod Command
pub mod Logging
