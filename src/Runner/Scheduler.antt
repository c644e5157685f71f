-- ===== src/Runner/Scheduler.antt =====
-- internal/runner/scheduler.go: the workers of a run. Counts are Go `int`s; an id counts the
-- workers so far.
pub mod Layout
use tidb_fk_test.Base.{
  ℕ, zero, suc, ◌+◌, ℤ, pos, Bool, Option, none, some, List, [], ◌∷◌, ◌++◌, if◌then◌else◌,
}
use tidb_fk_test.Base.Ints.{pos_part, ltb_ℤ, add_int}
use tidb_fk_test.Config.{Config}
use tidb_fk_test.Scenario.Types.{Group, generic_group, billing_group, failure_probe_group}

pub record Worker : Type 0 where
  pub id : ℕ
  pub group : Group

pub record Scheduler : Type 0 where
  pub generic_workers : ℤ
  pub billing_workers : ℤ
  pub failure_probe_workers : ℤ
  pub progress_interval : ℤ

abbrev pub new_scheduler : Config → Scheduler
new_scheduler cfg = record {
  generic_workers = cfg.generic_workers;
  billing_workers = cfg.billing_workers;
  failure_probe_workers = cfg.failure_probe_workers;
  progress_interval = cfg.progress_report_interval;
}

unfoldable pub total_workers : Scheduler → ℤ
unfolding add_int
total_workers s = add_int (add_int s.generic_workers s.billing_workers) s.failure_probe_workers

-- The captured variables of `appendGroup`.
pub record Appended : Type 0 where
  pub workers : List Worker
  pub next_id : ℕ

-- The rounds of the loop of `appendGroup`.
unfoldable pub append_rounds : Group → ℕ → Appended → Appended
append_rounds group zero a = a
append_rounds group (suc n) a = append_rounds group n (record {
  workers = a.workers ++ record { id = a.next_id; group = group } ∷ [];
  next_id = a.next_id + 1;
})

-- for i := 0; i < count; i++
abbrev pub append_group : Group → ℤ → Appended → Appended
append_group group count a = append_rounds group (pos_part count) a

abbrev pub append_groups : Scheduler → Appended
append_groups s = append_group failure_probe_group s.failure_probe_workers (
    append_group billing_group s.billing_workers
      (append_group generic_group s.generic_workers (record { workers = []; next_id = 0 })))

-- `none` is the panic of make([]Worker, 0, n) on a negative n. (One on an n that is too large for
-- the memory is not modelled.)
unfoldable pub workers : Scheduler → Option (List Worker)
unfolding append_rounds total_workers
workers s = if ltb_ℤ (total_workers s) (pos 0) then none else some (append_groups s).workers
