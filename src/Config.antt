-- ===== src/Config.antt =====
-- internal/config/config.go. Counts are Go `int`s, durations are `int64` nanoseconds: both are signed.
use tidb_fk_test.Base.{ℕ, ◌*◌, ℤ, pos, List, [], Text}

abbrev second : ℕ
second = 1_000_000_000

pub record Config : Type 0 where
  pub dsn : List Text
  pub generic_workers : ℤ
  pub billing_workers : ℤ
  pub failure_probe_workers : ℤ
  pub run_duration : ℤ
  pub progress_report_interval : ℤ
  pub seed_parent_rows_per_table : ℤ
  pub seed_hot_parent_keys : ℤ

abbrev pub default : Config
default = record {
  dsn = [];
  generic_workers = pos 4;
  billing_workers = pos 3;
  failure_probe_workers = pos 1;
  run_duration = pos (15 * 60 * second);
  progress_report_interval = pos (10 * second);
  seed_parent_rows_per_table = pos 1000;
  seed_hot_parent_keys = pos 16;
}
