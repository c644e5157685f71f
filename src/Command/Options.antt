-- ===== src/Command/Options.antt =====
-- The options of the commands and the configurations that are made of them: `buildDSNs`,
-- `buildPrepareConfig` and `buildRunConfig`.
pub mod Plans
pub mod HotParents
use tidb_fk_test.Base.{ℕ, ℤ, pos, Bool, List, [], ◌∷◌, ◌++◌, map, Text, codes, if◌then◌else◌}
use tidb_fk_test.Base.Decimal.{show_int}
use tidb_fk_test.Base.Errors.{Error, new_error}
use tidb_fk_test.Base.Spaces.{trim_space}
use tidb_fk_test.Config.{Config, default}
use tidb_fk_test.Model.{is_empty}
use tidb_fk_test.Db.Session.{Outcome, ok, failed}
use tidb_fk_test.Seed.Metadata.{PreparedMetadata, is_zero}
use tidb_fk_test.Command.Nodes.{NodeEndpoint, parse_nodes}

pub record ConnectionOptions : Type 0 where
  pub nodes : Text
  pub user : Text
  pub password : Text
  pub db : Text

pub record PrepareOptions : Type 0 where
  pub connection : ConnectionOptions
  pub seed_parent_rows_per_table : ℤ
  pub seed_hot_parent_keys : ℤ

pub record RunOptions : Type 0 where
  pub connection : ConnectionOptions
  pub duration : ℤ
  pub progress_report_interval : ℤ
  pub generic_workers : ℤ
  pub billing_workers : ℤ
  pub failure_probe_workers : ℤ

-- "%s@tcp(%s:%d)/%s"
unfoldable pub dsn_of : ConnectionOptions → NodeEndpoint → Text
unfolding show_int codes
dsn_of opts endpoint =
    credentials opts.password
    ++ (codes "@tcp("
        ++ (endpoint.host ++ (codes ":" ++ (show_int endpoint.port ++ (codes ")/" ++ opts.db)))))
  where
    credentials : Text → Text
    credentials [] = opts.user
    credentials (c ∷ s) = opts.user ++ (codes ":" ++ (c ∷ s))

module _ (quote : Text → Text) where
  abbrev pub dsns_of : ConnectionOptions → Outcome (List NodeEndpoint) → Outcome (List Text)
  dsns_of opts (failed e) = failed e
  dsns_of opts (ok endpoints) = ok (map (dsn_of opts) endpoints)

  unfoldable pub build_dsns : ConnectionOptions → Outcome (List Text)
  unfolding trim_space parse_nodes dsn_of codes
  build_dsns opts =
      if is_empty (trim_space opts.nodes)
      then failed (new_error (codes "--nodes is required"))
      else if is_empty (trim_space opts.user)
      then failed (new_error (codes "--user is required"))
      else if is_empty (trim_space opts.db)
      then failed (new_error (codes "--db is required"))
      else dsns_of opts (parse_nodes quote opts.nodes)

  abbrev pub prepare_config : PrepareOptions → Outcome (List Text) → Outcome Config
  prepare_config opts (failed e) = failed e
  prepare_config opts (ok dsns) = ok (record default {
    dsn = dsns;
    seed_parent_rows_per_table = opts.seed_parent_rows_per_table;
    seed_hot_parent_keys = opts.seed_hot_parent_keys;
  })

  unfoldable pub build_prepare_config : PrepareOptions → Outcome Config
  unfolding build_dsns
  build_prepare_config opts = prepare_config opts (build_dsns opts.connection)

  -- A count of the metadata that is not zero takes the place of the default.
  abbrev pub or_default : ℤ → ℤ → ℤ
  or_default fallback value = if is_zero value then fallback else value

  abbrev pub run_config : RunOptions → PreparedMetadata → Outcome (List Text) → Outcome Config
  run_config opts metadata (failed e) = failed e
  run_config opts metadata (ok dsns) = ok (record {
    dsn = dsns;
    run_duration = opts.duration;
    progress_report_interval = opts.progress_report_interval;
    generic_workers = opts.generic_workers;
    billing_workers = opts.billing_workers;
    failure_probe_workers = opts.failure_probe_workers;
    seed_parent_rows_per_table =
        or_default default.seed_parent_rows_per_table metadata.seed_parent_rows_per_table;
    seed_hot_parent_keys = or_default default.seed_hot_parent_keys metadata.seed_hot_parent_keys;
  })

  unfoldable pub build_run_config : RunOptions → PreparedMetadata → Outcome Config
  unfolding build_dsns
  build_run_config opts metadata = run_config opts metadata (build_dsns opts.connection)
