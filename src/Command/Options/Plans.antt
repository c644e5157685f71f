-- ===== src/Command/Options/Plans.antt =====
-- The plan that `run` rebuilds from the recorded metadata, against that of `prepare`.
use tidb_fk_test.Base.{ℕ, ℤ, pos, ◌≡◌, refl, ◌∙◌, false, Option, some, List, [], ◌∷◌, Text}
use tidb_fk_test.Config.{Config, default}
use tidb_fk_test.Db.Session.{Outcome, ok, failed}
use tidb_fk_test.Seed.Value.{Value, int, time}
use tidb_fk_test.Seed.Generic.{generic_plan}
use tidb_fk_test.Seed.Billing.{billing_plan}
use tidb_fk_test.Seed.Apply.Phases.{build_applied_state, seed_plan_version}
use tidb_fk_test.Seed.Apply.Prepare.{metadata_statement}
use tidb_fk_test.Seed.Metadata.{
  no_metadata, PreparedMetadata, MetadataRow, is_zero, metadata_query, first_layout,
  read_prepared_metadata, parse_prepared_at,
}
use tidb_fk_test.Command.Options.{
  PrepareOptions, RunOptions, or_default, prepare_config, run_config, build_dsns,
  build_prepare_config, build_run_config,
}

-- The two plans depend on two fields only.
build_applied_state-counts :
    (c d : Config)
    → c.seed_parent_rows_per_table ≡ d.seed_parent_rows_per_table
    → c.seed_hot_parent_keys ≡ d.seed_hot_parent_keys
    → build_applied_state c ≡ build_applied_state d
unfolding build_applied_state generic_plan billing_plan
build_applied_state-counts c d r h = rw (r, h) refl

-- What the row holds behind the upsert with the arguments: the values, and the time as text.
abbrev pub IsRecorded : (ℕ → Text) → List Value → MetadataRow → Type 0
IsRecorded format args row =
    (v r h : ℤ) × (t : ℕ) × (args ≡ int v ∷ int r ∷ int h ∷ time t ∷ [])
    × (row ≡ record {
      seed_plan_version = v;
      seed_parent_rows_per_table = r;
      seed_hot_parent_keys = h;
      prepared_at = some (format t);
    })

module _ (quote : Text → Text) where
  pub prepare_counts :
      (opts : PrepareOptions) (cfg : Config)
      → build_prepare_config quote opts ≡ ok cfg
      → (cfg.seed_parent_rows_per_table ≡ opts.seed_parent_rows_per_table)
        × (cfg.seed_hot_parent_keys ≡ opts.seed_hot_parent_keys)
  unfolding build_prepare_config
  prepare_counts opts cfg e = split (build_dsns quote opts.connection) e
    where
      split :
          (o : Outcome (List Text))
          → prepare_config quote opts o ≡ ok cfg
          → (cfg.seed_parent_rows_per_table ≡ opts.seed_parent_rows_per_table)
            × (cfg.seed_hot_parent_keys ≡ opts.seed_hot_parent_keys)
      split (failed d) e = absurd (cc)
      split (ok dsns) e = (cc, cc)

  pub run_counts :
      (opts : RunOptions) (md : PreparedMetadata) (cfg : Config)
      → build_run_config quote opts md ≡ ok cfg
      → (cfg.seed_parent_rows_per_table
          ≡ or_default quote default.seed_parent_rows_per_table md.seed_parent_rows_per_table)
        × (cfg.seed_hot_parent_keys
            ≡ or_default quote default.seed_hot_parent_keys md.seed_hot_parent_keys)
  unfolding build_run_config
  run_counts opts md cfg e = split (build_dsns quote opts.connection) e
    where
      split :
          (o : Outcome (List Text))
          → run_config quote opts md o ≡ ok cfg
          → (cfg.seed_parent_rows_per_table
              ≡ or_default quote default.seed_parent_rows_per_table md.seed_parent_rows_per_table)
            × (cfg.seed_hot_parent_keys
                ≡ or_default quote default.seed_hot_parent_keys md.seed_hot_parent_keys)
      split (failed d) e = absurd (cc)
      split (ok dsns) e = (cc, cc)

  -- Whether the options are accepted does not depend on the metadata.
  run_config-some :
      (opts : RunOptions) (base : Config) (md : PreparedMetadata)
      → build_run_config quote opts no_metadata ≡ ok base
      → (again : Config) × (build_run_config quote opts md ≡ ok again)
  unfolding build_run_config
  run_config-some opts base md e = split (build_dsns quote opts.connection) e
    where
      split :
          (o : Outcome (List Text))
          → run_config quote opts no_metadata o ≡ ok base
          → (again : Config) × (run_config quote opts md o ≡ ok again)
      split (failed d) e = absurd (cc)
      split (ok dsns) e = (_, refl)

-- Where `prepare` ran with two counts that are not zero, and the database gives back the metadata
-- row that it recorded, `run`, with options that it accepts, reads the metadata without an error, finds
-- its own plan version, and rebuilds the very plans of `prepare`. (The first layout parses the text that the database makes of
-- the time.)
pub run_rebuilds_plans :
    {S : Type 0} (parse_in_location : Text → Text → Option ℕ) (quote : Text → Text)
    (format : ℕ → Text) (query_row : Text → S → Outcome MetadataRow × S) (prepare : PrepareOptions)
    (run : RunOptions) (cfg base : Config) (now : ℕ) (row : MetadataRow) (s t : S)
    → ((at : ℕ) → parse_in_location first_layout (format at) ≡ some at)
    → build_prepare_config quote prepare ≡ ok cfg
    → is_zero prepare.seed_parent_rows_per_table ≡ false
    → is_zero prepare.seed_hot_parent_keys ≡ false
    → IsRecorded format (metadata_statement cfg now).args row
    → query_row metadata_query s ≡ (ok row, t)
    → build_run_config quote run no_metadata ≡ ok base
    → (md : PreparedMetadata) × (read_prepared_metadata parse_in_location quote query_row s
        ≡ (ok md, t))
      × (md.seed_plan_version ≡ pos seed_plan_version)
      × (again : Config) × (build_run_config quote run md ≡ ok again)
      × (build_applied_state again ≡ build_applied_state cfg)
unfolding read_prepared_metadata parse_prepared_at
run_rebuilds_plans parse quote format query_row prepare run cfg base now row s t first built rows
      hot recorded found accepted =
    let (v, r, h, at, args, same) = recorded in
    let version : v ≡ pos seed_plan_version = cc in
    let row_count : r ≡ cfg.seed_parent_rows_per_table = cc in
    let hot_count : h ≡ cfg.seed_hot_parent_keys = cc in
    let (given, given_hot) = prepare_counts quote prepare cfg built in
    let nonzero : is_zero r ≡ false = cc (row_count, given, rows) in
    let nonzero_hot : is_zero h ≡ false = cc (hot_count, given_hot, hot) in
    let md : PreparedMetadata = record {
      seed_plan_version = v;
      seed_parent_rows_per_table = r;
      seed_hot_parent_keys = h;
      prepared_at = some at;
    } in
    let (again, e) = run_config-some quote run base md accepted in
    let (c, d) = run_counts quote run md again e in
    (
      md,
      rw (found, same, first at) refl,
      version,
      again,
      e,
      build_applied_state-counts again cfg (c ∙ rw nonzero row_count)
          (d ∙ rw nonzero_hot hot_count),
    )
