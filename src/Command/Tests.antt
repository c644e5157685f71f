-- ===== src/Command/Tests.antt =====
-- Concrete command lines.
use tidb_fk_test.Base.{
  ℕ, suc, pos, ◌≡◌, ◌≢◌, refl, Option, none, some, List, [], ◌∷◌, map, codes, Text, arith, All,
}
use tidb_fk_test.Base.Spaces.{trim_space}
use tidb_fk_test.Config.{Config, default}
use tidb_fk_test.Db.Session.{Outcome, ok}
use tidb_fk_test.Seed.Apply.Phases.{build_applied_state, seed_plan_version}
use tidb_fk_test.Seed.Metadata.{PreparedMetadata, MetadataRow, no_metadata, read_prepared_metadata}
use tidb_fk_test.Command.Nodes.{parse_nodes}
use tidb_fk_test.Command.Nodes.RoundTrip.{
  plain, IsNode, nodes_text, endpoint_of, parse_nodes-nodes_text,
}
use tidb_fk_test.Command.Nodes.Bounds.{count, IsEndpoint, parse_nodes-IsEndpoint}
use tidb_fk_test.Command.Options.{
  ConnectionOptions, PrepareOptions, RunOptions, build_prepare_config, build_run_config,
}
use tidb_fk_test.Seed.Generic.{generic_plan}
use tidb_fk_test.Seed.Generic.Rows.{generic_parent_hot_rows}
use tidb_fk_test.Command.Options.HotParents.{run_invents_hot_parents}
use tidb_fk_test.Command.Options.Plans.{run_rebuilds_plans}

abbrev quote : Text → Text
quote t = t

abbrev two_nodes : List (Text × ℕ)
two_nodes = (b'a' ∷ [], 4000) ∷ (b'b' ∷ b'1' ∷ [], 4001) ∷ []

are_nodes : All IsNode two_nodes
unfolding plain
are_nodes = (
  ((λ e. cc), (refl, tt), omega arith, omega arith),
  (((λ e. cc), (refl, (refl, tt)), omega arith, omega arith), tt),
)

parse_nodes-nodes_text_example :
    parse_nodes quote (nodes_text two_nodes) ≡ ok (map endpoint_of two_nodes)
parse_nodes-nodes_text_example = parse_nodes-nodes_text quote two_nodes (λ e. cc) are_nodes

parse_nodes-IsEndpoint_example :
    (2 ≡ suc (count b',' (nodes_text two_nodes))) × All IsEndpoint (map endpoint_of two_nodes)
parse_nodes-IsEndpoint_example =
    parse_nodes-IsEndpoint quote (nodes_text two_nodes) (map endpoint_of two_nodes)
      parse_nodes-nodes_text_example

abbrev one_node : ConnectionOptions
one_node = record {
  nodes = b'h' ∷ b':' ∷ b'1' ∷ [];
  user = b'u' ∷ [];
  password = [];
  db = b'd' ∷ [];
}

abbrev prepare_options : PrepareOptions
prepare_options = record {
  connection = one_node;
  seed_parent_rows_per_table = pos 3;
  seed_hot_parent_keys = pos 2;
}

abbrev run_options : RunOptions
run_options = record {
  connection = one_node;
  duration = pos 3;
  progress_report_interval = pos 1;
  generic_workers = pos 4;
  billing_workers = pos 3;
  failure_probe_workers = pos 1;
}

abbrev one_dsn : List Text
one_dsn = codes "u@tcp(h:1)/d" ∷ []

abbrev prepared : Config
prepared = record default {
  dsn = one_dsn;
  seed_parent_rows_per_table = pos 3;
  seed_hot_parent_keys = pos 2;
}

is_prepared : build_prepare_config quote prepare_options ≡ ok prepared
unfolding build_prepare_config codes trim_space parse_nodes
is_prepared = refl

abbrev base : Config
base = record default { dsn = one_dsn; run_duration = pos 3; progress_report_interval = pos 1 }

is_base : build_run_config quote run_options no_metadata ≡ ok base
unfolding build_run_config codes trim_space parse_nodes
is_base = refl

-- A time is shown as one character.
abbrev parse_time : Text → Text → Option ℕ
parse_time layout [] = none
parse_time layout (c ∷ s) = some c

abbrev row : MetadataRow
row = record {
  seed_plan_version = pos 1;
  seed_parent_rows_per_table = pos 3;
  seed_hot_parent_keys = pos 2;
  prepared_at = some (9 ∷ []);
}

abbrev find_row : Text → ℕ → Outcome MetadataRow × ℕ
find_row query s = (ok row, s)

run_rebuilds_plans_example :
    (md : PreparedMetadata) × (read_prepared_metadata parse_time quote find_row 0 ≡ (ok md, 0))
    × (md.seed_plan_version ≡ pos seed_plan_version)
    × (again : Config) × (build_run_config quote run_options md ≡ ok again)
    × (build_applied_state again ≡ build_applied_state prepared)
run_rebuilds_plans_example =
    run_rebuilds_plans parse_time quote (λ at. at ∷ []) find_row prepare_options run_options
      prepared base 9 row 0 0 (λ at. refl) is_prepared refl refl
      (pos 1, pos 3, pos 2, 9, refl, refl) refl is_base

abbrev no_hot_options : PrepareOptions
no_hot_options = record prepare_options { seed_hot_parent_keys = pos 0 }

abbrev no_hot_prepared : Config
no_hot_prepared = record prepared { seed_hot_parent_keys = pos 0 }

is_prepared_without_hot : build_prepare_config quote no_hot_options ≡ ok no_hot_prepared
unfolding build_prepare_config codes trim_space parse_nodes
is_prepared_without_hot = refl

abbrev no_hot_metadata : PreparedMetadata
no_hot_metadata = record {
  seed_plan_version = pos 1;
  seed_parent_rows_per_table = pos 3;
  seed_hot_parent_keys = pos 0;
  prepared_at = none;
}

abbrev no_hot_again : Config
no_hot_again = record base { seed_parent_rows_per_table = pos 3 }

is_rebuilt_without_hot : build_run_config quote run_options no_hot_metadata ≡ ok no_hot_again
unfolding build_run_config codes trim_space parse_nodes
is_rebuilt_without_hot = refl

run_invents_hot_parents_example :
    (generic_parent_hot_rows (generic_plan no_hot_prepared) ≡ [])
    × ((generic_plan no_hot_again).hot_parent_ids ≢ [])
    × ((generic_plan no_hot_again).concurrent_hot_parent_insert_slots ≢ [])
run_invents_hot_parents_example =
    run_invents_hot_parents quote no_hot_options run_options no_hot_prepared no_hot_again
      no_hot_metadata is_prepared_without_hot refl refl refl refl is_rebuilt_without_hot
