-- ===== src/Seed/Metadata.antt =====
-- internal/seed/metadata.go: what `prepare` recorded, and whether its fixtures are there. The database
-- is a parameter; so is `parse_in_location`, time.ParseInLocation in UTC, and `quote`, the %q of fmt.
pub mod Checks
use tidb_fk_test.Base.{
  ℕ, ℤ, pos, negsuc, Bool, true, false, Option, none, some, List, [], ◌∷◌, ◌++◌, Text, codes, ◌==◌,
  if◌then◌else◌,
}
use tidb_fk_test.Base.Errors.{Error, new_error, wrap, no_rows, prepare_metadata_not_found, is_error}
use tidb_fk_test.Db.Session.{Outcome, ok, failed, QueryRowContext}
use tidb_fk_test.Seed.Value.{Value, int64}
use tidb_fk_test.Seed.Apply.Phases.{AppliedState}

-- `prepared_at` is `none` for Go's zero time.
pub record PreparedMetadata : Type 0 where
  pub seed_plan_version : ℤ
  pub seed_parent_rows_per_table : ℤ
  pub seed_hot_parent_keys : ℤ
  pub prepared_at : Option ℕ

abbrev pub no_metadata : PreparedMetadata
no_metadata = record {
  seed_plan_version = pos 0;
  seed_parent_rows_per_table = pos 0;
  seed_hot_parent_keys = pos 0;
  prepared_at = none;
}

abbrev pub is_zero : ℤ → Bool
is_zero (pos n) = n == 0
is_zero (negsuc n) = false

pub err_prepare_metadata_not_found : Error
err_prepare_metadata_not_found = record {
  text = codes "prepare metadata not found";
  chain = prepare_metadata_not_found ∷ [];
}

-- The row that is scanned: three numbers, and a text that may be NULL.
pub record MetadataRow : Type 0 where
  pub seed_plan_version : ℤ
  pub seed_parent_rows_per_table : ℤ
  pub seed_hot_parent_keys : ℤ
  pub prepared_at : Option Text

abbrev pub metadata_query : Text
metadata_query =
    codes
      "SELECT seed_plan_version, seed_parent_rows_per_table, seed_hot_parent_keys, prepared_at FROM fk_prepare_metadata WHERE singleton_id = 1"

abbrev pub first_layout : Text
first_layout = codes "2006-01-02 15:04:05.999999"

abbrev pub layouts : List Text
layouts =
    first_layout ∷ codes "2006-01-02 15:04:05" ∷ codes "2006-01-02T15:04:05.999999999Z07:00" ∷ []

module _ (parse_in_location : Text → Text → Option ℕ) (quote : Text → Text) where
  abbrev try_layout : Option ℕ → Option ℕ → Option ℕ
  try_layout (some parsed) rest = some parsed
  try_layout none rest = rest

  -- The loop over the layouts.
  abbrev pub parse_layouts : List Text → Text → Option ℕ
  parse_layouts [] value = none
  parse_layouts (layout ∷ rest) value =
      try_layout (parse_in_location layout value) (parse_layouts rest value)

  abbrev parsed_or : Text → Option ℕ → Outcome ℕ
  parsed_or value (some parsed) = ok parsed
  parsed_or value none = failed (new_error (codes "unsupported datetime format " ++ quote value))

  unfoldable pub parse_prepared_at : Text → Outcome ℕ
  unfolding codes
  parse_prepared_at value = parsed_or value (parse_layouts layouts value)

  abbrev pub metadata_at : MetadataRow → Option ℕ → PreparedMetadata
  metadata_at row at = record {
    seed_plan_version = row.seed_plan_version;
    seed_parent_rows_per_table = row.seed_parent_rows_per_table;
    seed_hot_parent_keys = row.seed_hot_parent_keys;
    prepared_at = at;
  }

  abbrev pub with_time : MetadataRow → Outcome ℕ → Outcome PreparedMetadata
  with_time row (ok parsed) = ok (metadata_at row (some parsed))
  with_time row (failed e) = failed (wrap (codes "parse prepared_at") e)

  abbrev pub scanned : MetadataRow → Option Text → Outcome PreparedMetadata
  scanned row none = ok (metadata_at row none)
  scanned row (some value) = with_time row (parse_prepared_at value)

  abbrev pub read_row : Outcome MetadataRow → Outcome PreparedMetadata
  read_row (failed e) =
      if is_error (some e) no_rows then failed err_prepare_metadata_not_found else failed e
  read_row (ok row) = scanned row row.prepared_at

  -- `query_row` is the row of the query, scanned.
  unfoldable pub read_prepared_metadata :
      {S : Type 0} → (Text → S → Outcome MetadataRow × S) → S → Outcome PreparedMetadata × S
  unfolding parse_prepared_at codes
  read_prepared_metadata query_row s =
      let (row, s') = query_row metadata_query s in (read_row row, s')

pub record PreparedCheck : Type 0 where
  pub name : Text
  pub query : Text
  pub args : List Value

-- if id != 0 { checks = append(checks, ...) }
abbrev pub check_of_id : ℕ → Text → Text → List PreparedCheck
check_of_id id name query =
    if id == 0 then [] else record { name = name; query = query; args = int64 id ∷ [] } ∷ []

unfoldable pub prepared_checks : AppliedState → List PreparedCheck
unfolding codes
prepared_checks applied =
    record {
      name = codes "prepare metadata row";
      query = codes "SELECT COUNT(*) FROM fk_prepare_metadata WHERE singleton_id = 1";
      args = [];
    }
    ∷ record {
      name = codes "probe summary row";
      query = codes "SELECT COUNT(*) FROM probe_summary WHERE singleton_id = 1";
      args = [];
    }
    ∷ (check_of_id applied.generic.existing_parent_id (codes "generic seed parent")
          (codes "SELECT COUNT(*) FROM parent_basic WHERE id = ?")
        ++ check_of_id applied.billing.existing_bill_id (codes "billing seed bill")
            (codes "SELECT COUNT(*) FROM bill WHERE id = ?"))

module _ {S : Type 0} (db : QueryRowContext S) where
  abbrev pub missing : Text → Error
  missing name = new_error (name ++ codes " is missing; run prepare first")

  abbrev pub counted : Text → (S → Option Error × S) → Outcome ℕ × S → Option Error × S
  counted name rest (failed e, s) = (some (wrap name e), s)
  counted name rest (ok count, s) = if count == 0 then (some (missing name), s) else rest s

  -- The loop over the checks.
  unfoldable pub run_prepared_checks : List PreparedCheck → S → Option Error × S
  unfolding codes
  run_prepared_checks [] s = (none, s)
  run_prepared_checks (check ∷ checks) s =
      counted check.name (run_prepared_checks checks) (db check.query check.args s)

  unfoldable pub validate_prepared_state : AppliedState → S → Option Error × S
  unfolding prepared_checks run_prepared_checks
  validate_prepared_state applied s = run_prepared_checks (prepared_checks applied) s
