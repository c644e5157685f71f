-- ===== src/Scenario/Types.antt =====
-- internal/scenario/types.go.
pub mod Match
use tidb_fk_test.Base.{ℕ, Bool, false, Option, none, some, Text, if◌then◌else◌}
use tidb_fk_test.Base.Strings.{contains, to_lower}
use tidb_fk_test.Base.Errors.{Error}
use tidb_fk_test.Model.{is_empty}
use tidb_fk_test.Seed.Generic.{GenericSeedPlan}
use tidb_fk_test.Seed.Billing.{BillingSeedPlan}

pub data Group : Type 0 where
  generic_group billing_group failure_probe_group : Group

pub record Metadata : Type 0 where
  pub name : Text
  pub group : Group
  pub weight : ℕ
  pub concurrency_hint : ℕ
  pub expected_error_match : Text

-- `lower` is unicode.ToLower above ASCII.
unfoldable pub matches_expected_error : (ℕ → ℕ) → Metadata → Option Error → Bool
matches_expected_error lower m none = false
matches_expected_error lower m (some err) =
    if is_empty m.expected_error_match
    then false
    else contains (to_lower lower err.text) (to_lower lower m.expected_error_match)

pub record SeedState : Type 0 where
  pub generic : GenericSeedPlan
  pub billing : BillingSeedPlan
