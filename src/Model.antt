-- ===== src/Model.antt =====
-- internal/model/result.go: how the error of a transaction is classified.
pub mod Classify
mod Tests
use tidb_fk_test.Base.{
  ℕ, ◌≡◌, Bool, true, false, not, ◌&&◌, ◌||◌, Option, none, some, List, [], ◌∷◌, Text, codes,
  if◌then◌else◌,
}
use tidb_fk_test.Base.Strings.{contains, to_lower}
use tidb_fk_test.Base.Errors.{Error}

pub data ResultKind : Type 0 where
  success expected_fk_failure infra_or_upgrade_transient unexpected_failure : ResultKind

pub record Result : Type 0 where
  pub kind : ResultKind
  pub error_text : Text

abbrev pub is_empty : Text → Bool
is_empty [] = true
is_empty (c ∷ s) = false

-- The second case of the switch.
unfoldable pub is_transient : Text → Bool
unfolding codes
is_transient normalized =
    contains normalized (codes "driver: bad connection")
    || contains normalized (codes "context deadline exceeded")
    || contains normalized (codes "connection refused")
    || contains normalized (codes "i/o timeout")

classify_message : (ℕ → ℕ) → Text → Text → Result
classify_message lower expected_error_match message =
    let normalized = to_lower lower message in
    let expected = to_lower lower expected_error_match in
    if not (is_empty expected) && contains normalized expected
    then record { kind = expected_fk_failure; error_text = message }
    else if is_transient normalized
    then record { kind = infra_or_upgrade_transient; error_text = message }
    else record { kind = unexpected_failure; error_text = message }

-- `lower` is unicode.ToLower above ASCII.
unfoldable pub classify : (ℕ → ℕ) → Text → Option Error → Result
unfolding classify_message
classify lower expected_error_match none = record { kind = success; error_text = [] }
classify lower expected_error_match (some err) =
    classify_message lower expected_error_match err.text
