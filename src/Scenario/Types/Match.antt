-- ===== src/Scenario/Types/Match.antt =====
-- The two readings of an expected error: `matchesExpectedError` and `model.Classify`.
use tidb_fk_test.Base.{ℕ, ◌≡◌, ◌↔◌, refl, true, Option, none, some, [], ◌∷◌, Text, arith}
use tidb_fk_test.Base.Strings.{to_lower}
use tidb_fk_test.Base.Errors.{Error}
use tidb_fk_test.Model.{expected_fk_failure, classify}
use tidb_fk_test.Scenario.Types.{Metadata, matches_expected_error}

-- The summary counts an outcome as an expected failure exactly where `matchesExpectedError` says
-- that the error is the one that the scenario expects.
pub classify_matches :
    (lower : ℕ → ℕ) (m : Metadata) (err : Option Error)
    → ((classify lower m.expected_error_match err).kind ≡ expected_fk_failure)
      ↔ (matches_expected_error lower m err ≡ true)
unfolding classify matches_expected_error to_lower
classify_matches lower m none = (λ e. cc, λ e. cc)
classify_matches lower m (some err) = match m.expected_error_match refl
  where
    match :
        (t : Text)
        → m.expected_error_match ≡ t
        → ((classify lower m.expected_error_match (some err)).kind ≡ expected_fk_failure)
          ↔ (matches_expected_error lower m (some err) ≡ true)
    match [] e = ground (arith, e)
    match (c ∷ t) e = ground (arith, e)
