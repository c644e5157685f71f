-- ===== src/Model/Classify.antt =====
-- What `Classify` of internal/model/result.go promises.
use mathlib.Core.List.{map-append}
use tidb_fk_test.Base.{ℕ, ◌≡◌, ◌≢◌, refl, true, some, [], ◌∷◌, ◌++◌, Text, arith}
use tidb_fk_test.Base.Strings.{contains, to_lower, contains-middle}
use tidb_fk_test.Base.Errors.{Error}
use tidb_fk_test.Model.{expected_fk_failure, classify}

-- A message that holds the expected text, with anything before and behind it, is an expected
-- failure, also where it names a transient condition too.
pub classify_expected :
    (lower : ℕ → ℕ) (expected pre post : Text) (err : Error)
    → expected ≢ []
    → err.text ≡ pre ++ (expected ++ post)
    → classify lower expected (some err)
      ≡ record { kind = expected_fk_failure; error_text = err.text }
unfolding classify to_lower
classify_expected lower [] pre post err ne e = absurd (ne refl)
classify_expected lower (c ∷ expected) pre post err ne e = ground (arith, found)
  where
    found : contains (to_lower lower err.text) (to_lower lower (c ∷ expected)) ≡ true
    found =
        rw (e, map-append, map-append)
          (contains-middle (to_lower lower pre) (to_lower lower (c ∷ expected))
            (to_lower lower post))
