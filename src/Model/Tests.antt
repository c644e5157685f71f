-- ===== src/Model/Tests.antt =====
-- Concrete runs of `Classify`.
use tidb_fk_test.Base.{ℕ, ◌≡◌, ◌≢◌, refl, some, [], ◌++◌, codes}
use tidb_fk_test.Base.Errors.{Error, new_error}
use tidb_fk_test.Model.{expected_fk_failure, classify}
use tidb_fk_test.Model.Classify.{classify_expected}

abbrev same_letter : ℕ → ℕ
same_letter c = c

abbrev lock_error : Error
lock_error = new_error (codes "Error 1: upgrading a lock")

upgrading-ne : codes "upgrading" ≢ []
unfolding codes
upgrading-ne e = cc

lock_error-text : lock_error.text ≡ codes "Error 1: " ++ (codes "upgrading" ++ codes " a lock")
unfolding codes
lock_error-text = refl

upgrading_lock_expected :
    classify same_letter (codes "upgrading") (some lock_error)
    ≡ record { kind = expected_fk_failure; error_text = lock_error.text }
upgrading_lock_expected =
    classify_expected same_letter (codes "upgrading") (codes "Error 1: ") (codes " a lock")
      lock_error upgrading-ne lock_error-text
