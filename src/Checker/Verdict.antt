-- ===== src/Checker/Verdict.antt =====
-- What the checks report.
use tidb_fk_test.Base.{
  ℕ, ◌≡◌, ◌↔◌, refl, Bool, true, ◌&&◌, Option, List, [], ◌∷◌, codes, text_eq, arith, ◌==◌,
}
use tidb_fk_test.Base.Errors.{Error, wrap}
use tidb_fk_test.Base.Maps.{lookup}
use tidb_fk_test.Db.Session.{Outcome, ok, failed, QueryRowContext}
use tidb_fk_test.Seed.Value.{Value}
use tidb_fk_test.Seed.Apply.Phases.{AppliedState}
use tidb_fk_test.Report.Summary.{Summary}
use tidb_fk_test.Checker.{
  CheckOutcome, CheckSummary, check_named, check_args, generic_orphan_child, cascade_result,
  orphan_query, cascade_query, runtime_of, run_check, checked, counted, summarized, run_named,
  run_checks,
}

abbrev pub all_passed : List CheckOutcome → Bool
all_passed [] = true
all_passed (o ∷ os) = o.passed && all_passed os

abbrev pub cascade_args : AppliedState → List Value
cascade_args applied = check_args (check_named cascade_result) applied

module _ {S : Type 0} (db : QueryRowContext S) (applied : AppliedState)
    (runtime : Option Summary) where
  -- The branches of a run whose first query gave `orphans`, and whose second gave `children`.
  abbrev pub Branches : Outcome ℕ × S → Outcome ℕ × S → Outcome CheckSummary × S → Type 0
  Branches orphans children r =
      ((e : Error) → orphans.0 ≡ failed e → r ≡ (failed (wrap generic_orphan_child e), orphans.1))
      × ((n : ℕ) (e : Error)
          → orphans.0 ≡ ok n
          → children.0 ≡ failed e
          → r ≡ (failed (wrap cascade_result e), children.1))
      × ((n k : ℕ)
          → orphans.0 ≡ ok n
          → children.0 ≡ ok k
          → (sm : CheckSummary) × (r ≡ (ok sm, children.1))
            × (sm.runtime ≡ runtime_of runtime)
            × ((all_passed sm.outcomes ≡ true) ↔ ((n ≡ 0) × (k ≡ 0))))

  abbrev second_check : Outcome ℕ × S → Outcome (List CheckOutcome) × S
  second_check children =
      checked db cascade_result (λ s. (ok [], s)) (counted db (check_named cascade_result) children)

  abbrev both_checks : Outcome ℕ × S → (S → Outcome ℕ × S) → Outcome CheckSummary × S
  both_checks orphans children = summarized db runtime (
      checked db generic_orphan_child (λ s. second_check (children s))
        (counted db (check_named generic_orphan_child) orphans))

  both-pass : (n k : ℕ) → ((n == 0) && ((k == 0) && true) ≡ true) ↔ ((n ≡ 0) × (k ≡ 0))
  both-pass n k = ground arith

  failed_first :
      (e : Error) (t : S) (children : S → Outcome ℕ × S)
      → Branches (failed e, t) (children t) (both_checks (failed e, t) children)
  failed_first e t children = (λ d f. cc, (λ n d f g. absurd (cc)), λ n k f g. absurd (cc))

  counted_first :
      (n : ℕ) (t : S) (children : S → Outcome ℕ × S) (c : Outcome ℕ × S)
      → Branches (ok n, t) c (both_checks (ok n, t) (λ s. c))
  counted_first n t children (failed e, u) =
      (λ d f. absurd (cc), (λ m d f g. cc), λ m k f g. absurd (cc))
  counted_first n t children (ok k, u) = (
    λ d f. absurd (cc),
    (λ m d f g. absurd (cc)),
    λ m l f g.
        let p : n ≡ m = cc in let q : k ≡ l = cc in rw (← p, ← q) (_, refl, refl, both-pass n k),
  )

  split :
      (o : Outcome ℕ × S) (children : S → Outcome ℕ × S)
      → Branches o (children o.1) (both_checks o children)
  split (failed e, t) children = failed_first e t children
  split (ok n, t) children = counted_first n t children (children t)

  -- `Run` asks for the orphans, then for the children of the cascade's parent. Where the first query
  -- fails, it returns that error under the check's name, and the second is not asked; where the
  -- second fails, likewise. Otherwise it returns the summary of the run, and all checks pass exactly
  -- where both counts are zero.
  pub run_checks_lem :
      (s : S)
      → let orphans = db orphan_query [] s in
        let children = db cascade_query (cascade_args applied) orphans.1 in
        Branches orphans children (run_checks db applied runtime s)
  unfolding run_checks run_named check_named check_args run_check codes lookup text_eq
  run_checks_lem s = split (db orphan_query [] s) (db cascade_query (cascade_args applied))
