-- ===== src/Seed/Metadata/Checks.antt =====
-- What `ValidatePreparedState` promises.
use tidb_fk_test.Base.{
  ℕ, ◌≡◌, ◌≢◌, refl, ◌⊎◌, inl, inr, Bool, true, false, Option, none, some, List, [], ◌∷◌, ◌++◌,
  ◌==◌, ==_iff, if◌then◌else◌, arith, ap,
}
use tidb_fk_test.Base.Errors.{Error, wrap}
use tidb_fk_test.Db.Session.{Outcome, ok, failed, QueryRowContext}
use tidb_fk_test.Seed.Apply.Phases.{AppliedState}
use tidb_fk_test.Seed.Metadata.{
  PreparedCheck, prepared_checks, missing, counted, run_prepared_checks, validate_prepared_state,
}

module _ {S : Type 0} (db : QueryRowContext S) where
  -- The queries of the checks, in order, all find some row.
  abbrev pub Pass : List PreparedCheck → S → S → Type 0
  Pass [] s t = s ≡ t
  Pass (check ∷ checks) s t =
      (n : ℕ) × (u : S) × (db check.query check.args s ≡ (ok n, u)) × (n ≢ 0) × Pass checks u t

  -- The query of a check fails, or finds no row, with the error that is then returned.
  abbrev pub Stops : PreparedCheck → S → Option Error × S → Type 0
  Stops check s r =
      ((e : Error) × (t : S) × (db check.query check.args s ≡ (failed e, t))
        × (r ≡ (some (wrap check.name e), t)))
      ⊎ ((t : S) × (db check.query check.args s ≡ (ok 0, t))
          × (r ≡ (some (missing db check.name), t)))

  pub record IsStopped (checks : List PreparedCheck) (s : S) (r : Option Error × S) : Type 0 where
    pub before : List PreparedCheck
    pub check : PreparedCheck
    pub behind : List PreparedCheck
    pub world : S
    pub split : checks ≡ before ++ check ∷ behind
    pub pass : Pass before s world
    pub stops : Stops check world r

  abbrev pub Verdict : List PreparedCheck → S → Option Error × S → Type 0
  Verdict checks s r = ((t : S) × Pass checks s t × (r ≡ (none, t))) ⊎ IsStopped checks s r

  Verdict-cons :
      (check : PreparedCheck) (checks : List PreparedCheck) (n : ℕ) (s u : S) (r : Option Error × S)
      → db check.query check.args s ≡ (ok n, u)
      → n ≢ 0
      → Verdict checks u r
      → Verdict (check ∷ checks) s r
  Verdict-cons check checks n s u r q ne (inl (t, pass, e)) = inl (t, (n, u, q, ne, pass), e)
  Verdict-cons check checks n s u r q ne (inr st) = inr (record {
    before = check ∷ st.before;
    check = st.check;
    behind = st.behind;
    world = st.world;
    split = ap (◌∷◌ check) st.split;
    pass = (n, u, q, ne, st.pass);
    stops = st.stops;
  })

  stopped_here :
      (check : PreparedCheck) (checks : List PreparedCheck) (s : S) (r : Option Error × S)
      → Stops check s r
      → Verdict (check ∷ checks) s r
  stopped_here check checks s r st = inr (record {
    before = [];
    check = check;
    behind = checks;
    world = s;
    split = refl;
    pass = refl;
    stops = st;
  })

  run_prepared_checks-Verdict :
      (checks : List PreparedCheck) (s : S) → Verdict checks s (run_prepared_checks db checks s)
  unfolding run_prepared_checks
  run_prepared_checks-Verdict [] s = inl (s, refl, refl)
  run_prepared_checks-Verdict (check ∷ checks) s =
      asked (db check.query check.args s) refl (run_prepared_checks-Verdict checks)
    where
      asked :
          (o : Outcome ℕ × S)
          → db check.query check.args s ≡ o
          → ((u : S) → Verdict checks u (run_prepared_checks db checks u))
          → Verdict (check ∷ checks) s (counted db check.name (run_prepared_checks db checks) o)
      asked (failed e, t) q more = stopped_here check checks s _ (inl (e, t, q, refl))
      asked (ok n, t) q more = found (n == 0) refl
        where
          found :
              (b : Bool)
              → (n == 0) ≡ b
              → Verdict
                  (check ∷ checks)
                  s
                  (if b then (some (missing db check.name), t) else run_prepared_checks db checks t)
          found true e = stopped_here check checks s _ (inr (t, cc (q, (==_iff n 0).0 e), refl))
          found false e = Verdict-cons check checks n s t _ q (λ z. ground (arith, e, z)) (more t)

  -- `ValidatePreparedState` returns no error exactly on a prepared database: it asks for the rows of
  -- its checks in order, and returns an error under the name of the first whose query fails or finds
  -- no row; the checks behind that one are not asked.
  pub validate_prepared_state-Verdict :
      (applied : AppliedState) (s : S)
      → Verdict (prepared_checks applied) s (validate_prepared_state db applied s)
  unfolding validate_prepared_state
  validate_prepared_state-Verdict applied s =
      run_prepared_checks-Verdict (prepared_checks applied) s
