-- ===== src/Runner/Engine/Invariant.antt =====
-- What each step of a worker keeps, the whole system keeps.
use mathlib.Core.Path.{subst}
use tidb_fk_test.Base.{
  ℕ, ◌≡◌, refl, sym, Option, none, some, List, [], ◌∷◌, All, All-append, All-middle, Bool, true,
  false, if◌then◌else◌,
}
use tidb_fk_test.Base.Errors.{Error}
use tidb_fk_test.Db.Session.{Outcome, ok, failed, Tx}
use tidb_fk_test.Scenario.Catalog.{Scenario}
use tidb_fk_test.Runner.Plans.{WorkerPlan, next_scenario}
use tidb_fk_test.Runner.Step.{Env, Shared, should_stop}
use tidb_fk_test.Runner.Engine.{
  Pc, top, checks, begins, runs, commits, rolls_back, reports, records, returned, crashed, begun_pc,
  run_pc, committed_pc, taken, move, System, spawned, Turn, turn, outside, Reach, here, next,
}

module _ {S : Type 0} (env : Env S) where
  module _ (P : Pc S → Type 0)
      (kept : (id : ℕ) (pc : Pc S) (st : Shared S) → P pc → P (move env id pc st).0) where
    Turn-All :
        {a b : System S}
        → All (λ (w : ℕ × Pc S). P w.1) a.workers
        → Turn env a b
        → All (λ (w : ℕ × Pc S). P w.1) b.workers
    Turn-All {a = a} h t =
        let (p, q, r) =
          All-middle (λ (w : ℕ × Pc S). P w.1) t.before t.behind (t.id, t.pc)
            (subst (λ ws. All (λ (w : ℕ × Pc S). P w.1) ws) t.from h) in
        subst (λ (x : System S). All (λ (w : ℕ × Pc S). P w.1) x.workers) (sym t.to)
          (All-append (λ (w : ℕ × Pc S). P w.1) t.before _ p (kept t.id t.pc a.shared q, r))

    pub Reach-All :
        {Outside : S → S → Type 0} {a b : System S}
        → All (λ (w : ℕ × Pc S). P w.1) a.workers
        → Reach env Outside a b
        → All (λ (w : ℕ × Pc S). P w.1) b.workers
    Reach-All h here = h
    Reach-All h (next r (turn t)) = Turn-All (Reach-All h r) t
    Reach-All h (next r (outside s o e)) =
        subst (λ (x : System S). All (λ (w : ℕ × Pc S). P w.1) x.workers) (sym e) (Reach-All h r)

  module _ (Q : Shared S → Type 0) {Outside : S → S → Type 0}
      (kept : (id : ℕ) (pc : Pc S) (st : Shared S) → Q st → Q (move env id pc st).1)
      (kept_outside : (st : Shared S) (s : S)
        → Outside st.world s
        → Q st
        → Q (record st { world = s })) where
    pub Reach-shared : {a b : System S} → Q a.shared → Reach env Outside a b → Q b.shared
    Reach-shared h here = h
    Reach-shared h (next {b = b} r (turn t)) =
        subst (λ (x : System S). Q x.shared) (sym t.to) (kept t.id t.pc b.shared (Reach-shared h r))
    Reach-shared h (next {b = b} r (outside s o e)) =
        subst (λ (x : System S). Q x.shared) (sym e) (kept_outside b.shared s o (Reach-shared h r))

  -- A transaction that `BeginTx` has given.
  abbrev pub IsBegun : Tx S → Type 0
  IsBegun tx = (r : S) × (s : S) × (env.begin_tx r ≡ (ok tx, s))

  abbrev pub HasBegun : Pc S → Type 0
  HasBegun (runs plan item tx) = IsBegun tx
  HasBegun (commits plan item tx) = IsBegun tx
  HasBegun (rolls_back plan item tx step e) = IsBegun tx
  HasBegun _ = Unit

  begun_pc-HasBegun :
      (plan : WorkerPlan) (item : Scenario) (s : S) (o : Outcome (Tx S) × S)
      → env.begin_tx s ≡ o
      → HasBegun (begun_pc env plan item o.0)
  begun_pc-HasBegun plan item s (ok tx, t) e = (s, t, e)
  begun_pc-HasBegun plan item s (failed x, t) e = tt

  run_pc-HasBegun :
      (plan : WorkerPlan) (item : Scenario) (tx : Tx S) (o : Option Error)
      → IsBegun tx
      → HasBegun (run_pc env plan item tx o)
  run_pc-HasBegun plan item tx none h = h
  run_pc-HasBegun plan item tx (some e) h = h

  committed_pc-HasBegun :
      (plan : WorkerPlan) (item : Scenario) (tx : Tx S) (o : Option Error)
      → IsBegun tx
      → HasBegun (committed_pc env plan item tx o)
  committed_pc-HasBegun plan item tx none h = tt
  committed_pc-HasBegun plan item tx (some e) h = h

  taken-HasBegun : (o : Option (Scenario × WorkerPlan)) → HasBegun (taken env o)
  taken-HasBegun none = tt
  taken-HasBegun (some (item, plan)) = tt

  -- A test of the stop flag leaves a property of both places.
  pub if-pc :
      (P : Pc S → Type 0) (b : Bool) (x y : Pc S) (st : Shared S)
      → P x
      → P y
      → P (if◌then◌else◌ {A = Pc S × Shared S} b (x, st) (y, st)).0
  if-pc P true x y st h k = h
  if-pc P false x y st h k = k

  pub move-HasBegun :
      (id : ℕ) (pc : Pc S) (st : Shared S) → HasBegun pc → HasBegun (move env id pc st).0
  unfolding move
  move-HasBegun id (top plan) st h =
      if-pc HasBegun (should_stop env st.world) returned (taken env (next_scenario plan)) st tt
        (taken-HasBegun _)
  move-HasBegun id (checks plan item) st h =
      if-pc HasBegun (should_stop env st.world) (top plan) (begins plan item) st tt tt
  move-HasBegun id (begins plan item) st h = begun_pc-HasBegun plan item st.world _ refl
  move-HasBegun id (runs plan item tx) st h = run_pc-HasBegun plan item tx _ h
  move-HasBegun id (commits plan item tx) st h = committed_pc-HasBegun plan item tx _ h
  move-HasBegun id (rolls_back plan item tx step e) st h = tt
  move-HasBegun id (reports plan item step e) st h = tt
  move-HasBegun id (records plan item) st h = tt
  move-HasBegun id returned st h = tt
  move-HasBegun id crashed st h = tt

  abbrev pub HaveBegun : System S → Type 0
  HaveBegun a = All (λ (w : ℕ × Pc S). HasBegun w.1) a.workers

  pub Reach-HaveBegun :
      {Outside : S → S → Type 0} {a b : System S}
      → HaveBegun a
      → Reach env Outside a b
      → HaveBegun b
  Reach-HaveBegun h r = Reach-All HasBegun move-HasBegun h r

  pub spawned-HaveBegun :
      (plans : List WorkerPlan) → All (λ (w : ℕ × Pc S). HasBegun w.1) (spawned plans)
  spawned-HaveBegun [] = tt
  spawned-HaveBegun (p ∷ ps) = (tt, spawned-HaveBegun ps)

  -- The worker that makes the turn.
  pub mover-HasBegun : {a b : System S} → HaveBegun a → (t : Turn env a b) → HasBegun t.pc
  mover-HasBegun g t =
      (All-middle (λ (w : ℕ × Pc S). HasBegun w.1) t.before t.behind (t.id, t.pc)
        (subst (λ ws. All (λ (w : ℕ × Pc S). HasBegun w.1) ws) t.from g)).1
