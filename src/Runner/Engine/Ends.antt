-- ===== src/Runner/Engine/Ends.antt =====
-- Behind a request to stop the workers return, whatever the order of their steps.
use tidb_fk_test.Base.{
  ℕ, suc, ◌+◌, ◌*◌, ◌≤◌, ◌<◌, ◌≡◌, refl, sym, ◌⊎◌, Bool, true, false, Option, none, some, List,
  length, arith, if◌then◌else◌, Text,
}
use mathlib.Core.Path.{subst}
use tidb_fk_test.Base.Errors.{Error}
use tidb_fk_test.Db.Session.{Outcome, ok, failed, Tx}
use tidb_fk_test.Base.Maps.{lookup, or_else}
use tidb_fk_test.Scenario.Catalog.{Scenario, meta}
use tidb_fk_test.Scenario.Keeps.{CallsKeep, run-keeps}
use tidb_fk_test.Runner.Plans.{WorkerPlan}
use tidb_fk_test.Runner.Step.{
  Env, Shared, should_stop, should_ignore_stop_artifact, record_and_log_error, report_error,
}
use tidb_fk_test.Runner.Engine.{
  Pc, top, checks, begins, runs, commits, rolls_back, reports, records, returned, crashed, move,
  is_active, begun_pc, run_pc, committed_pc, System, spawned, Turn, turn, outside, Reach, here,
  next,
}
use tidb_fk_test.Runner.Engine.Invariant.{
  IsBegun, HasBegun, HaveBegun, Reach-HaveBegun, spawned-HaveBegun, mover-HasBegun,
}
use tidb_fk_test.Runner.Engine.Ranks.{
  rank, ends_at, rank_at, rank_at-bound, rank_at-move, total_rank, total_rank-append,
  total_rank-bound, AreDone, may-Turn,
}

module _ {S : Type 0} (env : Env S) where
  -- How many steps of workers a run of the system has.
  abbrev pub turns : {Outside : S → S → Type 0} {a b : System S} → Reach env Outside a b → ℕ
  turns here = 0
  turns (next r (turn t)) = suc (turns r)
  turns (next r (outside s o e)) = turns r

  -- How many of them are steps of the worker at position `i`.
  abbrev pub turns_of : {Outside : S → S → Type 0} {a b : System S} → ℕ → Reach env Outside a b → ℕ
  turns_of i here = 0
  turns_of i (next r (turn t)) = ends_at i t.before + turns_of i r
  turns_of i (next r (outside s o e)) = turns_of i r

  -- A request to stop, or the end of the context, is not taken back by a call.
  pub record StopStays : Type 0 where
    pub begin_tx : (s : S) → should_stop env s ≡ true → should_stop env (env.begin_tx s).1 ≡ true
    pub session :
        (tx : Tx S) → IsBegun env tx → CallsKeep tx.session (λ s. should_stop env s ≡ true)
    pub commit :
        (tx : Tx S) (s : S)
        → IsBegun env tx
        → should_stop env s ≡ true
        → should_stop env (tx.commit s).1 ≡ true
    pub rollback :
        (tx : Tx S) (s : S)
        → IsBegun env tx
        → should_stop env s ≡ true
        → should_stop env (tx.rollback s).1 ≡ true
    pub now : (s : S) → should_stop env s ≡ true → should_stop env (env.now s).1 ≡ true

  abbrev pub IsStopped : Shared S → Type 0
  IsStopped st = should_stop env st.world ≡ true

  module _ (stays : StopStays) (id : ℕ) where
    rank-begun_pc :
        (plan : WorkerPlan) (item : Scenario) (o : Outcome (Tx S))
        → rank (begun_pc env plan item o) < 6
    rank-begun_pc plan item (ok tx) = omega arith
    rank-begun_pc plan item (failed e) = omega arith

    rank-run_pc :
        (plan : WorkerPlan) (item : Scenario) (tx : Tx S) (o : Option Error)
        → rank (run_pc env plan item tx o) < 5
    rank-run_pc plan item tx none = omega arith
    rank-run_pc plan item tx (some e) = omega arith

    rank-committed_pc :
        (plan : WorkerPlan) (item : Scenario) (tx : Tx S) (o : Option Error)
        → rank (committed_pc env plan item tx o) < 4
    rank-committed_pc plan item tx none = omega arith
    rank-committed_pc plan item tx (some e) = omega arith

    report_error-IsStopped :
        (item : Scenario) (step : Text) (e : Error) (st : Shared S)
        → IsStopped st
        → IsStopped (report_error env id (meta item) step e st)
    unfolding report_error record_and_log_error
    report_error-IsStopped item step e st h =
        split (should_ignore_stop_artifact env st.world (some e))
      where
        split :
            (b : Bool)
            → IsStopped (if b then st else record_and_log_error env id (meta item) step e st)
        split true = h
        split false = stays.now _ (stays.now st.world h)

    move-rank :
        (pc : Pc S) (st : Shared S)
        → IsStopped st
        → HasBegun env pc
        → is_active pc ≡ true
        → (rank (move env id pc st).0 < rank pc) × IsStopped (move env id pc st).1
    unfolding move
    move-rank (top plan) st h g a = rw h (omega arith, h)
    move-rank (checks plan item) st h g a = rw h (omega arith, h)
    move-rank (begins plan item) st h g a =
        (rank-begun_pc plan item (env.begin_tx st.world).0, stays.begin_tx st.world h)
    move-rank (runs plan item tx) st h g a = (
      rank-run_pc plan item tx _,
      run-keeps tx.session (λ s. should_stop env s ≡ true) (stays.session tx g) item env.seed_state
          (or_else 0 (lookup (meta item).name st.counters)) st.world h,
    )
    move-rank (commits plan item tx) st h g a =
        (rank-committed_pc plan item tx _, stays.commit tx st.world g h)
    move-rank (rolls_back plan item tx step e) st h g a =
        (omega arith, stays.rollback tx st.world g h)
    move-rank (reports plan item step e) st h g a =
        (omega arith, report_error-IsStopped item step e st h)
    move-rank (records plan item) st h g a = (omega arith, stays.now st.world h)
    move-rank returned st h g a = absurd (cc)
    move-rank crashed st h g a = absurd (cc)

  module _ (stays : StopStays) where
    Turn-total_rank :
        {a b : System S}
        → IsStopped a.shared
        → HaveBegun env a
        → Turn env a b
        → (total_rank b.workers < total_rank a.workers) × IsStopped b.shared
    Turn-total_rank {a = a} {b = b} h g t =
        let (r, k) = move-rank stays t.id t.pc a.shared h (mover-HasBegun env g t) t.active in
        let e : total_rank a.workers ≡ total_rank t.before + (rank t.pc + total_rank t.behind) =
          rw t.from (total_rank-append t.before _) in
        let f : total_rank b.workers
            ≡ total_rank t.before + (rank (move env t.id t.pc a.shared).0 + total_rank t.behind) =
          rw t.to (total_rank-append t.before _) in
        (omega arith, subst (λ (x : System S). IsStopped x.shared) (sym t.to) k)

    Turn-rank_at :
        {a b : System S} (i : ℕ)
        → IsStopped a.shared
        → HaveBegun env a
        → (t : Turn env a b) → ends_at i t.before + rank_at i b.workers ≤ rank_at i a.workers
    Turn-rank_at {a = a} i h g t =
        let (r, k) = move-rank stays t.id t.pc a.shared h (mover-HasBegun env g t) t.active in
        rw (t.from, t.to) (rank_at-move i t.before t.id t.pc _ t.behind r)

    module _ {Outside : S → S → Type 0}
        (kept : (s t : S) → Outside s t → should_stop env s ≡ true → should_stop env t ≡ true) where
      turns-total_rank :
          {a b : System S}
          → IsStopped a.shared
          → HaveBegun env a
          → (r : Reach env Outside a b)
          → (turns r + total_rank b.workers ≤ total_rank a.workers) × IsStopped b.shared
      turns-total_rank h g here = (omega arith, h)
      turns-total_rank h g (next r (turn t)) =
          let (i, k) = turns-total_rank h g r in
          let (j, l) = Turn-total_rank k (Reach-HaveBegun env g r) t in (omega arith, l)
      turns-total_rank {b = c} h g (next {b = b} r (outside s o e)) =
          let (i, k) = turns-total_rank h g r in
          let same : c.workers ≡ b.workers = rw e refl in
          (rw same i, subst (λ (x : System S). IsStopped x.shared) (sym e) (kept _ s o k))

      turns_of-rank_at :
          {a b : System S} (i : ℕ)
          → IsStopped a.shared
          → HaveBegun env a
          → (r : Reach env Outside a b) → turns_of i r + rank_at i b.workers ≤ rank_at i a.workers
      turns_of-rank_at i h g here = omega arith
      turns_of-rank_at i h g (next r (turn t)) =
          let (_, k) = turns-total_rank h g r in
          let p = turns_of-rank_at i h g r in
          let q = Turn-rank_at i k (Reach-HaveBegun env g r) t in omega arith
      turns_of-rank_at {b = c} i h g (next {b = b} r (outside s o e)) =
          let same : c.workers ≡ b.workers = rw e refl in rw same (turns_of-rank_at i h g r)

      -- Behind a request to stop, or behind the end of the context, which nothing takes back, each
      -- of the workers that `Run` has started makes at most six steps, in whatever order and
      -- whatever the calls return. Until all of them have ended, some worker can make its next step.
      pub stopped-Ends :
          (plans : List WorkerPlan) (shared : Shared S) {a b : System S}
          → Reach env Outside (record { shared = shared; workers = spawned plans }) a
          → IsStopped a.shared
          → (r : Reach env Outside a b)
          → (turns r ≤ 6 * length a.workers)
            × ((i : ℕ) → turns_of i r ≤ 6)
            × (AreDone b.workers ⊎ ((c : System S) × Turn env b c))
      stopped-Ends plans shared {a = a} {b = b} q h r =
          let g = Reach-HaveBegun env (spawned-HaveBegun env plans) q in
          let (i, k) = turns-total_rank h g r in
          let j = total_rank-bound a.workers in
          let each : (i : ℕ) → turns_of i r ≤ 6 = λ i.
            let p = turns_of-rank_at i h g r in let m = rank_at-bound i a.workers in omega arith in
          (omega arith, each, may-Turn b)
