-- ===== src/Runner/Engine/Pending.antt =====
-- Which transactions are open while the workers run, and that none is behind the last worker.
use mathlib.Core.Path.{subst}
use tidb_fk_test.Base.{
  ℕ, ◌≡◌, ◌≢◌, refl, sym, ◌⊎◌, inl, inr, Bool, true, false, Option, none, some, List, [], ◌∷◌, ◌++◌,
  if◌then◌else◌, Text,
}
use tidb_fk_test.Base.Errors.{Error}
use tidb_fk_test.Base.Maps.{lookup, or_else}
use tidb_fk_test.Db.Session.{Outcome, ok, failed, Tx}
use tidb_fk_test.Scenario.Catalog.{Scenario, meta}
use tidb_fk_test.Scenario.Keeps.{CallsKeep, run-keeps}
use tidb_fk_test.Runner.Plans.{WorkerPlan}
use tidb_fk_test.Runner.Step.{
  Env, Shared, should_ignore_stop_artifact, record_and_log_error, report_error,
}
use tidb_fk_test.Runner.Engine.{
  Pc, top, checks, begins, runs, commits, rolls_back, reports, records, returned, crashed, begun_pc,
  run_pc, committed_pc, move, System, spawned, Turn, turn, outside, Reach, here, next,
}
use tidb_fk_test.Runner.Engine.Invariant.{
  IsBegun, HasBegun, HaveBegun, Reach-HaveBegun, spawned-HaveBegun, mover-HasBegun,
}
use tidb_fk_test.Runner.Engine.Ranks.{AreDone, FirstActive, first_active}

-- The worker holds the transaction of number `k`.
abbrev pub Holds : {S : Type 0} → (Tx S → ℕ) → ℕ → Pc S → Type 0
Holds tag k (runs plan item tx) = k ≡ tag tx
Holds tag k (commits plan item tx) = k ≡ tag tx
Holds tag k (rolls_back plan item tx step e) = k ≡ tag tx
Holds tag k _ = ⊥

-- Some worker holds it.
abbrev pub Held : {S : Type 0} → (Tx S → ℕ) → ℕ → List (ℕ × Pc S) → Type 0
Held tag k [] = ⊥
Held tag k ((id, pc) ∷ ws) = Holds tag k pc ⊎ Held tag k ws

module _ {S : Type 0} (tag : Tx S → ℕ) (k : ℕ) where
  Held-replace :
      (before behind : List (ℕ × Pc S)) (id : ℕ) (pc q : Pc S)
      → (Holds tag k pc → Holds tag k q)
      → Held tag k (before ++ (id, pc) ∷ behind)
      → Held tag k (before ++ (id, q) ∷ behind)
  Held-replace [] behind id pc q f (inl h) = inl (f h)
  Held-replace [] behind id pc q f (inr h) = inr h
  Held-replace (w ∷ before) behind id pc q f (inl h) = inl h
  Held-replace (w ∷ before) behind id pc q f (inr h) = inr (Held-replace before behind id pc q f h)

  Held-here :
      (before behind : List (ℕ × Pc S)) (id : ℕ) (q : Pc S)
      → Holds tag k q
      → Held tag k (before ++ (id, q) ∷ behind)
  Held-here [] behind id q h = inl h
  Held-here (w ∷ before) behind id q h = inr (Held-here before behind id q h)

  done-Held : (ws : List (ℕ × Pc S)) → AreDone ws → Held tag k ws → ⊥
  done-Held [] h x = elim x [ ]
  done-Held ((id, returned) ∷ ws) h (inr x) = done-Held ws h.1 x
  done-Held ((id, crashed) ∷ ws) h (inr x) = done-Held ws h.1 x
  done-Held ((id, returned) ∷ ws) h (inl x) = elim x [ ]
  done-Held ((id, crashed) ∷ ws) h (inl x) = elim x [ ]
  done-Held ((id, top plan) ∷ ws) h x = cc
  done-Held ((id, checks plan item) ∷ ws) h x = cc
  done-Held ((id, begins plan item) ∷ ws) h x = cc
  done-Held ((id, runs plan item tx) ∷ ws) h x = cc
  done-Held ((id, commits plan item tx) ∷ ws) h x = cc
  done-Held ((id, rolls_back plan item tx step e) ∷ ws) h x = cc
  done-Held ((id, reports plan item step e) ∷ ws) h x = cc
  done-Held ((id, records plan item) ∷ ws) h x = cc

module _ {S : Type 0} (env : Env S) (tag : Tx S → ℕ) (IsOpen : S → ℕ → Type 0) where
  -- What the code relies on in database/sql, where `IsOpen s k` says that transaction `k` is open:
  -- `BeginTx` opens at most the transaction that it returns, a `Commit` without an error and any
  -- `Rollback` close theirs, and no other call opens one.
  pub record OnlyBegins : Type 0 where
    pub begin_tx :
        (s t : S) (tx : Tx S) (k : ℕ)
        → env.begin_tx s ≡ (ok tx, t)
        → IsOpen t k
        → IsOpen s k ⊎ (k ≡ tag tx)
    pub begin_fails :
        (s t : S) (e : Error) (k : ℕ) → env.begin_tx s ≡ (failed e, t) → IsOpen t k → IsOpen s k
    pub session :
        (tx : Tx S) (s : S) (k : ℕ)
        → IsBegun env tx
        → CallsKeep tx.session (λ t. IsOpen t k → IsOpen s k)
    pub commits :
        (tx : Tx S) (s t : S) (k : ℕ)
        → IsBegun env tx
        → tx.commit s ≡ (none, t)
        → IsOpen t k
        → IsOpen s k × (k ≢ tag tx)
    pub commit_fails :
        (tx : Tx S) (s t : S) (e : Error) (k : ℕ)
        → IsBegun env tx
        → tx.commit s ≡ (some e, t)
        → IsOpen t k
        → IsOpen s k
    pub rollback :
        (tx : Tx S) (s : S) (k : ℕ)
        → IsBegun env tx
        → IsOpen (tx.rollback s).1 k
        → IsOpen s k × (k ≢ tag tx)
    pub now : (s : S) (k : ℕ) → IsOpen (env.now s).1 k → IsOpen s k

  -- A transaction that is open behind a step is one that the worker holds then, or one that was open
  -- before, and that the worker still holds if it held it.
  abbrev Keeps : ℕ → S → Pc S → Pc S × Shared S → Type 0
  Keeps k s pc r =
      IsOpen r.1.world k → Holds tag k r.0 ⊎ (IsOpen s k × (Holds tag k pc → Holds tag k r.0))

  module _ (only : OnlyBegins) (id k : ℕ) where
    begins-Keeps :
        (plan : WorkerPlan) (item : Scenario) (st : Shared S) (o : Outcome (Tx S) × S)
        → env.begin_tx st.world ≡ o
        → Keeps k st.world
            (begins plan item)
            (begun_pc env plan item o.0, record st { world = o.1 })
    begins-Keeps plan item st (ok tx, t) e h = elim (only.begin_tx st.world t tx k e h) [
      | inl x ↦ inr (x, λ z. elim z [ ])
      | inr x ↦ inl x
    ]
    begins-Keeps plan item st (failed x, t) e h =
        inr (only.begin_fails st.world t x k e h, λ z. elim z [ ])

    runs-Keeps :
        (plan : WorkerPlan) (item : Scenario) (tx : Tx S) (o : Option Error)
        → k ≡ tag tx
        → Holds tag k (run_pc env plan item tx o)
    runs-Keeps plan item tx none h = h
    runs-Keeps plan item tx (some e) h = h

    commits-Keeps :
        (plan : WorkerPlan) (item : Scenario) (tx : Tx S) (st : Shared S) (o : Option Error × S)
        → IsBegun env tx
        → tx.commit st.world ≡ o
        → Keeps k st.world
            (commits plan item tx)
            (committed_pc env plan item tx o.0, record st { world = o.1 })
    commits-Keeps plan item tx st (none, t) g e h =
        let (x, y) = only.commits tx st.world t k g e h in inr (x, y)
    commits-Keeps plan item tx st (some x, t) g e h =
        inr (only.commit_fails tx st.world t x k g e h, λ z. z)

    reports-Keeps :
        (plan : WorkerPlan) (item : Scenario) (step : Text) (e : Error) (st : Shared S)
        → IsOpen (report_error env id (meta item) step e st).world k
        → IsOpen st.world k
    unfolding report_error record_and_log_error
    reports-Keeps plan item step e st = split (should_ignore_stop_artifact env st.world (some e))
      where
        split :
            (b : Bool)
            → IsOpen (if b then st else record_and_log_error env id (meta item) step e st).world k
            → IsOpen st.world k
        split true h = h
        split false h = only.now st.world k (only.now _ k h)

    stays-Keeps :
        (b : Bool) (pc x y : Pc S) (st : Shared S)
        → (Holds tag k pc → ⊥)
        → Keeps k st.world pc (if◌then◌else◌ {A = Pc S × Shared S} b (x, st) (y, st))
    stays-Keeps true pc x y st f h = inr (h, λ z. absurd (f z))
    stays-Keeps false pc x y st f h = inr (h, λ z. absurd (f z))

    move-Keeps :
        (pc : Pc S) (st : Shared S) → HasBegun env pc → Keeps k st.world pc (move env id pc st)
    unfolding move
    move-Keeps (top plan) st g h = stays-Keeps _ (top plan) returned _ st (λ z. z) h
    move-Keeps (checks plan item) st g h =
        stays-Keeps _ (checks plan item) (top plan) (begins plan item) st (λ z. z) h
    move-Keeps (begins plan item) st g h = begins-Keeps plan item st _ refl h
    move-Keeps (runs plan item tx) st g h = inr (
      run-keeps tx.session (λ t. IsOpen t k → IsOpen st.world k) (only.session tx st.world k g) item
          env.seed_state (or_else 0 (lookup (meta item).name st.counters)) st.world (λ o. o) h,
      runs-Keeps plan item tx _,
    )
    move-Keeps (commits plan item tx) st g h = commits-Keeps plan item tx st _ g refl h
    move-Keeps (rolls_back plan item tx step e) st g h = inr (only.rollback tx st.world k g h)
    move-Keeps (reports plan item step e) st g h = inr (reports-Keeps plan item step e st h, λ z. z)
    move-Keeps (records plan item) st g h = inr (only.now st.world k h, λ z. z)
    move-Keeps returned st g h = inr (h, λ z. z)
    move-Keeps crashed st g h = inr (h, λ z. z)

  -- Every open transaction is held by some worker.
  abbrev pub AllHeld : System S → Type 0
  AllHeld a = (k : ℕ) → IsOpen a.shared.world k → Held tag k a.workers

  module _ (only : OnlyBegins) {Outside : S → S → Type 0}
      (kept : (s t : S) (k : ℕ) → Outside s t → IsOpen t k → IsOpen s k) where
    Turn-AllHeld : {a b : System S} → HaveBegun env a → AllHeld a → Turn env a b → AllHeld b
    Turn-AllHeld {a = a} g h t = subst AllHeld (sym t.to) λ k o.
        elim (move-Keeps only t.id k t.pc a.shared (mover-HasBegun env g t) o) [
          | inl x ↦ Held-here tag k t.before t.behind t.id _ x
          | inr (x, f) ↦
              Held-replace tag k t.before t.behind t.id t.pc _ f (subst (Held tag k) t.from (h k x))
        ]

    Reach-AllHeld :
        {a b : System S} → HaveBegun env a → AllHeld a → Reach env Outside a b → AllHeld b
    Reach-AllHeld g h here = h
    Reach-AllHeld g h (next r (turn t)) =
        Turn-AllHeld (Reach-HaveBegun env g r) (Reach-AllHeld g h r) t
    Reach-AllHeld g h (next r (outside s o e)) =
        subst AllHeld (sym e) λ k x. Reach-AllHeld g h r k (kept _ s k o x)

    -- In every state that the workers of `Run` reach from a world without an open transaction,
    -- whatever the order of their steps, an open transaction is one that a worker holds between its
    -- `BeginTx` and its `Commit` or `Rollback`; and either some worker has not ended, or none is open.
    pub workers-AllHeld :
        (plans : List WorkerPlan) (shared : Shared S) (b : System S)
        → ((k : ℕ) → ¬ IsOpen shared.world k)
        → Reach env Outside (record { shared = shared; workers = spawned plans }) b
        → AllHeld b × (FirstActive b.workers ⊎ ((k : ℕ) → ¬ IsOpen b.shared.world k))
    workers-AllHeld plans shared b n r =
        let h = Reach-AllHeld (spawned-HaveBegun env plans) (λ k x. absurd (n k x)) r in
        (
          h,
          elim (first_active b.workers) [
            | inl d ↦ inr λ k x. done-Held tag k b.workers d (h k x)
            | inr active ↦ inl active
          ],
        )
