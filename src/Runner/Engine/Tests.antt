-- ===== src/Runner/Engine/Tests.antt =====
-- Concrete interleavings of the engine.
use tidb_fk_test.Base.{
  ℕ, ◌+◌, ◌*◌, ◌%◌, ◌≤◌, ◌≡◌, ◌⊎◌, refl, sym, ap, Bool, false, true, pos, none, some, List, [], ◌∷◌,
  codes, length, ◌||◌, inr,
}
use mathlib.Core.Path.{subst}
use tidb_fk_test.Config.{default}
use tidb_fk_test.Db.Session.{Tx, ok}
use tidb_fk_test.Seed.Generic.{generic_plan}
use tidb_fk_test.Seed.Billing.{billing_plan}
use tidb_fk_test.Scenario.Types.{failure_probe_group}
use tidb_fk_test.Scenario.Catalog.{Scenario, payment_bill_update_probe, meta}
use tidb_fk_test.Scenario.Registry.{all}
use tidb_fk_test.Report.Summary.{new_summary}
use tidb_fk_test.Report.Summary.Counts.{IsConsistent}
use tidb_fk_test.Report.Summary.History.{history-IsConsistent, record_all}
use tidb_fk_test.Runner.Scheduler.{workers}
use tidb_fk_test.Runner.Plans.{
  WorkerPlan, by_group, build_worker_plans, plan_workers, next_scenario,
}
use tidb_fk_test.Runner.Step.{Env, Shared, should_stop}
use tidb_fk_test.Runner.Engine.{
  EngineConfig, started, start, validate, Pc, top, checks, begins, runs, move, System, Turn, turn,
  outside, Reach, here, next,
}
use tidb_fk_test.Runner.Engine.Ends.{StopStays, turns, turns_of, stopped-Ends}
use tidb_fk_test.Runner.Engine.Ranks.{AreDone, FirstActive}
use tidb_fk_test.Runner.Engine.Safe.{AreSafe}
use tidb_fk_test.Runner.Engine.Starts.{workers-AreSafe}
use tidb_fk_test.Runner.Engine.Pending.{OnlyBegins, AllHeld, workers-AllHeld}

abbrev probes : List Scenario
probes = payment_bill_update_probe ∷ []

-- The world says whether the one transaction is open, and whether a stop is requested.
abbrev World : Type 0
World = Bool × Bool

abbrev one_tx : Tx World
one_tx = record {
  session = record {
    exec_context = λ query args s. (none, s);
    query_row_context = λ query args s. (ok 1, s);
  };
  commit = λ s. (none, (false, s.1));
  rollback = λ s. (none, (false, s.1));
}

abbrev one_connection : Env World
one_connection = record {
  begin_tx = λ s. (ok one_tx, (true, s.1));
  stop_requested = λ s. s.1;
  ctx_err = λ s. none;
  now = λ s. (7, s);
  lower = λ c. c;
  seed_state = record { generic = generic_plan default; billing = billing_plan default };
}

abbrev idle : Shared World
idle = record { world = (false, false); summary = new_summary probes; counters = []; log = [] }

abbrev plan : WorkerPlan
plan = record {
  worker = record { id = 0; group = failure_probe_group };
  scenarios = probes;
  next = 0;
}

abbrev later : WorkerPlan
later = record plan { next = (0 + 1) % length probes }

-- A stop may be requested, and is not taken back.
abbrev Stops : World → World → Type 0
Stops s t = t ≡ (s.0, true)

abbrev at_pc : Shared World → Pc World → System World
at_pc st pc = record { shared = st; workers = (0, pc) ∷ [] }

-- One worker goes from the top of its loop into its first transaction.
abbrev busy : Shared World
busy = record idle { world = (true, false) }

into_tx :
    Reach one_connection Stops
      (at_pc idle (top plan))
      (at_pc busy (runs later payment_bill_update_probe one_tx))
unfolding move should_stop next_scenario
into_tx =
    next
      (next
        (next here (
          turn (record {
            before = [];
            id = 0;
            pc = top plan;
            behind = [];
            active = refl;
            from = refl;
            to = refl;
          })))
        (turn (record {
          before = [];
          id = 0;
          pc = checks later payment_bill_update_probe;
          behind = [];
          active = refl;
          from = refl;
          to = refl;
        })))
      (turn (record {
        before = [];
        id = 0;
        pc = begins later payment_bill_update_probe;
        behind = [];
        active = refl;
        from = refl;
        to = refl;
      }))

-- Then a stop is requested.
abbrev stopping : Shared World
stopping = record idle { world = (true, true) }

into_stop :
    Reach one_connection Stops
      (at_pc idle (top plan))
      (at_pc stopping (runs later payment_bill_update_probe one_tx))
into_stop = next into_tx (outside (true, true) refl refl)

stop_stays : StopStays one_connection
unfolding should_stop
stop_stays = record {
  begin_tx = λ s h. h;
  session = λ tx b. record {
    exec_context = λ query args s h.
        let same : one_tx ≡ tx = cc (b.2) in
        subst (λ (x : Tx World). ((x.session.exec_context query args s).1.1 || false) ≡ true) same
          h;
    query_row_context = λ query args s h.
        let same : one_tx ≡ tx = cc (b.2) in
        subst (λ (x : Tx World). ((x.session.query_row_context query args s).1.1 || false) ≡ true)
          same h;
  };
  commit = λ tx s b h.
      let same : one_tx ≡ tx = cc (b.2) in
      subst (λ (x : Tx World). ((x.commit s).1.1 || false) ≡ true) same h;
  rollback = λ tx s b h.
      let same : one_tx ≡ tx = cc (b.2) in
      subst (λ (x : Tx World). ((x.rollback s).1.1 || false) ≡ true) same h;
  now = λ s h. h;
}

stops_stay :
    (s t : World)
    → Stops s t
    → should_stop one_connection s ≡ true
    → should_stop one_connection t ≡ true
unfolding should_stop
stops_stay s t h k = rw h refl

-- Behind the request the worker runs its scenario.
abbrev ran : Pc World × Shared World
ran = move one_connection 0 (runs later payment_bill_update_probe one_tx) stopping

run_step :
    Reach one_connection Stops
      (at_pc stopping (runs later payment_bill_update_probe one_tx))
      (at_pc ran.1 ran.0)
run_step = next here (
    turn (record {
      before = [];
      id = 0;
      pc = runs later payment_bill_update_probe one_tx;
      behind = [];
      active = refl;
      from = refl;
      to = refl;
    }))

is_stopping : should_stop one_connection (true, true) ≡ true
unfolding should_stop
is_stopping = refl

stopped-Ends_example :
    (turns one_connection run_step ≤ 6 * 1)
    × ((i : ℕ) → turns_of one_connection i run_step ≤ 6)
    × (AreDone ((0, ran.0) ∷ []) ⊎ ((c : System World) × Turn one_connection (at_pc ran.1 ran.0) c))
stopped-Ends_example =
    stopped-Ends one_connection stop_stays stops_stay (plan ∷ []) idle into_stop is_stopping
      run_step

abbrev engine : EngineConfig World
engine = record {
  session = some one_connection.begin_tx;
  registry = some (record { items = (codes "probe", payment_bill_update_probe) ∷ [] });
  scheduler = record {
    generic_workers = pos 0;
    billing_workers = pos 0;
    failure_probe_workers = pos 1;
    progress_interval = pos 10;
  };
  seed_state = one_connection.seed_state;
  summary = some idle.summary;
  progress = record { interval = pos 10 };
  run_duration = pos 3;
}

engine_starts : start engine ≡ started (plan ∷ [])
unfolding start validate workers build_worker_plans by_group all plan_workers meta
engine_starts = refl

idle-IsConsistent : IsConsistent idle.summary
unfolding record_all
idle-IsConsistent = history-IsConsistent probes []

workers-AreSafe_example : AreSafe (at_pc busy (runs later payment_bill_update_probe one_tx))
workers-AreSafe_example =
    workers-AreSafe one_connection engine (plan ∷ []) idle
      (at_pc busy (runs later payment_bill_update_probe one_tx)) engine_starts idle-IsConsistent
      into_tx

abbrev tag : Tx World → ℕ
tag tx = 0

abbrev IsOpen : World → ℕ → Type 0
IsOpen s k = (s.0 ≡ true) × (k ≡ 0)

only_begins : OnlyBegins one_connection tag IsOpen
only_begins = record {
  begin_tx = λ s t tx k e o. inr o.1;
  begin_fails = λ s t e k f o. absurd (cc);
  session = λ tx s k b. record {
    exec_context = λ query args t h.
        let same : one_tx ≡ tx = cc (b.2) in
        subst (λ (x : Tx World). IsOpen (x.session.exec_context query args t).1 k → IsOpen s k) same
          h;
    query_row_context = λ query args t h.
        let same : one_tx ≡ tx = cc (b.2) in
        subst (λ (x : Tx World). IsOpen (x.session.query_row_context query args t).1 k → IsOpen s k)
          same h;
  };
  commits = λ tx s t k b c o.
      let same : one_tx ≡ tx = cc (b.2) in
      let closed : ◌≡◌ {A = World} (false, s.1) t = cc (rw (← same) at c) in
      absurd (cc (ap (λ (w : World). w.0) closed, o.0));
  commit_fails =
      λ tx s t e k b c o. let same : one_tx ≡ tx = cc (b.2) in absurd (cc (rw (← same) at c));
  rollback = λ tx s k b o.
      let same : one_tx ≡ tx = cc (b.2) in
      let closed : IsOpen (one_tx.rollback s).1 k =
        subst (λ (x : Tx World). IsOpen (x.rollback s).1 k) (sym same) o in
      absurd (cc (closed.0));
  now = λ s k o. o;
}

workers-AllHeld_example :
    AllHeld one_connection tag IsOpen (at_pc busy (runs later payment_bill_update_probe one_tx))
    × (FirstActive ((0, runs later payment_bill_update_probe one_tx) ∷ [])
        ⊎ ((k : ℕ) → ¬ IsOpen (true, false) k))
workers-AllHeld_example =
    workers-AllHeld one_connection tag IsOpen only_begins
      (λ s t k h o. (cc (ap (λ (w : World). w.0) h, o.0), o.1)) (plan ∷ []) idle
      (at_pc busy (runs later payment_bill_update_probe one_tx)) (λ k o. cc (o.0)) into_tx
