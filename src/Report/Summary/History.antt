-- ===== src/Report/Summary/History.antt =====
-- The summary after a history of recorded results, against plain counts of the history.
use mathlib.Core.Path.{subst, sym, ap}
use tidb_fk_test.Base.{
  ℕ, ◌+◌, ◌%◌, ◌^◌, ◌≡◌, refl, List, [], ◌∷◌, Text, text_eq, text_eq_iff, if◌then◌else◌, arith,
  Bool, true, false, inl, inr, Bool-cases,
}
use tidb_fk_test.Base.Maps.{
  Map, lookup, insert, or_else, lookup-insert, sum_values, sum_values-insert,
}
use tidb_fk_test.Model.{
  ResultKind, Result, success, expected_fk_failure, infra_or_upgrade_transient, unexpected_failure,
}
use tidb_fk_test.Scenario.Types.{Metadata}
use tidb_fk_test.Scenario.Catalog.{Scenario, meta}
use tidb_fk_test.Report.Summary.{
  Totals, Summary, ScenarioSummary, no_totals, new_stats, add_names, new_summary, inc64,
  count_total, update_stats, record_result, scenario,
}
use tidb_fk_test.Report.Summary.Counts.{IsConsistent, record_result-IsConsistent}

pub record Event : Type 0 where
  pub meta : Metadata
  pub result : Result
  pub at : ℕ

-- The calls of `Record`, in the order in which they take the mutex.
unfoldable pub record_all : Summary → List Event → Summary
unfolding record_result
record_all s [] = s
record_all s (e ∷ es) = record_all (record_result e.meta e.result e.at s) es

-- One more outcome, in unbounded numbers.
abbrev pub bump : ResultKind → Totals → Totals
bump success t = record t { executed = t.executed + 1; success = t.success + 1 }
bump expected_fk_failure t = record t {
  executed = t.executed + 1;
  expected_failure = t.expected_failure + 1;
}
bump _ t = record t { executed = t.executed + 1; unexpected_failure = t.unexpected_failure + 1 }

-- The outcomes of the events that pass the test, added to a count.
unfoldable pub count_events : (Event → Bool) → List Event → Totals → Totals
count_events p [] t = t
count_events p (e ∷ es) t = count_events p es (if p e then bump e.result.kind t else t)

abbrev pub every : Event → Bool
every e = true

abbrev pub of_scenario : Text → Event → Bool
of_scenario name e = text_eq e.meta.name name

-- The `int64`s of counters stand for the counts.
abbrev pub Shows : Totals → Totals → Type 0
Shows t c =
    (t.executed ≡ c.executed % 2 ^ 64)
    × (t.success ≡ c.success % 2 ^ 64)
    × (t.expected_failure ≡ c.expected_failure % 2 ^ 64)
    × (t.unexpected_failure ≡ c.unexpected_failure % 2 ^ 64)

abbrev pub counters : ScenarioSummary → Totals
counters v = record {
  executed = v.executed;
  success = v.success;
  expected_failure = v.expected_failure;
  unexpected_failure = v.unexpected_failure;
}

-- The entry of a scenario; one that was never recorded counts as new.
abbrev pub entry : Summary → Text → ScenarioSummary
entry s name = or_else (new_stats name) (scenario s name)

step : (x y : ℕ) → x ≡ y % 2 ^ 64 → (x + 1) % 2 ^ 64 ≡ (y + 1) % 2 ^ 64
step x y h = omega arith

-- One result, on the counters.
abbrev count_result : ResultKind → Totals → Totals
count_result k t = count_total k (record t { executed = inc64 t.executed })

count_total-Shows :
    (k : ResultKind) (t c : Totals) → Shows t c → Shows (count_result k t) (bump k c)
unfolding count_total
count_total-Shows success t c h = (step _ _ h.0, step _ _ h.1, h.2, h.3)
count_total-Shows expected_fk_failure t c h = (step _ _ h.0, h.1, step _ _ h.2, h.3)
count_total-Shows infra_or_upgrade_transient t c h = (step _ _ h.0, h.1, h.2, step _ _ h.3)
count_total-Shows unexpected_failure t c h = (step _ _ h.0, h.1, h.2, step _ _ h.3)

record-Shows :
    (m : Metadata) (r : Result) (at : ℕ) (s : Summary) (c : Totals)
    → Shows s.totals c
    → Shows (record_result m r at s).totals (bump r.kind c)
unfolding record_result
record-Shows m r at s c h = count_total-Shows r.kind s.totals c h

-- The counters do not depend on the name and the last error.
update-counters :
    (name : Text) (r : Result) (at : ℕ) (v : ScenarioSummary)
    → counters (update_stats name r at v) ≡ count_result r.kind (counters v)
unfolding update_stats count_total
update-counters name r at v = counted r.kind refl
  where
    counted :
        (k : ResultKind)
        → r.kind ≡ k
        → counters (update_stats name r at v) ≡ count_result k (counters v)
    counted success e = ground arith
    counted expected_fk_failure e = ground arith
    counted infra_or_upgrade_transient e = ground arith
    counted unexpected_failure e = ground arith

-- Whatever its name, an entry with zero counters is new.
entry-counters :
    (name : Text) (s : Summary)
    → counters (or_else (new_stats []) (lookup name s.scenarios)) ≡ counters (entry s name)
unfolding scenario
entry-counters name s = ground arith

entry-record :
    (m : Metadata) (r : Result) (at : ℕ) (s : Summary) (name : Text)
    → counters (entry (record_result m r at s) name) ≡ (
        if text_eq m.name name
        then count_result r.kind (counters (entry s name))
        else counters (entry s name))
unfolding record_result scenario
entry-record m r at s name = elim (Bool-cases (text_eq m.name name)) [
  | inl e ↦
      let same : m.name ≡ name = (text_eq_iff m.name name).0 e in
      let old = or_else (new_stats []) (lookup m.name s.scenarios) in
      rw (lookup-insert m.name name _ s.scenarios, e, update-counters m.name r at old, same)
        (ap (count_result r.kind) (entry-counters name s))
  | inr e ↦ rw (lookup-insert m.name name _ s.scenarios, e) refl
]

record_all-Shows :
    (es : List Event) (s : Summary) (c : Totals)
    → Shows s.totals c
    → Shows (record_all s es).totals (count_events every es c)
unfolding record_all count_events
record_all-Shows [] s c h = h
record_all-Shows (e ∷ es) s c h =
    record_all-Shows es _ (bump e.result.kind c) (record-Shows e.meta e.result e.at s c h)

record_all-entry :
    (name : Text) (es : List Event) (s : Summary) (c : Totals)
    → Shows (counters (entry s name)) c
    → Shows (counters (entry (record_all s es) name)) (count_events (of_scenario name) es c)
unfolding record_all count_events
record_all-entry name [] s c h = h
record_all-entry name (e ∷ es) s c h = record_all-entry name es _ _ (
    subst (λ (t : Totals). Shows t (if of_scenario name e then bump e.result.kind c else c))
      (sym (entry-record e.meta e.result e.at s name)) (move (text_eq e.meta.name name)))
  where
    move :
        (b : Bool)
        → Shows
            (if b
              then count_result e.result.kind (counters (entry s name))
              else counters (entry s name))
            (if b then bump e.result.kind c else c)
    move true = count_total-Shows e.result.kind (counters (entry s name)) c h
    move false = h

add_names-entry :
    (name : Text) (items : List Scenario) (m : Map ScenarioSummary)
    → counters (or_else (new_stats name) (lookup name m)) ≡ no_totals
    → counters (or_else (new_stats name) (lookup name (add_names m items))) ≡ no_totals
unfolding new_summary
add_names-entry name [] m h = h
add_names-entry name (item ∷ items) m h =
    add_names-entry name items _ (rw (lookup-insert (meta item).name name _ m) (ground (arith, h)))

-- After any history on a new summary the totals are the counts of the history's outcomes, and the
-- counters of each name are the counts of its own events, as `int64`s.
pub record_all_counts :
    (items : List Scenario) (es : List Event)
    → let s = record_all (new_summary items) es in
      Shows s.totals (count_events every es no_totals)
      × ((name : Text)
          → Shows (counters (entry s name)) (count_events (of_scenario name) es no_totals))
unfolding new_summary scenario lookup
record_all_counts items es = (
  record_all-Shows es (new_summary items) no_totals (refl, refl, refl, refl),
  λ name. record_all-entry name es (new_summary items) no_totals (
      subst (λ (t : Totals). Shows t no_totals) (sym (add_names-entry name items [] refl))
        (refl, refl, refl, refl)),
)

sum-add_names :
    (f : ScenarioSummary → ℕ) (items : List Scenario) (m : Map ScenarioSummary)
    → ((name : Text) → f (new_stats name) ≡ 0)
    → sum_values f m ≡ 0
    → sum_values f (add_names m items) ≡ 0
unfolding new_summary
sum-add_names f [] m z h = h
sum-add_names f (item ∷ items) m z h =
    let name = (meta item).name in
    sum-add_names f items (insert name (new_stats name) m) z
      (omega (arith, h, z name, sum_values-insert f (new_stats []) name (new_stats name) m (z [])))

new_summary-IsConsistent : (items : List Scenario) → IsConsistent (new_summary items)
unfolding new_summary
new_summary-IsConsistent items = omega (
  arith,
  sum-add_names (λ v. v.executed) items [] (λ _. refl) refl,
  sum-add_names (λ v. v.success) items [] (λ _. refl) refl,
  sum-add_names (λ v. v.expected_failure) items [] (λ _. refl) refl,
  sum-add_names (λ v. v.unexpected_failure) items [] (λ _. refl) refl,
)

record_all-IsConsistent :
    (s : Summary) (es : List Event) → IsConsistent s → IsConsistent (record_all s es)
unfolding record_all
record_all-IsConsistent s [] v = v
record_all-IsConsistent s (e ∷ es) v =
    record_all-IsConsistent (record_result e.meta e.result e.at s) es
      (record_result-IsConsistent e.meta e.result e.at s v)

-- After any history on a new summary each total is the sum of the scenarios' counters, and the
-- executed transactions are the successes and the failures, as `int64`s.
pub history-IsConsistent :
    (items : List Scenario) (es : List Event) → IsConsistent (record_all (new_summary items) es)
history-IsConsistent items es =
    record_all-IsConsistent (new_summary items) es (new_summary-IsConsistent items)
