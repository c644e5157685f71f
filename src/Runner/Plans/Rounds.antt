-- ===== src/Runner/Plans/Rounds.antt =====
-- A worker goes round its scenarios.
use native.Mathlib.Nat.{mod-add-mod, mod-lt}
use tidb_fk_test.Seed.Value.{build}
use tidb_fk_test.Runner.Scheduler.{Worker}
use mathlib.Core.Path.{subst}
use tidb_fk_test.Base.{
  map, ap, ◌∙◌, ℕ, zero, suc, ◌+◌, ◌%◌, ◌<◌, ◌≡◌, refl, Option, none, some, List, [], ◌∷◌, arith,
  length, get_elem?, get_elem?-lt,
}
use tidb_fk_test.Scenario.Catalog.{Scenario}
use tidb_fk_test.Runner.Plans.{WorkerPlan, next_scenario}

-- The scenarios of `n` rounds of the loop of `workerLoop`, and the plan behind them.
unfoldable pub rounds : ℕ → WorkerPlan → Option (List Scenario × WorkerPlan)
unfolding next_scenario
rounds zero p = some ([], p)
rounds (suc n) p = elim (next_scenario p) [
  | none ↦ none
  | some (item, q) ↦ elim (rounds n q) [ none ↦ none | some (items, r) ↦ some (item ∷ items, r) ]
]

-- The scenario of round `k`, counted from the first scenario of the list.
abbrev pub round_robin : List Scenario → ℕ → Option Scenario
round_robin items k = get_elem? items (k % length items)

rounds-suc :
    (worker : Worker) (items : List Scenario) (n next : ℕ) (item : Scenario) (done : List Scenario)
    (q : WorkerPlan)
    → get_elem? items next ≡ some item
    → rounds n (record { worker = worker; scenarios = items; next = (next + 1) % length items })
      ≡ some (done, q)
    → rounds (suc n) (record { worker = worker; scenarios = items; next = next })
      ≡ some (item ∷ done, q)
unfolding rounds next_scenario
rounds-suc worker items n next item done q at r = rw (rounds, at, r) refl

rounds-from :
    (worker : Worker) (items : List Scenario) (n k next : ℕ)
    → 0 < length items
    → next ≡ k % length items
    → (done : List Scenario) × (rounds n
          (record { worker = worker; scenarios = items; next = next })
        ≡ some (done, record { worker = worker; scenarios = items; next = (k + n) % length items }))
      × (map some done ≡ build n k (round_robin items))
unfolding rounds next_scenario build
rounds-from worker items zero k next h e =
    let f : k + 0 ≡ k = omega arith in ([], rw (e, f) refl, refl)
rounds-from worker items (suc n) k next h e =
    let turn : (next + 1) % length items ≡ (k + 1) % length items =
      rw e (mod-add-mod k (length items) 1) in
    let sum : (k + 1) + n ≡ k + suc n = omega arith in
    let (item, at) = get_elem?-lt items (k % length items) (mod-lt k h) in
    let (done, r, l) = rounds-from worker items n (k + 1) ((next + 1) % length items) h turn in
    let here : get_elem? items next ≡ some item = cc (e, at) in
    let end : record { worker = worker; scenarios = items; next = ((k + 1) + n) % length items }
        ≡ record { worker = worker; scenarios = items; next = (k + suc n) % length items } =
      ap (λ m. record { worker = worker; scenarios = items; next = m % length items }) sum in
    (
      item ∷ done,
      rounds-suc worker items n next item done _ here
          (r ∙ ap (λ (q : WorkerPlan). some (done, q)) end),
      subst (λ o. o ∷ map some done ≡ round_robin items k ∷ build n (k + 1) (round_robin items)) at
          (ap (◌∷◌ (round_robin items k)) l),
    )

-- A worker that starts at an offset of its list of scenarios, which has one at least, takes them in
-- turn: in `n` rounds it never reads out of range, round `i` runs the scenario that `offset + i`
-- gives modulo their number, and the next round is that of `offset + n`.
pub rounds_lem :
    (worker : Worker) (items : List Scenario) (offset n : ℕ)
    → 0 < length items
    → (done : List Scenario) × (rounds n
          (record { worker = worker; scenarios = items; next = offset % length items })
        ≡ some (
          done,
          record { worker = worker; scenarios = items; next = (offset + n) % length items },
        ))
      × (map some done ≡ build n offset (round_robin items))
rounds_lem worker items offset n h = rounds-from worker items n offset _ h refl
