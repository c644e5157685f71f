-- ===== src/Scenario/Steps/Slots.antt =====
-- Which calls a run of a scenario makes.
use tidb_fk_test.Base.{
  ℕ, zero, suc, ◌+◌, ◌%◌, ◌^◌, ◌<◌, ◌≡◌, refl, ap, false, some, List, [], ◌∷◌, Text, arith, length,
  get_elem?, Bool, true, Option, ◌++◌, codes, ◌⊎◌, inl, inr, get_elem?-lt, Bool-cases,
}
use tidb_fk_test.Db.Session.{TxSession, ok}
use tidb_fk_test.Seed.Value.{get_or}
use tidb_fk_test.Seed.Generic.{GenericSeedPlan}
use tidb_fk_test.Seed.Billing.{BillingSeedPlan}
use tidb_fk_test.Scenario.Types.{SeedState}
use tidb_fk_test.Base.Errors.{Error, new_error}
use tidb_fk_test.Base.Runs.{Runs}
use tidb_fk_test.Scenario.Steps.Calls.{Sends, Makes, exec_steps-Runs, billing_steps-Runs}
use tidb_fk_test.Scenario.Steps.{
  ExecStep, BillingStep, RunResult, clone_exec_steps, clone_billing_steps,
  missing_generic_seed_plan, missing_billing_seed_plan, select_pool_slot, then_build, next_counter,
  run_number, generic_run, billing_run, new_generic_exec_scenario, new_billing_exec_scenario,
}

clone_exec_steps-eq : (steps : List ExecStep) → clone_exec_steps steps ≡ steps
unfolding clone_exec_steps
clone_exec_steps-eq [] = refl
clone_exec_steps-eq (step ∷ steps) = ap (◌∷◌ step) (clone_exec_steps-eq steps)

clone_billing_steps-eq : (steps : List BillingStep) → clone_billing_steps steps ≡ steps
unfolding clone_billing_steps
clone_billing_steps-eq [] = refl
clone_billing_steps-eq (step ∷ steps) = ap (◌∷◌ step) (clone_billing_steps-eq steps)

run_number-eq : (counter : ℕ) → counter < 2 ^ 64 → run_number counter ≡ counter
unfolding run_number next_counter
run_number-eq counter h = omega arith

get_or-get_elem? :
    {T : Type 0} (xs : List T) (i : ℕ) (d x : T) → get_elem? xs i ≡ some x → get_or xs i d ≡ x
get_or-get_elem? [] i d x e = absurd (cc)
get_or-get_elem? (y ∷ xs) zero d x e = cc
get_or-get_elem? (y ∷ xs) (suc i) d x e = get_or-get_elem? xs i d x e

select_pool_slot-eq :
    {T : Type 0} (name : Text) (slots : List T) (run : ℕ) (requirement : Text) (slot : T)
    → get_elem? slots (run % length slots) ≡ some slot
    → select_pool_slot name slots run requirement ≡ ok slot
unfolding select_pool_slot
select_pool_slot-eq name [] run requirement slot e = absurd (cc)
select_pool_slot-eq name (t ∷ slots) run requirement slot e =
    ap ok (get_or-get_elem? (t ∷ slots) (run % length (t ∷ slots)) t slot e)

-- What a run of a scenario that takes its slots from a pool does: with no seed plan or with an empty
-- pool it sends nothing and returns an error, and the counter moves only in the second case;
-- otherwise it makes the calls of the slot that the run number selects.
abbrev pub SlotRun :
    {S T A : Type 0} (Call : A → S → Option Error → S → Type 0) (name required requirement : Text)
    (gone : Bool) (pool : List T) (steps : T → List A) (counter : ℕ) (s : S)
    → RunResult S
    → Type 0
SlotRun Call name required requirement gone pool steps counter s r =
    ((gone ≡ true)
      × (r ≡ record { err = some (new_error (name ++ required)); counter = counter; world = s }))
    ⊎ ((gone ≡ false)
        × (pool ≡ [])
        × (r ≡ record {
          err = some (new_error (name ++ (codes " requires " ++ requirement)));
          counter = (counter + 1) % 2 ^ 64;
          world = s;
        }))
    ⊎ ((slot : _) × (gone ≡ false)
        × (get_elem? pool (counter % length pool) ≡ some slot)
        × (r.counter ≡ (counter + 1) % 2 ^ 64)
        × Runs Call (steps slot) s r.err r.world)

selected :
    {T : Type 0} (pool : List T) (run : ℕ)
    → (pool ≡ []) ⊎ ((slot : T) × (get_elem? pool (run % length pool) ≡ some slot))
selected [] run = inl refl
selected (x ∷ xs) run = inr (get_elem?-lt (x ∷ xs) (run % length (x ∷ xs)) (omega arith))

-- A generic scenario that takes its slot from a pool: without a seed plan, or with an empty pool, it
-- sends nothing and returns an error that says so. Otherwise run number `counter` takes the slots in
-- turn and sends the statements of its slot in order, until all are sent, or up to the first that
-- fails, whose error it returns. The counter goes up by one, modulo 2^64, unless the plan is missing.
pub generic_run_slot :
    {S T : Type 0} (sess : TxSession S) (name : Text) (hint : ℕ) (requirement : Text)
    (pool : GenericSeedPlan → List T) (steps : T → List ExecStep) (seed : SeedState) (counter : ℕ)
    (s : S)
    → counter < 2 ^ 64
    → SlotRun
        (Sends sess)
        name
        (codes ": generic seed plan required")
        requirement
        (missing_generic_seed_plan seed.generic)
        (pool seed.generic)
        steps
        counter
        s
        (generic_run sess
          (new_generic_exec_scenario name hint
            λ plan run. then_build (select_pool_slot name (pool plan) run requirement) steps)
          seed
          counter
          s)
unfolding generic_run next_counter select_pool_slot
generic_run_slot sess name hint requirement pool steps seed counter s h =
    elim (Bool-cases (missing_generic_seed_plan seed.generic)) [
      | inl gone ↦ rw (gone) (inl (refl, refl))
      | inr there ↦ elim (selected (pool seed.generic) counter) [
        | inl e ↦ rw (there, run_number-eq counter h, e) (inr (inl (refl, refl, refl)))
        | inr (slot, at) ↦
            rw
              (
                there,
                run_number-eq counter h,
                select_pool_slot-eq name (pool seed.generic) counter requirement slot at,
                clone_exec_steps-eq (steps slot),
              )
              (inr (inr (slot, refl, at, refl, exec_steps-Runs sess (steps slot) s)))
      ]
    ]

-- A billing scenario that takes its slot from a pool: without a seed plan, or with an empty pool, it
-- sends nothing and returns an error that says so. Otherwise run number `counter` takes the slots in
-- turn and makes the calls of its slot in order, the locking reads among them,
-- until all are made, or up to the first that
-- fails, whose error it returns. The counter goes up by one, modulo 2^64, unless the plan is missing.
pub billing_run_slot :
    {S T : Type 0} (sess : TxSession S) (name : Text) (hint : ℕ) (requirement : Text)
    (pool : BillingSeedPlan → List T) (steps : T → List BillingStep) (seed : SeedState)
    (counter : ℕ) (s : S)
    → counter < 2 ^ 64
    → SlotRun
        (Makes sess)
        name
        (codes ": billing seed plan required")
        requirement
        (missing_billing_seed_plan seed.billing)
        (pool seed.billing)
        steps
        counter
        s
        (billing_run sess
          (new_billing_exec_scenario name hint
            λ plan run. then_build (select_pool_slot name (pool plan) run requirement) steps)
          seed
          counter
          s)
unfolding billing_run next_counter select_pool_slot
billing_run_slot sess name hint requirement pool steps seed counter s h =
    elim (Bool-cases (missing_billing_seed_plan seed.billing)) [
      | inl gone ↦ rw (gone) (inl (refl, refl))
      | inr there ↦ elim (selected (pool seed.billing) counter) [
        | inl e ↦ rw (there, run_number-eq counter h, e) (inr (inl (refl, refl, refl)))
        | inr (slot, at) ↦
            rw
              (
                there,
                run_number-eq counter h,
                select_pool_slot-eq name (pool seed.billing) counter requirement slot at,
                clone_billing_steps-eq (steps slot),
              )
              (inr (inr (slot, refl, at, refl, billing_steps-Runs sess (steps slot) s)))
      ]
    ]
