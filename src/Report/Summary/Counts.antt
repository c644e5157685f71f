-- ===== src/Report/Summary/Counts.antt =====
-- The totals agree with themselves and with the scenarios' counters, after every `Record`.
use tidb_fk_test.Base.{ℕ, ◌+◌, ◌%◌, ◌^◌, ◌≡◌, refl, [], Bool, true, false, if◌then◌else◌, arith}
use tidb_fk_test.Base.Maps.{lookup, or_else, sum_values, sum_values-insert}
use tidb_fk_test.Model.{
  ResultKind, Result, success, expected_fk_failure, infra_or_upgrade_transient, unexpected_failure,
}
use tidb_fk_test.Scenario.Types.{Metadata}
use tidb_fk_test.Report.Summary.{
  Summary, ScenarioSummary, new_stats, count_total, update_stats, record_result,
}

abbrev pub is_success : ResultKind → Bool
is_success success = true
is_success _ = false

abbrev pub is_expected : ResultKind → Bool
is_expected expected_fk_failure = true
is_expected _ = false

abbrev pub is_unexpected : ResultKind → Bool
is_unexpected success = false
is_unexpected expected_fk_failure = false
is_unexpected _ = true

-- Each total is the sum of the scenarios' counters, and the executed transactions are those of the
-- three outcomes, as `int64`s.
pub record IsConsistent (s : Summary) : Type 0 where
  pub balanced :
      s.totals.executed
      ≡ (s.totals.success + s.totals.expected_failure + s.totals.unexpected_failure) % 2 ^ 64
  pub executed : s.totals.executed ≡ sum_values (λ v. v.executed) s.scenarios % 2 ^ 64
  pub success : s.totals.success ≡ sum_values (λ v. v.success) s.scenarios % 2 ^ 64
  pub expected_failure :
      s.totals.expected_failure ≡ sum_values (λ v. v.expected_failure) s.scenarios % 2 ^ 64
  pub unexpected_failure :
      s.totals.unexpected_failure ≡ sum_values (λ v. v.unexpected_failure) s.scenarios % 2 ^ 64

module _ (m : Metadata) (result : Result) (at : ℕ) (s : Summary) where
  abbrev old : ScenarioSummary
  old = or_else (new_stats []) (lookup m.name s.scenarios)

  abbrev new : ScenarioSummary
  new = update_stats m.name result at old

  abbrev after : Summary
  after = record_result m result at s

  sum-record :
      (f : ScenarioSummary → ℕ)
      → f (new_stats []) ≡ 0
      → sum_values f after.scenarios + f old ≡ sum_values f s.scenarios + f new
  unfolding record_result
  sum-record f z = sum_values-insert f (new_stats []) m.name new s.scenarios z

  executed-update : new.executed ≡ (old.executed + 1) % 2 ^ 64
  unfolding update_stats
  executed-update = ground arith

  sums :
      let sum = λ (f : ScenarioSummary → ℕ). sum_values f after.scenarios in
      let sum' = λ (f : ScenarioSummary → ℕ). sum_values f s.scenarios in
      (sum (λ v. v.executed) + old.executed ≡ sum' (λ v. v.executed) + new.executed)
      × (sum (λ v. v.success) + old.success ≡ sum' (λ v. v.success) + new.success)
      × (sum (λ v. v.expected_failure) + old.expected_failure
          ≡ sum' (λ v. v.expected_failure) + new.expected_failure)
      × (sum (λ v. v.unexpected_failure) + old.unexpected_failure
          ≡ sum' (λ v. v.unexpected_failure) + new.unexpected_failure)
  sums = (
    sum-record (λ v. v.executed) refl,
    sum-record (λ v. v.success) refl,
    sum-record (λ v. v.expected_failure) refl,
    sum-record (λ v. v.unexpected_failure) refl,
  )

  -- One outcome is counted, in the totals and in the scenario's entry.
  abbrev Bumps : ResultKind → Type 0
  Bumps k =
      (after.totals.success
        ≡ (if is_success k then (s.totals.success + 1) % 2 ^ 64 else s.totals.success))
      × (after.totals.expected_failure ≡ (
          if is_expected k
          then (s.totals.expected_failure + 1) % 2 ^ 64
          else s.totals.expected_failure))
      × (after.totals.unexpected_failure ≡ (
          if is_unexpected k
          then (s.totals.unexpected_failure + 1) % 2 ^ 64
          else s.totals.unexpected_failure))
      × (new.success ≡ (if is_success k then (old.success + 1) % 2 ^ 64 else old.success))
      × (new.expected_failure
          ≡ (if is_expected k then (old.expected_failure + 1) % 2 ^ 64 else old.expected_failure))
      × (new.unexpected_failure ≡ (
          if is_unexpected k
          then (old.unexpected_failure + 1) % 2 ^ 64
          else old.unexpected_failure))

  bumps : Bumps result.kind
  unfolding record_result update_stats count_total
  bumps = ground arith

  executed-record : after.totals.executed ≡ (s.totals.executed + 1) % 2 ^ 64
  unfolding record_result count_total
  executed-record = ground arith

  -- `Record` keeps the summary consistent, whatever it records.
  pub record_result-IsConsistent : IsConsistent s → IsConsistent after
  record_result-IsConsistent v = split result.kind bumps
    where
      split : (k : ResultKind) → Bumps k → IsConsistent after
      split success b = omega (arith, v, b, sums, executed-update, executed-record)
      split expected_fk_failure b = omega (arith, v, b, sums, executed-update, executed-record)
      split infra_or_upgrade_transient b =
          omega (arith, v, b, sums, executed-update, executed-record)
      split unexpected_failure b = omega (arith, v, b, sums, executed-update, executed-record)
