-- ===== src/Checker.antt =====
-- internal/checker/checker.go: the checks behind a run. A count is an `int64`, by its bits.
pub mod Verdict
mod Tests
use tidb_fk_test.Base.{
  ℕ, Bool, true, false, Option, none, some, List, [], ◌∷◌, ◌++◌, Text, codes, text_eq, ◌==◌,
  if◌then◌else◌,
}
use tidb_fk_test.Base.Errors.{Error, new_error, wrap}
use tidb_fk_test.Base.Maps.{Map, lookup, or_else}
use tidb_fk_test.Db.Session.{Outcome, ok, failed, QueryRowContext}
use tidb_fk_test.Seed.Value.{Value, int64}
use tidb_fk_test.Seed.Generic.{CascadeSlot}
use tidb_fk_test.Seed.Apply.Phases.{AppliedState}
use tidb_fk_test.Report.Summary.{Totals, ScenarioSummary, Summary, no_totals, scenarios}

-- `other_check` stands for the strings that are no constant of the type.
pub data CheckKind : Type 0 where
  orphan_child_check cascade_check : CheckKind
  other_check : Text → CheckKind

pub record CheckDefinition : Type 0 where
  pub name : Text
  pub kind : CheckKind
  pub query : Text

pub record CheckOutcome : Type 0 where
  pub name : Text
  pub kind : CheckKind
  pub passed : Bool
  pub count : ℕ
  pub expected_fk_failure : ℕ
  pub unexpected_failure : ℕ

pub record RuntimeSummary : Type 0 where
  pub totals : Totals
  pub scenarios : List ScenarioSummary

pub record CheckSummary : Type 0 where
  pub runtime : RuntimeSummary
  pub outcomes : List CheckOutcome

abbrev pub generic_orphan_child : Text
generic_orphan_child = codes "generic_orphan_child"

abbrev pub cascade_result : Text
cascade_result = codes "cascade_result"

abbrev pub default_check_order : List Text
default_check_order = generic_orphan_child ∷ cascade_result ∷ []

abbrev pub orphan_query : Text
orphan_query =
    codes
      "SELECT COUNT(*) FROM child_basic c LEFT JOIN parent_basic p ON c.parent_id = p.id WHERE p.id IS NULL"

abbrev pub cascade_query : Text
cascade_query = codes "SELECT COUNT(*) FROM child_cascade WHERE parent_id = ?"

abbrev pub default_checks : Map CheckDefinition
default_checks =
    (
      generic_orphan_child,
      record { name = generic_orphan_child; kind = orphan_child_check; query = orphan_query },
    )
    ∷ (
      cascade_result,
      record { name = cascade_result; kind = cascade_check; query = cascade_query },
    )
    ∷ []

-- defaultChecks[name]; a missing key reads as the zero value.
unfoldable pub check_named : Text → CheckDefinition
unfolding lookup codes text_eq
check_named name =
    or_else (record { name = []; kind = other_check []; query = [] }) (lookup name default_checks)

abbrev first_parent : List CascadeSlot → ℕ
first_parent [] = 0
first_parent (slot ∷ slots) = slot.parent_id

abbrev args_of : CheckKind → AppliedState → List Value
args_of cascade_check applied =
    int64 (first_parent applied.generic.delete_parent_cascade_slots) ∷ []
args_of _ applied = []

unfoldable pub check_args : CheckDefinition → AppliedState → List Value
check_args def applied = args_of def.kind applied

-- `DefaultChecks`: a copy of the map.
abbrev pub cloned_checks : Map CheckDefinition
cloned_checks = default_checks

abbrev pub runtime_of : Option Summary → RuntimeSummary
runtime_of none = record { totals = no_totals; scenarios = [] }
runtime_of (some s) = record { totals = s.totals; scenarios = scenarios s }

module _ {S : Type 0} (db : QueryRowContext S) where
  -- Behind the query.
  abbrev pub counted : CheckDefinition → Outcome ℕ × S → Outcome CheckOutcome × S
  counted def (failed e, s) = (failed e, s)
  counted def (ok count, s) = (
    ok (record {
      name = def.name;
      kind = def.kind;
      passed = count == 0;
      count = count;
      expected_fk_failure = 0;
      unexpected_failure = 0;
    }),
    s,
  )

  abbrev check_of_kind : CheckKind → CheckDefinition → AppliedState → S → Outcome CheckOutcome × S
  check_of_kind (other_check kind) def applied s =
      (failed (new_error (codes "unsupported check kind \"" ++ (kind ++ codes "\""))), s)
  check_of_kind _ def applied s = counted def (db def.query (check_args def applied) s)

  unfoldable pub run_check : CheckDefinition → AppliedState → S → Outcome CheckOutcome × S
  unfolding check_args codes
  run_check def applied s = check_of_kind def.kind def applied s

  abbrev checks_behind :
      CheckOutcome → Outcome (List CheckOutcome) × S → Outcome (List CheckOutcome) × S
  checks_behind outcome (failed e, s) = (failed e, s)
  checks_behind outcome (ok outcomes, s) = (ok (outcome ∷ outcomes), s)

  -- Behind the check of a name; `rest` are the rounds that are left.
  abbrev pub checked :
      Text
      → (S → Outcome (List CheckOutcome) × S)
      → Outcome CheckOutcome × S
      → Outcome (List CheckOutcome) × S
  checked name rest (failed e, s) = (failed (wrap name e), s)
  checked name rest (ok outcome, s) = checks_behind outcome (rest s)

  -- The loop over the names; it stops at the first error.
  unfoldable pub run_named : List Text → AppliedState → S → Outcome (List CheckOutcome) × S
  unfolding check_named run_check
  run_named [] applied s = (ok [], s)
  run_named (name ∷ names) applied s =
      checked name (run_named names applied) (run_check (check_named name) applied s)

  abbrev pub summarized :
      Option Summary → Outcome (List CheckOutcome) × S → Outcome CheckSummary × S
  summarized runtime (failed e, s) = (failed e, s)
  summarized runtime (ok outcomes, s) =
      (ok (record { runtime = runtime_of runtime; outcomes = outcomes }), s)

  unfoldable pub run_checks : AppliedState → Option Summary → S → Outcome CheckSummary × S
  unfolding run_named codes
  run_checks applied runtime s = summarized runtime (run_named default_check_order applied s)
