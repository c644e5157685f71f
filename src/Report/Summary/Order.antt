-- ===== src/Report/Summary/Order.antt =====
-- The workers' calls of `Record` may interleave in any order.
use mathlib.Core.List.{Perm, Permᴰ}
use mathlib.Core.Logic.{∥∥₁_elim}
use tidb_fk_test.Base.{
  ◌%◌, ◌^◌, ◌≡◌, refl, sym, ap, ◌∙◌, List, Text, Bool, true, false, if◌then◌else◌, arith,
}
use tidb_fk_test.Model.{
  ResultKind, success, expected_fk_failure, infra_or_upgrade_transient, unexpected_failure,
}
use tidb_fk_test.Scenario.Catalog.{Scenario}
use tidb_fk_test.Report.Summary.{Totals, no_totals, new_summary}
use tidb_fk_test.Report.Summary.History.{
  Event, bump, count_events, counters, entry, every, of_scenario, record_all, Shows,
  record_all_counts,
}

abbrev count_one : (Event → Bool) → Event → Totals → Totals
count_one p e t = if p e then bump e.result.kind t else t

bump_comm : (j k : ResultKind) (t : Totals) → bump j (bump k t) ≡ bump k (bump j t)
bump_comm success k t = ground arith
bump_comm expected_fk_failure k t = ground arith
bump_comm infra_or_upgrade_transient k t = ground arith
bump_comm unexpected_failure k t = ground arith

count_one_comm :
    (p : Event → Bool) (a b : Event) (t : Totals)
    → count_one p b (count_one p a t) ≡ count_one p a (count_one p b t)
count_one_comm p a b t = split (p a) (p b)
  where
    bump_if : Bool → ResultKind → Totals → Totals
    bump_if x k t = if x then bump k t else t

    split :
        (x y : Bool)
        → bump_if y b.result.kind (bump_if x a.result.kind t)
          ≡ bump_if x a.result.kind (bump_if y b.result.kind t)
    split true true = bump_comm b.result.kind a.result.kind t
    split true false = refl
    split false true = refl
    split false false = refl

-- A count does not depend on the order.
count_events-permᴰ :
    (p : Event → Bool) {es fs : List Event} (t : Totals)
    → Permᴰ es fs
    → count_events p es t ≡ count_events p fs t
unfolding count_events
count_events-permᴰ p t Permᴰ.nil = refl
count_events-permᴰ p t (Permᴰ.cons {a} {b} {l₁} {l₂} e d) =
    rw e (count_events-permᴰ p (count_one p b t) d)
count_events-permᴰ p t (Permᴰ.swap {a} {b} {l} e f) =
    rw (← e, ← f) (ap (count_events p l) (count_one_comm p a b t))
count_events-permᴰ p t (Permᴰ.trans d e) = count_events-permᴰ p t d ∙ count_events-permᴰ p t e

Totals-set : IsSet Totals
Totals-set = hlevel

count_events-perm :
    (p : Event → Bool) (es fs : List Event) (t : Totals)
    → Perm es fs
    → count_events p es t ≡ count_events p fs t
count_events-perm p es fs t h = ∥∥₁_elim h (Totals-set _ _) (λ d. count_events-permᴰ p t d)

-- Two counters that show the same count are the same.
Shows-unique : (a b c d : Totals) → c ≡ d → Shows a c → Shows b d → a ≡ b
Shows-unique a b c d e h k =
    let executed : a.executed ≡ b.executed =
      h.0 ∙ ap (λ (t : Totals). t.executed % 2 ^ 64) e ∙ sym k.0 in
    let success : a.success ≡ b.success =
      h.1 ∙ ap (λ (t : Totals). t.success % 2 ^ 64) e ∙ sym k.1 in
    let expected : a.expected_failure ≡ b.expected_failure =
      h.2 ∙ ap (λ (t : Totals). t.expected_failure % 2 ^ 64) e ∙ sym k.2 in
    let unexpected : a.unexpected_failure ≡ b.unexpected_failure =
      h.3 ∙ ap (λ (t : Totals). t.unexpected_failure % 2 ^ 64) e ∙ sym k.3 in
    λ i. record {
      executed = executed i;
      success = success i;
      expected_failure = expected i;
      unexpected_failure = unexpected i;
    }

-- The totals, and the counters of every name, are the same for every order in which the workers'
-- calls of `Record` take place.
pub record_all-perm :
    (items : List Scenario) (es fs : List Event)
    → Perm es fs
    → ((record_all (new_summary items) es).totals ≡ (record_all (new_summary items) fs).totals)
      × ((name : Text)
          → counters (entry (record_all (new_summary items) es) name)
            ≡ counters (entry (record_all (new_summary items) fs) name))
record_all-perm items es fs h =
    let (t, n) = record_all_counts items es in
    let (t', n') = record_all_counts items fs in
    (
      Shows-unique _ _ _ _ (count_events-perm every es fs no_totals h) t t',
      λ name.
          Shows-unique _ _ _ _ (count_events-perm (of_scenario name) es fs no_totals h) (n name)
            (n' name),
    )
