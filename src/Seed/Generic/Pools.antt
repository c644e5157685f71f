-- ===== src/Seed/Generic/Pools.antt =====
-- The rows that the generic scenarios write, against each other and against the seeded parents.
use mathlib.Core.Path.{subst, sym}
use tidb_fk_test.Base.{
  ℕ, ◌<◌, ◌≤◌, ◌^◌, inl, inr, Bool, true, false, List, [], ◌∷◌, ◌++◌, map, In, All, arith, ◌⊳◌,
  if◌then◌else◌,
}
use tidb_fk_test.Base.Ints.{add64}
use tidb_fk_test.Config.{Config}
use tidb_fk_test.Seed.Value.{build, All-build, get_or}
use tidb_fk_test.Seed.Integrity.{IsDistinct}
use tidb_fk_test.Seed.Generic.{
  CascadeSlot, HotChildSlot, build_cascade_slots, build_hot_child_slots, BasicChildSlot,
  ParentChildSlot, RebindSlot, GenericSeedPlan, build_basic_child_slots, build_parent_child_slots,
  build_existing_rebind_slots, build_insert_then_rebind_slots, build_rebind_slots, parent_count,
  at_least, build_parent_ids, generic_plan_of, generic_plan,
}

-- The ids that the transactions of the scenarios insert, by table.
abbrev pub basic_child_ids : GenericSeedPlan → List ℕ
basic_child_ids plan =
    map (λ (s : BasicChildSlot). s.child_id) plan.insert_existing_parent_slots
    ++ (map (λ (s : BasicChildSlot). s.child_id) plan.update_child_no_fk_change_slots
        ++ map (λ (s : ParentChildSlot). s.child_id) plan.insert_parent_then_child_slots)

abbrev pub rebind_child_ids : GenericSeedPlan → List ℕ
rebind_child_ids plan =
    map (λ (s : RebindSlot). s.child_id) plan.insert_parent_then_update_child_slots
    ++ map (λ (s : RebindSlot). s.child_id) plan.rebind_child_slots

abbrev pub new_parent_ids : GenericSeedPlan → List ℕ
new_parent_ids plan =
    map (λ (s : ParentChildSlot). s.parent_id) plan.insert_parent_then_child_slots
    ++ map (λ (s : RebindSlot). s.target_parent_id) plan.insert_parent_then_update_child_slots

-- The rows of `parent_cascade` that the scenarios delete, with the children that go with them, and the
-- rows of `child_hot` that they insert.
abbrev pub cascade_parent_ids : GenericSeedPlan → List ℕ
cascade_parent_ids plan = map (λ (s : CascadeSlot). s.parent_id) plan.delete_parent_cascade_slots

abbrev pub cascade_child_ids : GenericSeedPlan → List ℕ
cascade_child_ids plan = map (λ (s : CascadeSlot). s.child_id) plan.delete_parent_cascade_slots

abbrev pub hot_child_ids : GenericSeedPlan → List ℕ
hot_child_ids plan = map (λ (s : HotChildSlot). s.child_id) plan.concurrent_hot_parent_insert_slots

-- Each entry is greater than the one before it, the first than `low`.
abbrev pub Rising : ℕ → List ℕ → Type 0
Rising low [] = Unit
Rising low (x ∷ xs) = (low < x) × Rising x xs

Rising-above : (low : ℕ) (xs : List ℕ) (y : ℕ) → Rising low xs → In y xs → low < y
Rising-above low [] y h m = elim m [ ]
Rising-above low (x ∷ xs) y h (inl e) = let f = h.0 in omega arith
Rising-above low (x ∷ xs) y h (inr m) =
    let f = h.0 in let g = Rising-above x xs y h.1 m in omega arith

Rising-IsDistinct : (low : ℕ) (xs : List ℕ) → Rising low xs → IsDistinct xs
Rising-IsDistinct low [] h = tt
Rising-IsDistinct low (x ∷ xs) h =
    ((λ m. let f = Rising-above x xs x h.1 m in absurd (omega arith)), Rising-IsDistinct x xs h.1)

All-In : (P : ℕ → Type 0) (xs : List ℕ) (x : ℕ) → All P xs → In x xs → P x
All-In P [] x h m = elim m [ ]
All-In P (y ∷ xs) x h (inl e) = subst P (sym e) h.0
All-In P (y ∷ xs) x h (inr m) = All-In P xs x h.1 m

-- A seeded id is one of 1 to the count.
seeded-bound : (count x : ℕ) → count < 2 ^ 62 → In x (build_parent_ids count) → x ≤ count
unfolding build_parent_ids add64
seeded-bound count x h m =
    All-In (λ y. y ≤ count) (build_parent_ids count) x
      (All-build (λ y. y ≤ count) count 0 count (λ i. add64 i 1) (omega arith) λ k l. omega arith) m

-- No two slots of the scenarios write the same row, and none a seeded row of `parent_basic`.
abbrev pub AreApart : GenericSeedPlan → Type 0
AreApart plan =
    IsDistinct (basic_child_ids plan)
    × IsDistinct (rebind_child_ids plan)
    × IsDistinct (new_parent_ids plan)
    × IsDistinct (cascade_parent_ids plan)
    × IsDistinct (cascade_child_ids plan)
    × IsDistinct (hot_child_ids plan)
    × ((id : ℕ) → In id (new_parent_ids plan) → ¬ In id plan.parent_ids)

-- The pools as the plan has them, where its tests for a first and a second seeded parent are `one` and
-- `two`.
module _ (count : ℕ) (small : count < 2 ^ 62) (existing rebind : ℕ) where
  Rising-parents :
      (one : Bool)
      → Rising count (
          map
            (λ (s : ParentChildSlot). s.parent_id)
            (if one then build_parent_child_slots (add64 count 1) 20001 else [])
          ++ map
              (λ (s : RebindSlot). s.target_parent_id)
              (if one then build_rebind_slots 12001 existing (add64 count 101) else []))
  unfolding build_parent_child_slots build_rebind_slots build_insert_then_rebind_slots build add64
  Rising-parents false = tt
  Rising-parents true =
      omega arith
      ⊳ omega arith
      ⊳ omega arith
      ⊳ omega arith
      ⊳ omega arith
      ⊳ omega arith
      ⊳ omega arith
      ⊳ omega arith
      ⊳ tt

  Rising-basic :
      (one : Bool)
      → Rising 0 (
          map
            (λ (s : BasicChildSlot). s.child_id)
            (if one then build_basic_child_slots 10001 existing else [])
          ++ (map
                (λ (s : BasicChildSlot). s.child_id)
                (if one then build_basic_child_slots 11001 existing else [])
              ++ map
                  (λ (s : ParentChildSlot). s.child_id)
                  (if one then build_parent_child_slots (add64 count 1) 20001 else [])))
  unfolding build_basic_child_slots build_parent_child_slots build add64
  Rising-basic false = tt
  Rising-basic true =
      omega arith
      ⊳ omega arith
      ⊳ omega arith
      ⊳ omega arith
      ⊳ omega arith
      ⊳ omega arith
      ⊳ omega arith
      ⊳ omega arith
      ⊳ omega arith
      ⊳ omega arith
      ⊳ omega arith
      ⊳ omega arith
      ⊳ tt

  Rising-rebind :
      (one two : Bool)
      → Rising 0 (
          map
            (λ (s : RebindSlot). s.child_id)
            (if one then build_rebind_slots 12001 existing (add64 count 101) else [])
          ++ map
              (λ (s : RebindSlot). s.child_id)
              (if two then build_existing_rebind_slots 13001 existing rebind else []))
  unfolding build_rebind_slots build_insert_then_rebind_slots build_existing_rebind_slots build
      add64
  Rising-rebind false false = tt
  Rising-rebind false true = omega arith ⊳ omega arith ⊳ omega arith ⊳ omega arith ⊳ tt
  Rising-rebind true false = omega arith ⊳ omega arith ⊳ omega arith ⊳ omega arith ⊳ tt
  Rising-rebind true true =
      omega arith
      ⊳ omega arith
      ⊳ omega arith
      ⊳ omega arith
      ⊳ omega arith
      ⊳ omega arith
      ⊳ omega arith
      ⊳ omega arith
      ⊳ tt

Rising-cascade :
    Rising 0 (map (λ (s : CascadeSlot). s.parent_id) (build_cascade_slots 14001 15001))
    × Rising 0 (map (λ (s : CascadeSlot). s.child_id) (build_cascade_slots 14001 15001))
unfolding build_cascade_slots build add64
Rising-cascade = (
  omega arith ⊳ omega arith ⊳ omega arith ⊳ omega arith ⊳ tt,
  omega arith ⊳ omega arith ⊳ omega arith ⊳ omega arith ⊳ tt,
)

Rising-hot :
    (any : Bool) (hot : List ℕ)
    → Rising 0 (
        map
          (λ (s : HotChildSlot). s.child_id)
          (if any then build_hot_child_slots 16001 hot else []))
unfolding build_hot_child_slots build add64
Rising-hot false hot = tt
Rising-hot true hot = omega arith ⊳ omega arith ⊳ omega arith ⊳ omega arith ⊳ tt

-- In the generic plan of every configuration of fewer than 2 ^ 62 parent rows, no two slots of the
-- scenarios write the same row of child_basic, child_rebind, parent_basic or child_hot, whether they
-- are of one pool or of two; no two delete the same row of parent_cascade, or one with the same
-- child; and no slot writes a row of parent_basic that `prepare` has seeded.
pub generic_plan-AreApart : (c : Config) → parent_count c < 2 ^ 62 → AreApart (generic_plan c)
unfolding generic_plan generic_plan_of
generic_plan-AreApart c h =
    let count = parent_count c in
    let parents = build_parent_ids count in
    let hot = (generic_plan c).hot_parent_ids in
    let one = at_least 1 parents in
    let two = at_least 2 parents in
    let existing = if one then get_or parents 0 0 else 0 in
    let rebind = if two then get_or parents 1 0 else 0 in
    let rising = Rising-parents count h existing rebind one in
    (
      Rising-IsDistinct 0 _ (Rising-basic count h existing rebind one),
      Rising-IsDistinct 0 _ (Rising-rebind count h existing rebind one two),
      Rising-IsDistinct count _ rising,
      Rising-IsDistinct 0 (cascade_parent_ids (generic_plan c)) Rising-cascade.0,
      Rising-IsDistinct 0 (cascade_child_ids (generic_plan c)) Rising-cascade.1,
      Rising-IsDistinct 0 (hot_child_ids (generic_plan c)) (Rising-hot (at_least 1 hot) hot),
      λ id m n.
          let above = Rising-above count _ id rising m in
          let below = seeded-bound count id h n in absurd (omega arith),
    )
