-- ===== src/Seed/Generic/References.antt =====
-- The generic fixtures keep the foreign keys of their tables.
use tidb_fk_test.Base.{
  ℕ, zero, suc, ◌%◌, ◌<◌, ◌^◌, refl, inl, inr, List, [], ◌∷◌, ◌++◌, map, arith, length, take, In,
  All, ◌⊳◌, codes,
}
use tidb_fk_test.Base.Ints.{add64, add64-eq}
use native.Mathlib.Nat.{mod-lt}
use tidb_fk_test.Config.{Config}
use tidb_fk_test.Seed.Value.{Value, int64, str, get_or}
use tidb_fk_test.Seed.Generic.{build_parent_ids, generic_plan_of, generic_plan, parent_count}
use tidb_fk_test.Seed.Generic.Rows.{
  generic_parent_basic_rows, generic_child_basic_rows, generic_child_rebind_rows,
  generic_parent_cascade_rows, generic_child_cascade_rows, generic_parent_hot_rows,
  generic_child_hot_rows, generic_probe_summary_rows,
}
use tidb_fk_test.Seed.Apply.Fixtures.{generic_fixture_inserts}
use tidb_fk_test.Seed.Nulls.{HasNoNull, generic_fixture_inserts-HaveNoNull}
use tidb_fk_test.Seed.Integrity.{
  References, IsDistinct, IsLoadable, done, load, constraints, rows_of, keys, References-test,
  IsDistinct-test, IsDistinct-build, get_or-In, In-keys, IsDistinct-rows,
}
-- The generic fixtures keep the foreign keys of their tables.
use tidb_fk_test.Base.{
  ℕ, zero, suc, ◌%◌, ◌<◌, ◌^◌, refl, inl, inr, List, [], ◌∷◌, ◌++◌, map, arith, length, take, In,
  All, ◌⊳◌, codes,
}
use tidb_fk_test.Base.Ints.{add64, add64-eq}
use native.Mathlib.Nat.{mod-lt}
use tidb_fk_test.Config.{Config}
use tidb_fk_test.Seed.Value.{Value, int64, str, get_or}
use tidb_fk_test.Seed.Generic.{build_parent_ids, generic_plan_of, generic_plan, parent_count}
use tidb_fk_test.Seed.Generic.Rows.{
  generic_parent_basic_rows, generic_child_basic_rows, generic_child_rebind_rows,
  generic_parent_cascade_rows, generic_child_cascade_rows, generic_parent_hot_rows,
  generic_child_hot_rows, generic_probe_summary_rows,
}
use tidb_fk_test.Seed.Apply.Fixtures.{generic_fixture_inserts}
use tidb_fk_test.Seed.Nulls.{HasNoNull, generic_fixture_inserts-HaveNoNull}
use tidb_fk_test.Seed.Integrity.{
  References, IsDistinct, IsLoadable, done, load, constraints, rows_of, keys, References-test,
  IsDistinct-test, IsDistinct-build, get_or-In, In-keys, IsDistinct-rows,
}

module _ (count : ℕ) (hot : List ℕ) where
  child_basic-References :
      (parents : List ℕ)
      → let plan = generic_plan_of count parents hot in
        IsDistinct (keys (generic_child_basic_rows plan))
        × References (generic_child_basic_rows plan) 1 (generic_parent_basic_rows plan ++ [])
  unfolding generic_plan_of generic_parent_basic_rows generic_child_basic_rows
  child_basic-References [] = (tt, tt)
  child_basic-References (a ∷ ps) = (
    IsDistinct-test (keys (generic_child_basic_rows (generic_plan_of count (a ∷ ps) hot))) refl,
    inr (inl refl)
        ⊳ inr (inl refl)
        ⊳ inr (inl refl)
        ⊳ inr (inl refl)
        ⊳ inr (inl refl)
        ⊳ inr (inl refl)
        ⊳ inr (inl refl)
        ⊳ inr (inl refl)
        ⊳ tt,
  )

  child_rebind-References :
      (parents : List ℕ)
      → let plan = generic_plan_of count parents hot in
        IsDistinct (keys (generic_child_rebind_rows plan))
        × References (generic_child_rebind_rows plan) 1 (generic_parent_basic_rows plan ++ [])
  unfolding generic_plan_of generic_parent_basic_rows generic_child_rebind_rows
  child_rebind-References [] = (tt, tt)
  child_rebind-References (a ∷ []) = (
    IsDistinct-test (keys (generic_child_rebind_rows (generic_plan_of count (a ∷ []) hot))) refl,
    inr (inl refl) ⊳ inr (inl refl) ⊳ inr (inl refl) ⊳ inr (inl refl) ⊳ tt,
  )
  child_rebind-References (a ∷ b ∷ ps) = (
    IsDistinct-test (keys (generic_child_rebind_rows (generic_plan_of count (a ∷ b ∷ ps) hot)))
        refl,
    inr (inl refl)
        ⊳ inr (inl refl)
        ⊳ inr (inl refl)
        ⊳ inr (inl refl)
        ⊳ inr (inl refl)
        ⊳ inr (inl refl)
        ⊳ inr (inl refl)
        ⊳ inr (inl refl)
        ⊳ tt,
  )

  cascade-References :
      (parents : List ℕ)
      → let plan = generic_plan_of count parents hot in
        IsDistinct (keys (generic_parent_cascade_rows plan))
        × IsDistinct (keys (generic_child_cascade_rows plan))
        × References (generic_child_cascade_rows plan) 1 (generic_parent_cascade_rows plan ++ [])
  unfolding generic_plan_of generic_parent_cascade_rows generic_child_cascade_rows
  cascade-References parents =
      let plan = generic_plan_of count parents hot in
      (
        IsDistinct-test (keys (generic_parent_cascade_rows plan)) refl,
        IsDistinct-test (keys (generic_child_cascade_rows plan)) refl,
        References-test (generic_child_cascade_rows plan) 1 (generic_parent_cascade_rows plan ++ [])
            refl,
      )

-- Each hot child has one of the hot parents.
hot_parent :
    (h : ℕ) (hs : List ℕ) (i : ℕ)
    → In (int64 (get_or (h ∷ hs) (i % length (h ∷ hs)) 0)) (
        keys
          (map (λ parent_id. int64 parent_id ∷ str (codes "seed-parent-hot") ∷ []) (h ∷ hs) ++ []))
hot_parent h hs i =
    In-keys (λ parent_id. int64 parent_id ∷ str (codes "seed-parent-hot") ∷ []) _ (h ∷ hs)
      (λ k. refl) (get_or-In (h ∷ hs) (i % length (h ∷ hs)) 0 (mod-lt i (omega arith)))

child_hot-References :
    (count : ℕ) (parents hot : List ℕ)
    → let plan = generic_plan_of count parents hot in
      IsDistinct (keys (generic_child_hot_rows plan))
      × References (generic_child_hot_rows plan) 1 (generic_parent_hot_rows plan ++ [])
unfolding generic_plan_of generic_parent_hot_rows generic_child_hot_rows
child_hot-References count parents [] = (tt, tt)
child_hot-References count parents (h ∷ hs) = (
  IsDistinct-test (keys (generic_child_hot_rows (generic_plan_of count parents (h ∷ hs)))) refl,
  inr (hot_parent h hs 0)
      ⊳ inr (hot_parent h hs 1)
      ⊳ inr (hot_parent h hs 2)
      ⊳ inr (hot_parent h hs 3)
      ⊳ tt,
)

IsLoadable-generic :
    (count : ℕ) (parents hot : List ℕ)
    → IsDistinct (map int64 parents)
    → IsDistinct (map int64 hot)
    → IsLoadable [] (generic_fixture_inserts (generic_plan_of count parents hot))
unfolding generic_fixture_inserts generic_plan_of generic_parent_basic_rows generic_parent_hot_rows
    generic_probe_summary_rows constraints rows_of
IsLoadable-generic count parents hot dp dh =
    let (d1, r1) = child_basic-References count hot parents in
    let (d2, r2) = child_rebind-References count hot parents in
    let (d3, d4, r4) = cascade-References count hot parents in
    let (d6, r6) = child_hot-References count parents hot in
    load _ (IsDistinct-rows _ parents (λ k. refl) dp) tt (
      load _ d1 (r1 ⊳ tt) (
        load _ d2 (r2 ⊳ tt) (
          load _ d3 tt (
            load _ d4 (r4 ⊳ tt) (
              load _ (IsDistinct-rows _ hot (λ k. refl) dh) tt
                (load _ d6 (r6 ⊳ tt) (load _ (IsDistinct-test (int64 1 ∷ []) refl) tt done)))))))

not-In-take :
    (x : Value) (n : ℕ) (ids : List ℕ) → ¬ In x (map int64 ids) → ¬ In x (map int64 (take n ids))
not-In-take x zero ids h m = m
not-In-take x (suc n) [] h m = m
not-In-take x (suc n) (id ∷ ids) h (inl e) = h (inl e)
not-In-take x (suc n) (id ∷ ids) h (inr m) = not-In-take x n ids (λ q. h (inr q)) m

IsDistinct-take :
    (n : ℕ) (ids : List ℕ) → IsDistinct (map int64 ids) → IsDistinct (map int64 (take n ids))
IsDistinct-take zero ids h = tt
IsDistinct-take (suc n) [] h = tt
IsDistinct-take (suc n) (id ∷ ids) h = (not-In-take (int64 id) n ids h.0, IsDistinct-take n ids h.1)

parent_ids-IsDistinct :
    (count : ℕ) → count < 2 ^ 62 → IsDistinct (map int64 (build_parent_ids count))
unfolding build_parent_ids
parent_ids-IsDistinct count h =
    IsDistinct-build (λ i. add64 i 1) count 0 count (omega arith)
      (λ k l lt le e. omega (arith, e, add64-eq k 1 (omega arith), add64-eq l 1 (omega arith)))

-- The inserts of the generic fixtures load into empty tables, for every configuration of fewer than
-- 2 ^ 62 parent rows: no key comes twice in a table, no column that is declared NOT NULL is NULL, the
-- columns of the foreign keys among them, and each foreign key refers to a row of a table that was
-- filled before.
pub generic_fixtures-IsLoadable :
    (cfg : Config)
    → parent_count cfg < 2 ^ 62
    → IsLoadable [] (generic_fixture_inserts (generic_plan cfg))
      × All HasNoNull (generic_fixture_inserts (generic_plan cfg))
unfolding generic_plan
generic_fixtures-IsLoadable cfg h =
    let ids = build_parent_ids (parent_count cfg) in
    let d = parent_ids-IsDistinct (parent_count cfg) h in
    (
      IsLoadable-generic (parent_count cfg) ids _ d (IsDistinct-take _ ids d),
      generic_fixture_inserts-HaveNoNull (generic_plan cfg),
    )
