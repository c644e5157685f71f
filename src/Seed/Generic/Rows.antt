-- ===== src/Seed/Generic/Rows.antt =====
-- The row builders of internal/seed/generic.go.
use tidb_fk_test.Base.{List, [], ◌∷◌, ◌++◌, map, codes}
use tidb_fk_test.Seed.Value.{Row, int64, str}
use tidb_fk_test.Seed.Generic.{
  GenericSeedPlan, BasicChildSlot, RebindSlot, CascadeSlot, HotChildSlot,
}

unfoldable pub generic_parent_basic_rows : GenericSeedPlan → List Row
generic_parent_basic_rows plan =
    map (λ parent_id. int64 parent_id ∷ str (codes "seed-parent-basic") ∷ []) plan.parent_ids

unfoldable pub generic_child_basic_rows : GenericSeedPlan → List Row
generic_child_basic_rows plan =
    map
      (λ (slot : BasicChildSlot).
        int64 slot.child_id ∷ int64 slot.parent_id ∷ str (codes "seed-child-basic-insert") ∷ [])
      plan.insert_existing_parent_slots
    ++ map
        (λ (slot : BasicChildSlot).
          int64 slot.child_id ∷ int64 slot.parent_id ∷ str (codes "seed-child-basic-update") ∷ [])
        plan.update_child_no_fk_change_slots

unfoldable pub generic_child_rebind_rows : GenericSeedPlan → List Row
generic_child_rebind_rows plan =
    map
      (λ (slot : RebindSlot).
        int64 slot.child_id ∷ int64 slot.base_parent_id ∷ str (codes "seed-child-rebind") ∷ [])
      plan.rebind_child_slots
    ++ map
        (λ (slot : RebindSlot).
          int64 slot.child_id
          ∷ int64 slot.base_parent_id
          ∷ str (codes "seed-child-rebind-insert")
          ∷ [])
        plan.insert_parent_then_update_child_slots

unfoldable pub generic_parent_cascade_rows : GenericSeedPlan → List Row
generic_parent_cascade_rows plan =
    map (λ (slot : CascadeSlot). int64 slot.parent_id ∷ str (codes "seed-parent-cascade") ∷ [])
      plan.delete_parent_cascade_slots

unfoldable pub generic_child_cascade_rows : GenericSeedPlan → List Row
generic_child_cascade_rows plan =
    map
      (λ (slot : CascadeSlot).
        int64 slot.child_id ∷ int64 slot.parent_id ∷ str (codes "seed-child-cascade") ∷ [])
      plan.delete_parent_cascade_slots

unfoldable pub generic_parent_hot_rows : GenericSeedPlan → List Row
generic_parent_hot_rows plan =
    map (λ parent_id. int64 parent_id ∷ str (codes "seed-parent-hot") ∷ []) plan.hot_parent_ids

unfoldable pub generic_child_hot_rows : GenericSeedPlan → List Row
generic_child_hot_rows plan =
    map
      (λ (slot : HotChildSlot).
        int64 slot.child_id ∷ int64 slot.parent_id ∷ str (codes "seed-child-hot") ∷ [])
      plan.concurrent_hot_parent_insert_slots

unfoldable pub generic_probe_summary_rows : List Row
generic_probe_summary_rows = (int64 1 ∷ int64 0 ∷ int64 0 ∷ []) ∷ []
