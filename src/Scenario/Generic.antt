-- ===== src/Scenario/Generic.antt =====
-- The scenarios of internal/scenario/generic.go.
use tidb_fk_test.Base.{List, [], ◌∷◌, codes}
use tidb_fk_test.Seed.Generic.{
  BasicChildSlot, ParentChildSlot, RebindSlot, CascadeSlot, HotChildSlot,
}
use tidb_fk_test.Seed.Value.{int64, str}
use tidb_fk_test.Scenario.Steps.{
  ExecStep, GenericExecScenario, new_generic_exec_scenario, select_pool_slot, then_build,
}

unfoldable pub generic_insert_existing_parent_steps : BasicChildSlot → List ExecStep
generic_insert_existing_parent_steps slot =
    record { query = codes "DELETE FROM child_basic WHERE id = ?"; args = int64 slot.child_id ∷ [] }
    ∷ record {
      query = codes "INSERT INTO child_basic (id, parent_id, payload) VALUES (?, ?, ?)";
      args = int64 slot.child_id ∷ int64 slot.parent_id ∷ str (codes "child-insert") ∷ [];
    }
    ∷ []

unfoldable pub new_generic_insert_existing_parent : GenericExecScenario
unfolding generic_insert_existing_parent_steps
new_generic_insert_existing_parent =
    new_generic_exec_scenario (codes "generic_insert_existing_parent") 1 λ plan run.
      then_build
        (select_pool_slot (codes "generic_insert_existing_parent") plan.insert_existing_parent_slots
          run (codes "at least 1 seeded parent row"))
        generic_insert_existing_parent_steps

unfoldable pub generic_insert_parent_then_child_steps : ParentChildSlot → List ExecStep
generic_insert_parent_then_child_steps slot =
    record { query = codes "DELETE FROM child_basic WHERE id = ?"; args = int64 slot.child_id ∷ [] }
    ∷ record {
      query = codes "DELETE FROM parent_basic WHERE id = ?";
      args = int64 slot.parent_id ∷ [];
    }
    ∷ record {
      query = codes "INSERT INTO parent_basic (id, note) VALUES (?, ?)";
      args = int64 slot.parent_id ∷ str (codes "parent-insert") ∷ [];
    }
    ∷ record {
      query = codes "INSERT INTO child_basic (id, parent_id, payload) VALUES (?, ?, ?)";
      args = int64 slot.child_id ∷ int64 slot.parent_id ∷ str (codes "child-insert") ∷ [];
    }
    ∷ []

unfoldable pub new_generic_insert_parent_then_child : GenericExecScenario
unfolding generic_insert_parent_then_child_steps
new_generic_insert_parent_then_child =
    new_generic_exec_scenario (codes "generic_insert_parent_then_child") 1 λ plan run.
      then_build
        (select_pool_slot (codes "generic_insert_parent_then_child")
          plan.insert_parent_then_child_slots run (codes "parent-child fixture slots"))
        generic_insert_parent_then_child_steps

unfoldable pub generic_update_child_no_fk_change_steps : BasicChildSlot → List ExecStep
generic_update_child_no_fk_change_steps slot =
    record { query = codes "DELETE FROM child_basic WHERE id = ?"; args = int64 slot.child_id ∷ [] }
    ∷ record {
      query = codes "INSERT INTO child_basic (id, parent_id, payload) VALUES (?, ?, ?)";
      args = int64 slot.child_id ∷ int64 slot.parent_id ∷ str (codes "child-baseline") ∷ [];
    }
    ∷ record {
      query = codes "UPDATE child_basic SET payload = ? WHERE id = ?";
      args = str (codes "child-updated") ∷ int64 slot.child_id ∷ [];
    }
    ∷ []

unfoldable pub new_generic_update_child_no_fk_change : GenericExecScenario
unfolding generic_update_child_no_fk_change_steps
new_generic_update_child_no_fk_change =
    new_generic_exec_scenario (codes "generic_update_child_no_fk_change") 1 λ plan run.
      then_build
        (select_pool_slot (codes "generic_update_child_no_fk_change")
          plan.update_child_no_fk_change_slots run (codes "at least 1 seeded parent row"))
        generic_update_child_no_fk_change_steps

unfoldable pub generic_rebind_child_fk_steps : RebindSlot → List ExecStep
generic_rebind_child_fk_steps slot =
    record {
      query = codes "DELETE FROM child_rebind WHERE id = ?";
      args = int64 slot.child_id ∷ [];
    }
    ∷ record {
      query = codes "INSERT INTO child_rebind (id, parent_id, payload) VALUES (?, ?, ?)";
      args = int64 slot.child_id ∷ int64 slot.base_parent_id ∷ str (codes "child-baseline") ∷ [];
    }
    ∷ record {
      query = codes "UPDATE child_rebind SET parent_id = ? WHERE id = ?";
      args = int64 slot.target_parent_id ∷ int64 slot.child_id ∷ [];
    }
    ∷ []

unfoldable pub new_generic_rebind_child_fk : GenericExecScenario
unfolding generic_rebind_child_fk_steps
new_generic_rebind_child_fk =
    new_generic_exec_scenario (codes "generic_rebind_child_fk") 1 λ plan run.
      then_build
        (select_pool_slot (codes "generic_rebind_child_fk") plan.rebind_child_slots run
          (codes "at least 2 seeded parent rows"))
        generic_rebind_child_fk_steps

unfoldable pub generic_insert_parent_then_update_child_fk_steps : RebindSlot → List ExecStep
generic_insert_parent_then_update_child_fk_steps slot =
    record {
      query = codes "DELETE FROM child_rebind WHERE id = ?";
      args = int64 slot.child_id ∷ [];
    }
    ∷ record {
      query = codes "INSERT INTO child_rebind (id, parent_id, payload) VALUES (?, ?, ?)";
      args = int64 slot.child_id ∷ int64 slot.base_parent_id ∷ str (codes "child-baseline") ∷ [];
    }
    ∷ record {
      query = codes "DELETE FROM parent_basic WHERE id = ?";
      args = int64 slot.target_parent_id ∷ [];
    }
    ∷ record {
      query = codes "INSERT INTO parent_basic (id, note) VALUES (?, ?)";
      args = int64 slot.target_parent_id ∷ str (codes "parent-insert") ∷ [];
    }
    ∷ record {
      query = codes "UPDATE child_rebind SET parent_id = ? WHERE id = ?";
      args = int64 slot.target_parent_id ∷ int64 slot.child_id ∷ [];
    }
    ∷ []

unfoldable pub new_generic_insert_parent_then_update_child_fk : GenericExecScenario
unfolding generic_insert_parent_then_update_child_fk_steps
new_generic_insert_parent_then_update_child_fk =
    new_generic_exec_scenario (codes "generic_insert_parent_then_update_child_fk") 1 λ plan run.
      then_build
        (select_pool_slot (codes "generic_insert_parent_then_update_child_fk")
          plan.insert_parent_then_update_child_slots run (codes "at least 1 seeded parent row"))
        generic_insert_parent_then_update_child_fk_steps

unfoldable pub generic_delete_parent_cascade_steps : CascadeSlot → List ExecStep
generic_delete_parent_cascade_steps slot =
    record {
      query = codes "DELETE FROM child_cascade WHERE id = ?";
      args = int64 slot.child_id ∷ [];
    }
    ∷ record {
      query = codes "DELETE FROM parent_cascade WHERE id = ?";
      args = int64 slot.parent_id ∷ [];
    }
    ∷ record {
      query = codes "INSERT INTO parent_cascade (id, note) VALUES (?, ?)";
      args = int64 slot.parent_id ∷ str (codes "cascade-parent") ∷ [];
    }
    ∷ record {
      query = codes "INSERT INTO child_cascade (id, parent_id, payload) VALUES (?, ?, ?)";
      args = int64 slot.child_id ∷ int64 slot.parent_id ∷ str (codes "cascade-child") ∷ [];
    }
    ∷ record {
      query = codes "DELETE FROM parent_cascade WHERE id = ?";
      args = int64 slot.parent_id ∷ [];
    }
    ∷ []

unfoldable pub new_generic_delete_parent_cascade : GenericExecScenario
unfolding generic_delete_parent_cascade_steps
new_generic_delete_parent_cascade =
    new_generic_exec_scenario (codes "generic_delete_parent_cascade") 1 λ plan run.
      then_build
        (select_pool_slot (codes "generic_delete_parent_cascade") plan.delete_parent_cascade_slots
          run (codes "cascade fixture slots"))
        generic_delete_parent_cascade_steps

unfoldable pub generic_concurrent_hot_parent_insert_steps : HotChildSlot → List ExecStep
generic_concurrent_hot_parent_insert_steps slot =
    record { query = codes "DELETE FROM child_hot WHERE id = ?"; args = int64 slot.child_id ∷ [] }
    ∷ record {
      query = codes "INSERT INTO child_hot (id, parent_id, payload) VALUES (?, ?, ?)";
      args = int64 slot.child_id ∷ int64 slot.parent_id ∷ str (codes "hot-child") ∷ [];
    }
    ∷ []

unfoldable pub new_generic_concurrent_hot_parent_insert : GenericExecScenario
unfolding generic_concurrent_hot_parent_insert_steps
new_generic_concurrent_hot_parent_insert =
    new_generic_exec_scenario (codes "generic_concurrent_hot_parent_insert") 2 λ plan run.
      then_build
        (select_pool_slot (codes "generic_concurrent_hot_parent_insert")
          plan.concurrent_hot_parent_insert_slots run (codes "at least 1 hot parent key"))
        generic_concurrent_hot_parent_insert_steps
