-- ===== src/Seed/Generic.antt =====
-- internal/seed/generic.go: the plan of the generic fixtures. Ids are `int64`s.
pub mod Rows
pub mod References
pub mod Pools
use tidb_fk_test.Base.{
  zero, suc, Bool, true, false, ℕ, ◌%◌, ◌≡◌, ℤ, pos, List, [], ◌∷◌, ltb, leb, take, length,
  if◌then◌else◌,
}
use tidb_fk_test.Base.Ints.{pos_part, ltb_ℤ, add64}
use tidb_fk_test.Config.{Config}
use tidb_fk_test.Seed.Value.{build, get_or}

abbrev pub generic_fixture_pool_size : ℕ
generic_fixture_pool_size = 4

pub record BasicChildSlot : Type 0 where
  pub child_id : ℕ
  pub parent_id : ℕ

pub record ParentChildSlot : Type 0 where
  pub parent_id : ℕ
  pub child_id : ℕ

pub record RebindSlot : Type 0 where
  pub child_id : ℕ
  pub base_parent_id : ℕ
  pub target_parent_id : ℕ

pub record CascadeSlot : Type 0 where
  pub parent_id : ℕ
  pub child_id : ℕ

pub record HotChildSlot : Type 0 where
  pub parent_id : ℕ
  pub child_id : ℕ

pub record GenericSeedPlan : Type 0 where
  pub parent_ids : List ℕ
  pub hot_parent_ids : List ℕ
  pub existing_parent_id : ℕ
  pub rebind_parent_id : ℕ
  pub insert_existing_parent_slots : List BasicChildSlot
  pub update_child_no_fk_change_slots : List BasicChildSlot
  pub rebind_child_slots : List RebindSlot
  pub insert_parent_then_child_slots : List ParentChildSlot
  pub insert_parent_then_update_child_slots : List RebindSlot
  pub delete_parent_cascade_slots : List CascadeSlot
  pub concurrent_hot_parent_insert_slots : List HotChildSlot

unfoldable pub build_basic_child_slots : ℕ → ℕ → List BasicChildSlot
unfolding build add64
build_basic_child_slots first_child_id parent_id =
    build generic_fixture_pool_size 0
      λ i. record { child_id = add64 first_child_id i; parent_id = parent_id }

unfoldable pub build_parent_child_slots : ℕ → ℕ → List ParentChildSlot
unfolding build add64
build_parent_child_slots first_parent_id first_child_id =
    build generic_fixture_pool_size 0
      λ i. record { parent_id = add64 first_parent_id i; child_id = add64 first_child_id i }

unfoldable pub build_existing_rebind_slots : ℕ → ℕ → ℕ → List RebindSlot
unfolding build add64
build_existing_rebind_slots first_child_id base_parent_id target_parent_id =
    build generic_fixture_pool_size 0 λ i. record {
      child_id = add64 first_child_id i;
      base_parent_id = base_parent_id;
      target_parent_id = target_parent_id;
    }

unfoldable pub build_insert_then_rebind_slots : ℕ → ℕ → ℕ → List RebindSlot
unfolding build add64
build_insert_then_rebind_slots first_child_id base_parent_id first_target_parent_id =
    build generic_fixture_pool_size 0 λ i. record {
      child_id = add64 first_child_id i;
      base_parent_id = base_parent_id;
      target_parent_id = add64 first_target_parent_id i;
    }

unfoldable pub build_rebind_slots : ℕ → ℕ → ℕ → List RebindSlot
unfolding build_insert_then_rebind_slots
build_rebind_slots first_child_id base_parent_id first_target_parent_id =
    build_insert_then_rebind_slots first_child_id base_parent_id first_target_parent_id

unfoldable pub build_cascade_slots : ℕ → ℕ → List CascadeSlot
unfolding build add64
build_cascade_slots first_parent_id first_child_id =
    build generic_fixture_pool_size 0
      λ i. record { parent_id = add64 first_parent_id i; child_id = add64 first_child_id i }

-- hot_parent_ids has an entry.
unfoldable pub build_hot_child_slots : ℕ → List ℕ → List HotChildSlot
unfolding build add64
build_hot_child_slots first_child_id hot_parent_ids = build generic_fixture_pool_size 0 λ i.
    record {
      parent_id = get_or hot_parent_ids (i % length hot_parent_ids) 0;
      child_id = add64 first_child_id i;
    }

abbrev pub max_int : ℤ → ℤ → ℤ
max_int a b = if ltb_ℤ b a then a else b

-- The `int` after `max` is not negative, so it is a length.
abbrev pub parent_count : Config → ℕ
parent_count cfg = pos_part (max_int cfg.seed_parent_rows_per_table (pos 0))

abbrev pub clamp_hot : ℤ → ℕ → ℕ
clamp_hot hot_count parents =
    let floored = if ltb_ℤ hot_count (pos 0) then pos 0 else hot_count in
    if ltb_ℤ (pos parents) floored then parents else pos_part floored

unfoldable pub build_parent_ids : ℕ → List ℕ
unfolding build add64
build_parent_ids count = build count 0 λ i. add64 i 1

-- len(ids) >= n
abbrev pub at_least {ℓ} : {A : Type ℓ} → ℕ → List A → Bool
at_least zero ids = true
at_least (suc n) [] = false
at_least (suc n) (id ∷ ids) = at_least n ids

-- The body of `GenericPlan` behind the two lists of ids; a field that no `if` assigns is zero or nil.
unfoldable pub generic_plan_of : ℕ → List ℕ → List ℕ → GenericSeedPlan
unfolding build_basic_child_slots build_parent_child_slots build_rebind_slots
    build_existing_rebind_slots build_cascade_slots build_hot_child_slots add64
generic_plan_of count parent_ids hot_parent_ids =
    let one = at_least 1 parent_ids in
    let two = at_least 2 parent_ids in
    let existing = if one then get_or parent_ids 0 0 else 0 in
    let rebind = if two then get_or parent_ids 1 0 else 0 in
    record {
      parent_ids = parent_ids;
      hot_parent_ids = hot_parent_ids;
      existing_parent_id = existing;
      rebind_parent_id = rebind;
      insert_existing_parent_slots = if one then build_basic_child_slots 10001 existing else [];
      update_child_no_fk_change_slots = if one then build_basic_child_slots 11001 existing else [];
      rebind_child_slots = if two then build_existing_rebind_slots 13001 existing rebind else [];
      insert_parent_then_child_slots =
          if one then build_parent_child_slots (add64 count 1) 20001 else [];
      insert_parent_then_update_child_slots =
          if one then build_rebind_slots 12001 existing (add64 count 101) else [];
      delete_parent_cascade_slots = build_cascade_slots 14001 15001;
      concurrent_hot_parent_insert_slots =
          if at_least 1 hot_parent_ids then build_hot_child_slots 16001 hot_parent_ids else [];
    }

unfoldable pub generic_plan : Config → GenericSeedPlan
unfolding generic_plan_of build_parent_ids
generic_plan cfg =
    let count = parent_count cfg in
    let parent_ids = build_parent_ids count in
    generic_plan_of count parent_ids
      (take (clamp_hot cfg.seed_hot_parent_keys (length parent_ids)) parent_ids)
