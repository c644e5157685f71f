-- ===== src/Command/Options/HotParents.antt =====
-- The plan that `run` rebuilds where `prepare` was told to make no hot parent keys.
use tidb_fk_test.Base.{
  ℕ, zero, suc, take, ℤ, pos, negsuc, ◌≡◌, ◌≢◌, refl, ◌∙◌, true, false, List, [], ◌∷◌, Text, length,
  arith, if◌then◌else◌, ◌<◌,
}
use tidb_fk_test.Base.Ints.{ltb_ℤ, pos_part}
use tidb_fk_test.Config.{Config, default}
use tidb_fk_test.Db.Session.{ok}
use tidb_fk_test.Seed.Value.{build, length-build}
use tidb_fk_test.Seed.Generic.{
  parent_count, clamp_hot, generic_plan, at_least, max_int, build_hot_child_slots, build_parent_ids,
}
use tidb_fk_test.Seed.Generic.Rows.{generic_parent_hot_rows}
use tidb_fk_test.Seed.Metadata.{PreparedMetadata, is_zero}
use tidb_fk_test.Command.Options.{
  PrepareOptions, RunOptions, build_prepare_config, build_run_config,
}
use tidb_fk_test.Command.Options.Plans.{prepare_counts, run_counts}

take_some : {A : Type 0} (n : ℕ) (xs : List A) → 0 < n → 0 < length xs → take n xs ≢ []
take_some zero xs h k = absurd (omega arith)
take_some (suc n) [] h k = absurd (omega arith)
take_some (suc n) (x ∷ xs) h k = λ e. cc

hot_slots_some :
    (ids : List ℕ)
    → ids ≢ []
    → (if at_least 1 ids then build_hot_child_slots 16001 ids else []) ≢ []
unfolding build_hot_child_slots build
hot_slots_some [] ne = absurd (ne refl)
hot_slots_some (id ∷ ids) ne = λ e. cc

length-parent_ids : (n : ℕ) → length (build_parent_ids n) ≡ n
unfolding build_parent_ids
length-parent_ids n = length-build n 0 _

some_parents :
    (r : ℤ) → ltb_ℤ (pos 0) r ≡ true → (is_zero r ≡ false) × (0 < pos_part (max_int r (pos 0)))
some_parents (pos n) h = (ground (arith, h), ground (arith, h))
some_parents (negsuc n) h = absurd (ground (arith, h))

-- A configuration with some rows and the default number of hot keys.
hot_default_some :
    (c : Config)
    → 0 < parent_count c
    → c.seed_hot_parent_keys ≡ default.seed_hot_parent_keys
    → ((generic_plan c).hot_parent_ids ≢ [])
      × ((generic_plan c).concurrent_hot_parent_insert_slots ≢ [])
unfolding generic_plan
hot_default_some c h e =
    let ids = build_parent_ids (parent_count c) in
    let keys = clamp_hot c.seed_hot_parent_keys (length ids) in
    let some_keys : 0 < keys = rw (e, length-parent_ids (parent_count c)) (ground (arith, h)) in
    let ne = take_some keys ids some_keys (rw (length-parent_ids (parent_count c)) h) in
    (ne, hot_slots_some (take keys ids) ne)

clamp_zero : (n : ℕ) → clamp_hot (pos 0) n ≡ 0
clamp_zero n = ground arith

no_hot_rows :
    (c : Config) → c.seed_hot_parent_keys ≡ pos 0 → generic_parent_hot_rows (generic_plan c) ≡ []
unfolding generic_parent_hot_rows generic_plan
no_hot_rows c e = rw (e, clamp_zero (length (build_parent_ids (parent_count c)))) refl

-- Where `prepare` recorded no hot parent keys but some parent rows, it inserts no row of `parent_hot`,
-- and yet the plan that `run` rebuilds from the metadata has hot parents, and slots that insert
-- children of them.
pub run_invents_hot_parents :
    (quote : Text → Text) (prepare : PrepareOptions) (run : RunOptions) (cfg again : Config)
    (md : PreparedMetadata)
    → build_prepare_config quote prepare ≡ ok cfg
    → prepare.seed_hot_parent_keys ≡ pos 0
    → ltb_ℤ (pos 0) prepare.seed_parent_rows_per_table ≡ true
    → md.seed_parent_rows_per_table ≡ prepare.seed_parent_rows_per_table
    → md.seed_hot_parent_keys ≡ prepare.seed_hot_parent_keys
    → build_run_config quote run md ≡ ok again
    → (generic_parent_hot_rows (generic_plan cfg) ≡ [])
      × ((generic_plan again).hot_parent_ids ≢ [])
      × ((generic_plan again).concurrent_hot_parent_insert_slots ≢ [])
run_invents_hot_parents quote prepare run cfg again md built none_hot some_rows rows hot rebuilt =
    let (given, given_hot) = prepare_counts quote prepare cfg built in
    let (rerows, rehot) = run_counts quote run md again rebuilt in
    let (nonzero, positive) = some_parents prepare.seed_parent_rows_per_table some_rows in
    let again_rows : again.seed_parent_rows_per_table ≡ prepare.seed_parent_rows_per_table =
      rerows ∙ (rw (rows, nonzero) refl) in
    let again_hot : again.seed_hot_parent_keys ≡ default.seed_hot_parent_keys =
      rehot ∙ (rw (hot, none_hot) refl) in
    let (ids, slots) = hot_default_some again (rw again_rows positive) again_hot in
    (no_hot_rows cfg (cc (given_hot, none_hot)), ids, slots)
