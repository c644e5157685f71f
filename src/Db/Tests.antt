-- ===== src/Db/Tests.antt =====
-- Concrete clusters.
use tidb_fk_test.Base.{
  ℕ, pos, ◌≡◌, ◌≢◌, refl, inl, Bool, true, false, none, some, [], ◌∷◌, codes, ◌==◌, arith,
  if◌then◌else◌,
}
use tidb_fk_test.Base.Errors.{Error, new_error}
use tidb_fk_test.Db.Session.{Tx, ok, failed}
use tidb_fk_test.Db.Cluster.{
  Nodes, no_alive_nodes, err_no_rows, candidate_nodes, begin_tx, query_row_context,
}
use tidb_fk_test.Db.Cluster.Failover.{Routes, begin_tx-Routes, query_row_context-Routes}
use tidb_fk_test.Db.Cluster.Candidates.{AreCandidates, candidate_nodes-AreCandidates}
use tidb_fk_test.Db.Cluster.Open.{Opener, ClusterConfig, open_cluster}
use tidb_fk_test.Db.Cluster.Open.Leaks.{KeepsPools, NoLeak, open_cluster-NoLeak}

abbrev refused : Error
refused = new_error (codes "connection refused")

abbrev some_tx : Tx ℕ
some_tx = record {
  session = record {
    exec_context = λ query args s. (none, s);
    query_row_context = λ query args s. (ok 1, s);
  };
  commit = λ s. (none, s);
  rollback = λ s. (none, s);
}

-- Three nodes, the first of which begins no transaction. The world counts the attempts.
abbrev three_nodes : Nodes ℕ
three_nodes = record {
  node = λ s. (some 1, s);
  wait_for_node = λ s. (failed refused, s);
  err = λ s. (none, s);
  nodes_iter = λ s. (1 ∷ 2 ∷ 3 ∷ [], s);
  close = λ s. (none, s);
  begin_tx = λ node s. if node == 1 then (failed refused, 1) else (ok some_tx, 2);
  exec_context = λ node query args s. (none, s);
  query_row_context = λ node query args s. (ok node, s);
}

second_node_serves : begin_tx three_nodes true 0 ≡ (ok some_tx, 2)
unfolding begin_tx
second_node_serves = refl

begin_tx-Routes_example :
    Routes three_nodes true three_nodes.begin_tx no_alive_nodes 0 (begin_tx three_nodes true 0)
begin_tx-Routes_example = begin_tx-Routes three_nodes true 0

three_candidates : candidate_nodes three_nodes true 0 ≡ (ok (1 ∷ 2 ∷ 3 ∷ []), 0)
unfolding candidate_nodes
three_candidates = refl

candidate_nodes-AreCandidates_example : AreCandidates three_nodes 0 (1 ∷ 2 ∷ 3 ∷ []) 0
candidate_nodes-AreCandidates_example =
    candidate_nodes-AreCandidates three_nodes true 0 (1 ∷ 2 ∷ 3 ∷ []) 0 three_candidates

-- Pools that all have number 7 and answer no ping; the world says whether that pool is open.
abbrev dead_pools : Opener Bool ℕ
dead_pools = record {
  drivers = codes "mysql" ∷ [];
  open_db = λ driver dsn s. (ok 7, true);
  query_row_within = λ wait db query args s. (failed refused, s);
  close_db = λ db s. (none, if db == 7 then false else s);
  new_cluster = λ nodes i j s. (ok 0, s);
  wait_for_node = λ cl wait s. (none, s);
  close_cluster = λ cl s. (none, s);
  quote = λ t. t;
}

abbrev IsOpen : ℕ → Bool → Type 0
IsOpen d s = (s ≡ true) × (d ≡ 7)

closed_pool :
    (db d : ℕ) (s : Bool) → IsOpen d (if db == 7 then false else s) → (d ≢ db) × IsOpen d s
closed_pool db d s (a, b) = split (db == 7) refl a
  where
    split : (c : Bool) → (db == 7) ≡ c → (if c then false else s) ≡ true → (d ≢ db) × IsOpen d s
    split true e h = absurd (cc)
    split false e h = ((λ f. ground (arith, e, b, f)), (h, b))

keeps_pools : KeepsPools dead_pools IsOpen
keeps_pools = record {
  open_db = λ driver dsn s t db d e o. inl (let same : 7 ≡ db = cc in cc (same, o.1));
  open_fails = λ driver dsn s t e d f o. absurd (cc);
  close_db = λ db s d o. closed_pool db d s o;
  query = λ wait db s d o. o;
  new_cluster = λ nodes i j s d o. o;
  wait_for_node = λ cl w s d o. o;
  close_cluster = λ cl s d o. o;
}

abbrev two_dsns : ClusterConfig
two_dsns = record {
  driver_name = codes "mysql";
  dsns = codes "root@tcp(a:4000)/test" ∷ codes "root@tcp(b:4000)/test" ∷ [];
  update_interval = pos 0;
  update_timeout = pos 0;
  startup_wait = pos 0;
}

open_cluster-NoLeak_example :
    NoLeak dead_pools IsOpen keeps_pools false (open_cluster dead_pools two_dsns false)
open_cluster-NoLeak_example = open_cluster-NoLeak dead_pools IsOpen keeps_pools two_dsns false

query_row_context-Routes_example :
    Routes three_nodes true
      (λ node. three_nodes.query_row_context node [] [])
      err_no_rows
      0
      (query_row_context three_nodes true [] [] 0)
query_row_context-Routes_example = query_row_context-Routes three_nodes true [] [] 0
