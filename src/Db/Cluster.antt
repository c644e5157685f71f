-- ===== src/Db/Cluster.antt =====
-- `Cluster` of internal/db/cluster.go: calls go to the alive nodes, one after the other. The cluster
-- library and database/sql are parameters on an abstract world `S`. A node is its pointer, a number.
pub mod Failover
pub mod Candidates
pub mod Open
use tidb_fk_test.Base.{
  ℕ, Bool, true, false, Option, none, some, List, [], ◌∷◌, ◌++◌, Text, codes, ◌==◌, if◌then◌else◌,
}
use tidb_fk_test.Base.Errors.{Error, new_error, no_rows, join, join_errors}
use tidb_fk_test.Db.Session.{Outcome, ok, failed, ExecContext, QueryRowContext, Tx, BeginTx}
use tidb_fk_test.Seed.Value.{Value}

-- What hasql's cluster, and `node.DB()` of its nodes, offer.
pub record Nodes (S : Type 0) : Type 0 where
  pub node : S → Option ℕ × S
  pub wait_for_node : S → Outcome ℕ × S
  pub err : S → Option Error × S
  pub nodes_iter : S → List ℕ × S
  pub close : S → Option Error × S
  pub begin_tx : ℕ → BeginTx S
  pub exec_context : ℕ → ExecContext S
  pub query_row_context : ℕ → QueryRowContext S

-- sql.ErrNoRows
pub err_no_rows : Error
err_no_rows = record { text = codes "sql: no rows in result set"; chain = no_rows ∷ [] }

-- errors.New("no alive tidb nodes available")
pub no_alive_nodes : Error
no_alive_nodes = new_error (codes "no alive tidb nodes available")

-- The part of a loop over the candidates: the first result without an error, or else the errors
-- joined. `last` is the error where there was none to join.
module _ {S A B : Type 0} (call : A → S → Outcome B × S) (last : Error) where
  abbrev pub errors_or : Option Error → Error
  errors_or none = last
  errors_or (some e) = e

  abbrev pub next_node :
      Option Error → (Option Error → S → Outcome B × S) → Outcome B × S → Outcome B × S
  next_node err rest (ok b, s) = (ok b, s)
  next_node err rest (failed e, s) = rest (some (join err e)) s

  unfoldable pub first_ok : List A → Option Error → S → Outcome B × S
  first_ok [] err s = (failed (errors_or err), s)
  first_ok (a ∷ rest) err s = next_node err (first_ok rest) (call a s)

-- for node := range nodes { if node == first { continue }; nodes = append(nodes, node) }
unfoldable pub append_others : ℕ → List ℕ → List ℕ → List ℕ
append_others first nodes [] = nodes
append_others first nodes (node ∷ rest) =
    append_others first (if node == first then nodes else nodes ++ node ∷ []) rest

module _ {S : Type 0} (cluster : Nodes S) where
  abbrev pub gather : ℕ → S → Outcome (List ℕ) × S
  gather first s =
      let (others, s') = cluster.nodes_iter s in (ok (append_others first (first ∷ []) others), s')

  abbrev pub wait_failed : Error → Option Error × S → Outcome (List ℕ) × S
  wait_failed err (none, s) = (failed err, s)
  wait_failed err (some cluster_err, s) = (failed (join (some cluster_err) err), s)

  abbrev pub waited : Outcome ℕ × S → Outcome (List ℕ) × S
  waited (ok node, s) = gather node s
  waited (failed err, s) = wait_failed err (cluster.err s)

  abbrev pub picked : Option ℕ × S → Outcome (List ℕ) × S
  picked (some first, s) = gather first s
  picked (none, s) = waited (cluster.wait_for_node s)

  -- `is_open` is false for a nil cluster.
  unfoldable pub candidate_nodes : Bool → S → Outcome (List ℕ) × S
  unfolding append_others codes
  candidate_nodes is_open s =
      if is_open
      then picked (cluster.node s)
      else (failed (new_error (codes "cluster is not initialized")), s)

  abbrev pub on_nodes :
      {B : Type 0} → (List ℕ → S → Outcome B × S) → Outcome (List ℕ) × S → Outcome B × S
  on_nodes f (failed e, s) = (failed e, s)
  on_nodes f (ok nodes, s) = f nodes s

  unfoldable pub begin_tx : Bool → BeginTx S
  unfolding candidate_nodes first_ok
  begin_tx is_open s =
      on_nodes (λ nodes. first_ok cluster.begin_tx no_alive_nodes nodes none)
        (candidate_nodes is_open s)

  abbrev pub as_outcome : Option Error × S → Outcome (Unit {0}) × S
  as_outcome (none, s) = (ok tt, s)
  as_outcome (some e, s) = (failed e, s)

  abbrev pub as_error : Outcome (Unit {0}) × S → Option Error × S
  as_error (ok _, s) = (none, s)
  as_error (failed e, s) = (some e, s)

  unfoldable pub exec_context : Bool → ExecContext S
  unfolding candidate_nodes first_ok
  exec_context is_open query args s = as_error (
      on_nodes
        (λ nodes.
          first_ok (λ node t. as_outcome (cluster.exec_context node query args t)) no_alive_nodes
            nodes none)
        (candidate_nodes is_open s))

  -- `QueryRowContext` and the `Scan` of the row that it returns.
  unfoldable pub query_row_context : Bool → QueryRowContext S
  unfolding candidate_nodes first_ok
  query_row_context is_open query args s =
      on_nodes
        (λ nodes.
          first_ok (λ node. cluster.query_row_context node query args) err_no_rows nodes none)
        (candidate_nodes is_open s)

  unfoldable pub close : Bool → S → Option Error × S
  close is_open s = if is_open then cluster.close s else (none, s)
