-- ===== src/Db/Cluster/Open.antt =====
-- `openCluster` and what it calls, of internal/db/cluster.go. `sql.Open`, the pools that it gives
-- (numbers), and the constructor of the cluster library are parameters; so is `quote`, the %q of fmt.
pub mod Leaks
use tidb_fk_test.Base.{
  ℕ, suc, ◌+◌, ℤ, pos, Bool, true, false, ◌&&◌, ◌||◌, Option, none, some, List, [], ◌∷◌, ◌++◌, Text,
  codes, text_eq, if◌then◌else◌,
}
use tidb_fk_test.Base.Errors.{Error, new_error, wrap, join, join_errors}
use tidb_fk_test.Base.Decimal.{show_nat}
use tidb_fk_test.Base.Ints.{ltb_ℤ}
use tidb_fk_test.Base.Spaces.{trim_space}
use tidb_fk_test.Model.{is_empty}
use tidb_fk_test.Seed.Value.{Value}
use tidb_fk_test.Db.Session.{Outcome, ok, failed, QueryRowContext}
use tidb_fk_test.Db.Cluster.{first_ok}

-- Durations are nanoseconds.
abbrev pub second : ℤ
second = pos 1_000_000_000

pub record ClusterConfig : Type 0 where
  pub driver_name : Text
  pub dsns : List Text
  pub update_interval : ℤ
  pub update_timeout : ℤ
  pub startup_wait : ℤ

-- if trimmed := strings.TrimSpace(dsn); trimmed != "" { normalized = append(normalized, trimmed) }
unfoldable pub normalize_dsns : List Text → List Text
unfolding trim_space
normalize_dsns [] = []
normalize_dsns (dsn ∷ rest) =
    let trimmed = trim_space dsn in
    let more = normalize_dsns rest in if is_empty trimmed then more else trimmed ∷ more

unfoldable pub sql_driver_registered : List Text → Text → Bool
unfolding text_eq
sql_driver_registered [] name = false
sql_driver_registered (driver_name ∷ rest) name =
    text_eq driver_name name || sql_driver_registered rest name

abbrev pub default_duration : ℤ → ℤ → ℤ
default_duration value fallback = if ltb_ℤ (pos 0) value then value else fallback

-- The first pools are opened before the cluster `C` is made of the nodes.
pub record Opener (S C : Type 0) : Type 0 where
  pub drivers : List Text
  pub open_db : Text → Text → S → Outcome ℕ × S
  pub query_row_within : ℤ → ℕ → QueryRowContext S
  pub close_db : ℕ → S → Option Error × S
  pub new_cluster : List (Text × ℕ) → ℤ → ℤ → S → Outcome C × S
  pub wait_for_node : C → Option ℤ → S → Option Error × S
  pub close_cluster : C → S → Option Error × S
  pub quote : Text → Text

abbrev pub at_least_one_dsn : Error
at_least_one_dsn = new_error (codes "at least one dsn is required")

module _ {S C : Type 0} (env : Opener S C) where
  unfoldable pub close_all : List ℕ → Option Error → S → Option Error × S
  close_all [] err s = (err, s)
  close_all (db ∷ dbs) err s =
      let (e, s') = env.close_db db s in close_all dbs (join_errors err e) s'

  abbrev pub close_all_dbs : List ℕ → S → Option Error × S
  close_all_dbs dbs s = close_all dbs none s

  -- The timeout of a ping is a second, or the wait at the start where that is shorter.
  abbrev pub ping_timeout : ℤ → ℤ
  ping_timeout startup_wait =
      if ltb_ℤ (pos 0) startup_wait && ltb_ℤ startup_wait second then startup_wait else second

  abbrev pub ping : ℤ → ℕ → S → Outcome ℕ × S
  ping startup_wait db s =
      env.query_row_within (ping_timeout startup_wait) db (codes "SELECT 1") [] s

  abbrev pub preflight_error : Outcome ℕ × S → Option Error × S
  preflight_error (ok _, s) = (none, s)
  preflight_error (failed e, s) = (some (wrap (codes "preflight failed") e), s)

  -- Behind the first ping that is answered the rest are not asked.
  unfoldable pub preflight_cluster : List ℕ → ℤ → S → Option Error × S
  unfolding first_ok codes
  preflight_cluster [] startup_wait s = (some at_least_one_dsn, s)
  preflight_cluster (db ∷ dbs) startup_wait s =
      preflight_error (first_ok (ping startup_wait) at_least_one_dsn (db ∷ dbs) none s)

  abbrev pub opened_db :
      List ℕ → (ℕ → S → Outcome (List ℕ) × S) → Outcome ℕ × S → Outcome (List ℕ) × S
  opened_db opened rest (failed e, s) = (failed e, (close_all_dbs opened s).1)
  opened_db opened rest (ok db, s) = rest db s

  -- for i, dsn := range dsns, with the pools that are open
  unfoldable pub open_dbs : Text → List Text → List ℕ → S → Outcome (List ℕ) × S
  unfolding close_all
  open_dbs driver [] opened s = (ok opened, s)
  open_dbs driver (dsn ∷ dsns) opened s =
      opened_db opened (λ db. open_dbs driver dsns (opened ++ db ∷ [])) (env.open_db driver dsn s)

  -- The nodes tidb-1, tidb-2, ..., each with its pool.
  unfoldable pub number_nodes : ℕ → List ℕ → List (Text × ℕ)
  unfolding show_nat codes
  number_nodes i [] = []
  number_nodes i (db ∷ dbs) = (codes "tidb-" ++ show_nat i, db) ∷ number_nodes (i + 1) dbs

  -- return nil, errors.Join(err, cl.Close(), closeAllDBs(openedDBs))
  abbrev pub give_up : List ℕ → C → Error → S → Outcome C × S
  give_up opened cl err s =
      let (closed, s') = env.close_cluster cl s in
      let (all, s'') = close_all_dbs opened s' in (failed (join_three err closed all), s'')
    where
      join_three : Error → Option Error → Option Error → Error
      join_three e none none = e
      join_three e (some d) none = join (some e) d
      join_three e none (some f) = join (some e) f
      join_three e (some d) (some f) = join (some (join (some e) d)) f

  abbrev pub waited_for_node : List ℕ → C → Option Error × S → Outcome C × S
  waited_for_node opened cl (none, s) = (ok cl, s)
  waited_for_node opened cl (some err, s) = give_up opened cl err s

  abbrev pub wait_context : ℤ → Option ℤ
  wait_context startup_wait = if ltb_ℤ (pos 0) startup_wait then some startup_wait else none

  abbrev pub made_cluster : ClusterConfig → List ℕ → Outcome C × S → Outcome C × S
  made_cluster cfg opened (failed e, s) = (failed e, (close_all_dbs opened s).1)
  made_cluster cfg opened (ok cl, s) =
      waited_for_node opened cl (env.wait_for_node cl (wait_context cfg.startup_wait) s)

  abbrev pub checked_dbs : ClusterConfig → List ℕ → Option Error × S → Outcome C × S
  checked_dbs cfg opened (some e, s) = (failed e, (close_all_dbs opened s).1)
  checked_dbs cfg opened (none, s) = made_cluster cfg opened (
      env.new_cluster (number_nodes 1 opened) (default_duration cfg.update_interval second)
        (default_duration cfg.update_timeout second) s)

  abbrev pub opened_dbs : ClusterConfig → Outcome (List ℕ) × S → Outcome C × S
  opened_dbs cfg (failed e, s) = (failed e, s)
  opened_dbs cfg (ok dbs, s) = checked_dbs cfg dbs (preflight_cluster dbs cfg.startup_wait s)

  abbrev pub unregistered : Text → Error
  unregistered driver_name =
      new_error (codes "sql driver " ++ (env.quote driver_name ++ codes " is not registered"))

  abbrev pub registered_driver : ClusterConfig → S → Outcome C × S
  registered_driver cfg s =
      if sql_driver_registered env.drivers cfg.driver_name
      then opened_dbs cfg (open_dbs cfg.driver_name (normalize_dsns cfg.dsns) [] s)
      else (failed (unregistered cfg.driver_name), s)

  abbrev pub named_driver : ClusterConfig → S → Outcome C × S
  named_driver cfg s =
      if is_empty (trim_space cfg.driver_name)
      then (failed (new_error (codes "sql driver name is required")), s)
      else registered_driver cfg s

  abbrev pub is_nil : List Text → Bool
  is_nil [] = true
  is_nil (x ∷ xs) = false

  unfoldable pub open_cluster : ClusterConfig → S → Outcome C × S
  unfolding normalize_dsns sql_driver_registered trim_space open_dbs close_all preflight_cluster
      number_nodes codes
  open_cluster cfg s =
      if is_nil (normalize_dsns cfg.dsns) then (failed at_least_one_dsn, s) else named_driver cfg s

-- OpenTiDBCluster
unfoldable pub open_tidb_cluster : {S C : Type 0} → Opener S C → List Text → S → Outcome C × S
unfolding open_cluster codes
open_tidb_cluster env dsns s =
    open_cluster env
      (record {
        driver_name = codes "mysql";
        dsns = dsns;
        update_interval = second;
        update_timeout = second;
        startup_wait = pos 5_000_000_000;
      })
      s
