-- ===== src/Db/Cluster/Open/Leaks.antt =====
-- A cluster that could not be opened keeps no pool.
use tidb_fk_test.Base.{
  ℕ, ℤ, ◌≡◌, ◌≢◌, refl, ◌⊎◌, inl, inr, Bool, true, false, Option, none, some, List, [], ◌∷◌, ◌++◌,
  In, Text, In-append_left, In-append_right, if◌then◌else◌, Bool-cases,
}
use tidb_fk_test.Base.Errors.{Error, join, join_errors}
use tidb_fk_test.Db.Session.{Outcome, ok, failed}
use tidb_fk_test.Db.Cluster.{first_ok, next_node}
use tidb_fk_test.Db.Cluster.Open.{
  Opener, ClusterConfig, normalize_dsns, sql_driver_registered, close_all, close_all_dbs, ping,
  preflight_error, preflight_cluster, opened_db, open_dbs, waited_for_node, wait_context,
  made_cluster, checked_dbs, opened_dbs, open_cluster, is_nil, named_driver, registered_driver,
  at_least_one_dsn,
}
use tidb_fk_test.Base.Spaces.{trim_space}
use tidb_fk_test.Model.{is_empty}

-- What database/sql and the cluster library do with pools: `sql.Open` opens the pool that it gives,
-- and none where it fails; `Close` closes a pool; and no other call opens one.
pub record KeepsPools {S C : Type 0} (env : Opener S C) (IsOpen : ℕ → S → Type 0) : Type 0 where
  pub open_db :
      (driver dsn : Text) (s t : S) (db d : ℕ)
      → env.open_db driver dsn s ≡ (ok db, t)
      → IsOpen d t
      → (d ≡ db) ⊎ IsOpen d s
  pub open_fails :
      (driver dsn : Text) (s t : S) (e : Error) (d : ℕ)
      → env.open_db driver dsn s ≡ (failed e, t)
      → IsOpen d t
      → IsOpen d s
  pub close_db : (db : ℕ) (s : S) (d : ℕ) → IsOpen d (env.close_db db s).1 → (d ≢ db) × IsOpen d s
  pub query : (wait : ℤ) (db : ℕ) (s : S) (d : ℕ) → IsOpen d (ping env wait db s).1 → IsOpen d s
  pub new_cluster :
      (nodes : List (Text × ℕ)) (i j : ℤ) (s : S) (d : ℕ)
      → IsOpen d (env.new_cluster nodes i j s).1
      → IsOpen d s
  pub wait_for_node :
      (cl : C) (w : Option ℤ) (s : S) (d : ℕ) → IsOpen d (env.wait_for_node cl w s).1 → IsOpen d s
  pub close_cluster : (cl : C) (s : S) (d : ℕ) → IsOpen d (env.close_cluster cl s).1 → IsOpen d s

module _ {S C : Type 0} (env : Opener S C) (IsOpen : ℕ → S → Type 0)
    (k : KeepsPools env IsOpen) where
  -- The pools that are open in `t` were open in `s`, or are among `opened`.
  abbrev pub Adds : List ℕ → S → S → Type 0
  Adds opened s t = (d : ℕ) → IsOpen d t → In d opened ⊎ IsOpen d s

  close_all-closes :
      (dbs : List ℕ) (err : Option Error) (s : S) (d : ℕ)
      → IsOpen d (close_all env dbs err s).1
      → (¬ In d dbs) × IsOpen d s
  unfolding close_all
  close_all-closes [] err s d h = ((λ m. m), h)
  close_all-closes (db ∷ dbs) err s d h =
      let (e, s') = env.close_db db s in
      let (absent, h') = close_all-closes dbs (join_errors err e) s' d h in
      let (other, h'') = k.close_db db s d h' in
      (λ m. elim m [ inl q ↦ other q | inr n ↦ absent n ], h'')

  -- Behind the closing of what was added there is nothing new.
  closed :
      (opened : List ℕ) (s t : S)
      → Adds opened s t
      → (d : ℕ) → IsOpen d (close_all_dbs env opened t).1
      → IsOpen d s
  closed opened s t adds d h =
      let (absent, h') = close_all-closes opened none t d h in
      elim (adds d h') [ inl m ↦ absurd (absent m) | inr q ↦ q ]

  Adds-step :
      (opened : List ℕ) (s t u : S)
      → Adds opened s t
      → ((d : ℕ) → IsOpen d u → IsOpen d t)
      → Adds opened s u
  Adds-step opened s t u adds h d o = adds d (h d o)

  Adds-open :
      (opened : List ℕ) (db : ℕ) (s t u : S)
      → Adds opened s t
      → ((d : ℕ) → IsOpen d u → (d ≡ db) ⊎ IsOpen d t)
      → Adds (opened ++ db ∷ []) s u
  Adds-open opened db s t u adds h d o = elim (h d o) [
    | inl q ↦ inl (In-append_right d opened (db ∷ []) (inl q))
    | inr p ↦ elim (adds d p) [ inl m ↦ inl (In-append_left d opened (db ∷ []) m) | inr q ↦ inr q ]
  ]

  first_ok-keeps :
      (wait : ℤ) (last : Error) (dbs : List ℕ) (err : Option Error) (s : S) (d : ℕ)
      → IsOpen d (first_ok (ping env wait) last dbs err s).1
      → IsOpen d s
  unfolding first_ok
  first_ok-keeps wait last [] err s d h = h
  first_ok-keeps wait last (db ∷ dbs) err s d h =
      k.query wait db s d
        (asked (ping env wait db s) (λ e u. first_ok-keeps wait last dbs (some (join err e)) u d) h)
    where
      asked :
          (o : Outcome ℕ × S)
          → ((e : Error) (u : S)
              → IsOpen d (first_ok (ping env wait) last dbs (some (join err e)) u).1
              → IsOpen d u)
          → IsOpen d (next_node (ping env wait) last err (first_ok (ping env wait) last dbs) o).1
          → IsOpen d o.1
      asked (ok n, u) more h = h
      asked (failed e, u) more h = more e u h

  preflight-keeps :
      (dbs : List ℕ) (wait : ℤ) (s : S) (d : ℕ)
      → IsOpen d (preflight_cluster env dbs wait s).1
      → IsOpen d s
  unfolding preflight_cluster
  preflight-keeps [] wait s d h = h
  preflight-keeps (db ∷ dbs) wait s d h = first_ok-keeps wait _ (db ∷ dbs) none s d (same _ h)
    where
      same : (o : Outcome ℕ × S) → IsOpen d (preflight_error env o).1 → IsOpen d o.1
      same (ok n, u) h = h
      same (failed e, u) h = h

  -- No pool of an outcome that failed is left; one that succeeded may hold what `opened` names.
  abbrev pub Keeps : {A : Type 0} → (A → List ℕ) → S → Outcome A × S → Type 0
  Keeps opened s (failed e, t) = Adds [] s t
  Keeps opened s (ok a, t) = Adds (opened a) s t

  from_closed :
      (opened : List ℕ) (s t : S) → Adds opened s t → Adds [] s (close_all_dbs env opened t).1
  from_closed opened s t adds d h = inr (closed opened s t adds d h)

  open_dbs-Keeps :
      (driver : Text) (dsns : List Text) (opened : List ℕ) (s t : S)
      → Adds opened s t
      → Keeps (λ dbs. dbs) s (open_dbs env driver dsns opened t)
  unfolding open_dbs
  open_dbs-Keeps driver [] opened s t adds = adds
  open_dbs-Keeps driver (dsn ∷ dsns) opened s t adds =
      one (env.open_db driver dsn t) refl
        (λ db u. open_dbs-Keeps driver dsns (opened ++ db ∷ []) s u)
    where
      one :
          (o : Outcome ℕ × S)
          → env.open_db driver dsn t ≡ o
          → ((db : ℕ) (u : S)
              → Adds (opened ++ db ∷ []) s u
              → Keeps (λ dbs. dbs) s (open_dbs env driver dsns (opened ++ db ∷ []) u))
          → Keeps
              (λ dbs. dbs)
              s
              (opened_db env opened (λ db. open_dbs env driver dsns (opened ++ db ∷ [])) o)
      one (failed e, u) o more =
          from_closed opened s u
            (Adds-step opened s t u adds (λ d. k.open_fails driver dsn t u e d o))
      one (ok db, u) o more =
          more db u (Adds-open opened db s t u adds (λ d. k.open_db driver dsn t u db d o))

  module _ (cfg : ClusterConfig) (opened : List ℕ) (s : S) where
    -- What may be open where the cluster `cl` was made.
    abbrev all_open : C → List ℕ
    all_open cl = opened

    waited-Keeps :
        (cl : C) (o : Option Error × S)
        → Adds opened s o.1
        → Keeps all_open s (waited_for_node env opened cl o)
    waited-Keeps cl (none, u) adds = adds
    waited-Keeps cl (some err, u) adds =
        from_closed opened s _ (Adds-step opened s u _ adds (λ d. k.close_cluster cl u d))

    made-Keeps :
        (o : Outcome C × S) → Adds opened s o.1 → Keeps all_open s (made_cluster env cfg opened o)
    made-Keeps (failed e, u) adds = from_closed opened s u adds
    made-Keeps (ok cl, u) adds =
        waited-Keeps cl (env.wait_for_node cl (wait_context env cfg.startup_wait) u)
          (Adds-step opened s u _ adds (λ d. k.wait_for_node cl _ u d))

    checked-Keeps :
        (o : Option Error × S) → Adds opened s o.1 → Keeps all_open s (checked_dbs env cfg opened o)
    checked-Keeps (some e, u) adds = from_closed opened s u adds
    checked-Keeps (none, u) adds =
        made-Keeps _ (Adds-step opened s u _ adds (λ d. k.new_cluster _ _ _ u d))

  -- The pools that `cl` may hold are some pools: only a failure is of interest here.
  abbrev pub NoLeak : S → Outcome C × S → Type 0
  NoLeak s (failed e, t) = (d : ℕ) → IsOpen d t → IsOpen d s
  NoLeak s (ok cl, t) = Unit

  no_leak : (opened : C → List ℕ) (s : S) (o : Outcome C × S) → Keeps opened s o → NoLeak s o
  no_leak opened s (ok cl, t) h = tt
  no_leak opened s (failed e, t) h = λ d q. elim (h d q) [ inl m ↦ elim m [ ] | inr p ↦ p ]

  opened-NoLeak :
      (cfg : ClusterConfig) (s : S) (o : Outcome (List ℕ) × S)
      → Keeps (λ dbs. dbs) s o
      → NoLeak s (opened_dbs env cfg o)
  opened-NoLeak cfg s (failed e, t) h = λ d q. elim (h d q) [ inl m ↦ elim m [ ] | inr p ↦ p ]
  opened-NoLeak cfg s (ok dbs, t) h =
      no_leak (λ cl. dbs) s _
        (checked-Keeps cfg dbs s (preflight_cluster env dbs cfg.startup_wait t)
          (Adds-step dbs s t _ h (λ d. preflight-keeps dbs cfg.startup_wait t d)))

  NoLeak-guard :
      (b : Bool) (s : S) (e : Error) (y : Outcome C × S)
      → NoLeak s y
      → NoLeak s (if b then (failed e, s) else y)
  NoLeak-guard true s e y h = λ d q. q
  NoLeak-guard false s e y h = h

  registered-NoLeak : (cfg : ClusterConfig) (s : S) → NoLeak s (registered_driver env cfg s)
  registered-NoLeak cfg s = elim (Bool-cases (sql_driver_registered env.drivers cfg.driver_name)) [
    | inl e ↦ rw e (
        opened-NoLeak cfg s _
          (open_dbs-Keeps cfg.driver_name (normalize_dsns cfg.dsns) [] s s (λ d q. inr q)))
    | inr e ↦ rw e (λ d q. q)
  ]

  -- Where `openCluster` returns an error, whichever of its steps failed, each connection pool that is
  -- open behind it was open before.
  pub open_cluster-NoLeak : (cfg : ClusterConfig) (s : S) → NoLeak s (open_cluster env cfg s)
  unfolding open_cluster
  open_cluster-NoLeak cfg s =
      NoLeak-guard (is_nil env (normalize_dsns cfg.dsns)) s at_least_one_dsn
        (named_driver env cfg s)
        (NoLeak-guard (is_empty (trim_space cfg.driver_name)) s _ (registered_driver env cfg s)
          (registered-NoLeak cfg s))
