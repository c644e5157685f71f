-- ===== src/Command/Flow/Success.antt =====
-- What a successful command has done.
use tidb_fk_test.Base.{
  ℕ, ◌≡◌, refl, ap, true, Option, none, some, Text, codes, Bool-cases, inl, inr,
}
use tidb_fk_test.Base.Errors.{Error}
use tidb_fk_test.Db.Session.{Outcome, ok, failed}
use tidb_fk_test.Config.{Config}
use tidb_fk_test.Seed.Metadata.{PreparedMetadata, no_metadata}
use tidb_fk_test.Seed.Apply.Phases.{build_applied_state}
use tidb_fk_test.Command.Options.{RunOptions, build_run_config}
use tidb_fk_test.Command.Process.{
  Process, Calls, ◌>>=◌, error_or, returns, may_fail, checks, logging, deferring,
}
use tidb_fk_test.Command.Flow.{
  Deps, Os, is_version, check_version, explain, read_metadata, workload, with_config, with_metadata,
  with_run_cluster, with_logger, with_log_file, new_error_logger, run_command,
}
use tidb_fk_test.Command.Process.Succeeds.{>>=-ok, logging-ok, deferring-ok}

module _ {S Conn : Type 0} (deps : Deps S Conn) (os : Os S) (quote : Text → Text)
    (opts : RunOptions) where
  -- The workload ran, without an error, with the configuration that the metadata give, on a cluster
  -- whose metadata have this program's version and whose fixtures passed the validation.
  pub record HasRun (db : Conn) : Type 0 where
    pub metadata : PreparedMetadata
    pub cfg : Config
    pub read : (s : S) × (t : S) × (deps.read_prepared_metadata db s ≡ (ok metadata, t))
    pub version : is_version metadata.seed_plan_version ≡ true
    pub config : build_run_config quote opts metadata ≡ ok cfg
    pub validated :
        (s : S) × (t : S) × (deps.validate_prepared db (build_applied_state cfg) s ≡ (none, t))
    pub ran : (at : ℕ) × (p : Process S) × (q : Process S) × (deps.run cfg at db p ≡ (ok tt, q))

  explain-ok :
      {A : Type 0} (r : Outcome A × Process S) (a : A) (q : Process S)
      → explain deps os quote r ≡ (ok a, q)
      → r ≡ (ok a, q)
  explain-ok (ok x, t) a q h = h
  explain-ok (failed e, t) a q h = absurd (cc)

  may_fail-ok :
      {A : Type 0} (f : S → Outcome A × S) (p q : Process S) (a : A)
      → may_fail f p ≡ (ok a, q)
      → (t : S) × (f p.world ≡ (ok a, t))
  may_fail-ok {A = A} f p q a h = split (f p.world) refl h
    where
      split :
          (r : Outcome A × S)
          → f p.world ≡ r
          → ◌≡◌ {A = Outcome A × Process S} (r.0, record p { world = r.1 }) (ok a, q)
          → (t : S) × (f p.world ≡ (ok a, t))
      split (failed e, t) i j = absurd (cc)
      split (ok x, t) i j = let same : x ≡ a = cc in (t, cc (i, same))

  checks-ok :
      (f : S → Option Error × S) (p q : Process S) (u : Unit {0})
      → checks f p ≡ (ok u, q)
      → (t : S) × (f p.world ≡ (none, t))
  checks-ok f p q u h = split (f p.world) refl h
    where
      split :
          (r : Option Error × S)
          → f p.world ≡ r
          → error_or (r.0, record p { world = r.1 }) ≡ (ok u, q)
          → (t : S) × (f p.world ≡ (none, t))
      split (some e, t) i j = absurd (cc)
      split (none, t) i j = (t, i)

  check_version-ok :
      (metadata : PreparedMetadata) (u : Unit {0}) (p q : Process S)
      → returns (check_version metadata) p ≡ (ok u, q)
      → is_version metadata.seed_plan_version ≡ true
  check_version-ok metadata u p q h = elim (Bool-cases (is_version metadata.seed_plan_version)) [
    | inl b ↦ b
    | inr b ↦ absurd (cc (rw b at h))
  ]

  HasWorked : Conn → Config → Type 0
  HasWorked db cfg =
      (at : ℕ) × (p : Process S) × (q : Process S) × (deps.run cfg at db p ≡ (ok tt, q))

  IsValid : Conn → Config → Type 0
  IsValid db cfg =
      (s : S) × (t : S) × (deps.validate_prepared db (build_applied_state cfg) s ≡ (none, t))

  workload-ok :
      (db : Conn) (cfg : Config) (p q : Process S) (u : Unit {0})
      → workload deps os quote db cfg p ≡ (ok u, q)
      → HasWorked db cfg
  unfolding workload HasWorked
  workload-ok db cfg p q u h = (
    (deps.now p.world).0,
    record p { world = (deps.now p.world).1 },
    q,
    logging-ok (codes "run_workload") (deps.run cfg (deps.now p.world).0 db) _ q tt h,
  )

  with_config-ok :
      (db : Conn) (cfg : Config) (p q : Process S) (u : Unit {0})
      → with_config deps os quote db cfg p ≡ (ok u, q)
      → IsValid db cfg × HasWorked db cfg
  unfolding with_config IsValid
  with_config-ok db cfg p q u h =
      let valid : S → Option Error × S = deps.validate_prepared db (build_applied_state cfg) in
      let (_, t, a, b) =
        >>=-ok (logging (codes "validate_prepared_state") (checks valid))
          (λ _. workload deps os quote db cfg) p q u h in
      let (s, v) =
        checks-ok valid p t tt
          (logging-ok (codes "validate_prepared_state") (checks valid) p t tt a) in
      ((p.world, s, v), workload-ok db cfg t q u b)

  made-config :
      (metadata : PreparedMetadata) (cfg : Config) (p q : Process S)
      → logging (codes "build_run_config") (returns (build_run_config quote opts metadata)) p
        ≡ (ok cfg, q)
      → build_run_config quote opts metadata ≡ ok cfg
  made-config metadata cfg p q h =
      ap (λ (r : Outcome Config × Process S). r.0)
        (logging-ok (codes "build_run_config") (returns (build_run_config quote opts metadata)) p q
          cfg h)

  with_metadata-ok :
      (db : Conn) (metadata : PreparedMetadata) (p q : Process S) (u : Unit {0})
      → with_metadata deps os quote opts db metadata p ≡ (ok u, q)
      → (is_version metadata.seed_plan_version ≡ true)
        × (cfg : Config) × (build_run_config quote opts metadata ≡ ok cfg)
        × IsValid db cfg
        × HasWorked db cfg
  unfolding with_metadata
  with_metadata-ok db metadata p q u h =
      let (_, t, a, b) =
        >>=-ok (logging (codes "validate_prepare_metadata") (returns (check_version metadata)))
          (λ _.
            logging (codes "build_run_config") (returns (build_run_config quote opts metadata))
            >>= λ cfg. with_config deps os quote db cfg)
          p q u h in
      let (cfg, r, c, d) =
        >>=-ok (logging (codes "build_run_config") (returns (build_run_config quote opts metadata)))
          (λ cfg. with_config deps os quote db cfg) t q u b in
      let (valid, worked) = with_config-ok db cfg r q u d in
      (
        check_version-ok metadata tt p t (
            logging-ok (codes "validate_prepare_metadata") (returns (check_version metadata)) p t tt
              a),
        cfg,
        made-config metadata cfg t r c,
        valid,
        worked,
      )

  with_run_cluster-HasRun :
      (db : Conn) (p q : Process S) (u : Unit {0})
      → with_run_cluster deps os quote opts db p ≡ (ok u, q)
      → HasRun db
  unfolding with_run_cluster IsValid HasWorked
  with_run_cluster-HasRun db p q u h =
      let (metadata, t, a, b) =
        >>=-ok (read_metadata deps os quote db)
          (λ metadata. with_metadata deps os quote opts db metadata) p q u h in
      let read : Calls S PreparedMetadata = may_fail (deps.read_prepared_metadata db) in
      let (s, r) = may_fail-ok (deps.read_prepared_metadata db) p t metadata (
        logging-ok (codes "read_prepared_metadata") read p t metadata
          (explain-ok (logging (codes "read_prepared_metadata") read p) metadata t a)) in
      let (version, cfg, config, validated, ran) = with_metadata-ok db metadata t q u b in
      record {
        metadata = metadata;
        cfg = cfg;
        read = (p.world, s, r);
        version = version;
        config = config;
        validated = validated;
        ran = ran;
      }

  opened-HasRun :
      (p q : Process S) (u : Unit {0})
      → with_logger deps os quote opts p ≡ (ok u, q)
      → (base : Config) × (db : Conn) × (s : S) × (t : S) × (build_run_config quote opts no_metadata
          ≡ ok base)
        × (deps.open_cluster base.dsn s ≡ (ok db, t))
        × HasRun db
  unfolding with_logger
  opened-HasRun p q u h =
      let opens : Config → Calls S Conn =
        λ base. logging (codes "open_cluster") (may_fail (deps.open_cluster base.dsn)) in
      let closing : Conn → Calls S (Unit {0}) =
        λ db. deferring (deps.close db) (with_run_cluster deps os quote opts db) in
      let (base, t, a, b) =
        >>=-ok
          (logging (codes "build_run_config") (returns (build_run_config quote opts no_metadata)))
          (λ base. opens base >>= closing) p q u h in
      let (db, r, c, d) = >>=-ok (opens base) closing t q u b in
      let (q', e) = deferring-ok (deps.close db) (with_run_cluster deps os quote opts db) r q u d in
      let (s, opened) =
        may_fail-ok (deps.open_cluster base.dsn) t r db
          (logging-ok (codes "open_cluster") (may_fail (deps.open_cluster base.dsn)) t r db c) in
      (
        base,
        db,
        t.world,
        s,
        made-config no_metadata base p t a,
        opened,
        with_run_cluster-HasRun db r q' u e,
      )

  -- `run` succeeds only where it has run the workload, and that without an error, on a cluster that
  -- it opened, whose metadata have this program's version and whose fixtures passed the validation,
  -- with the configuration of its options and of those metadata.
  pub run_command-HasRun :
      (p q : Process S) (u : Unit {0})
      → run_command deps os quote opts p ≡ (ok u, q)
      → (base : Config) × (db : Conn) × (s : S) × (t : S) × (build_run_config quote opts no_metadata
          ≡ ok base)
        × (deps.open_cluster base.dsn s ≡ (ok db, t))
        × HasRun db
  unfolding run_command
  run_command-HasRun p q u h =
      let at : ℕ = (deps.now p.world).0 in
      let p' : Process S = record p { world = (deps.now p.world).1 } in
      let (path, t, a, b) =
        >>=-ok (new_error_logger deps os quote at)
          (λ path. deferring (os.close_file path) (with_log_file deps os quote opts path)) p' q u
          h in
      let (q', c) =
        deferring-ok (os.close_file path) (with_log_file deps os quote opts path) t q u b in
      opened-HasRun _ q' u c
