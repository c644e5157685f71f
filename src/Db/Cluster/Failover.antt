-- ===== src/Db/Cluster/Failover.antt =====
-- A call goes to the candidates in turn, until one serves it.
use tidb_fk_test.Base.{
  ℕ, ◌≡◌, refl, ◌⊎◌, inl, inr, Bool, true, ◌||◌, Option, none, some, arith, List, [], ◌∷◌, ◌++◌, In,
  Text,
}
use tidb_fk_test.Base.Errors.{Error, Sentinel, has_sentinel, is_error, join}
use tidb_fk_test.Db.Session.{Outcome, ok, failed}
use tidb_fk_test.Seed.Value.{Value}
use tidb_fk_test.Db.Cluster.{
  Nodes, no_alive_nodes, err_no_rows, errors_or, next_node, first_ok, candidate_nodes, on_nodes,
  begin_tx, query_row_context,
}

-- All errors joined, in order, behind those of `err`.
abbrev pub join_all : Option Error → List Error → Option Error
join_all err [] = err
join_all err (e ∷ es) = join_all (some (join err e)) es

module _ {S A B : Type 0} (call : A → S → Outcome B × S) (last : Error) where
  -- The calls fail one after the other with the errors, from one world to the other.
  abbrev pub Fail : List A → S → List Error → S → Type 0
  Fail [] s [] t = s ≡ t
  Fail [] s (e ∷ es) t = ⊥
  Fail (a ∷ rest) s [] t = ⊥
  Fail (a ∷ rest) s (e ∷ es) t = (u : S) × (call a s ≡ (failed e, u)) × Fail rest u es t

  -- The first that serves the call gives the result, and those behind it are not asked.
  pub record IsServed (items : List A) (s : S) (r : Outcome B × S) : Type 0 where
    pub before : List A
    pub item : A
    pub behind : List A
    pub errors : List Error
    pub world : S
    pub split : items ≡ before ++ item ∷ behind
    pub fail : Fail before s errors world
    pub value : B
    pub end : S
    pub serves : call item world ≡ (ok value, end)
    pub result : r ≡ (ok value, end)

  -- All of them fail, and the result is their errors joined.
  pub record IsRefused (items : List A) (err : Option Error) (s : S) (r : Outcome B × S)
      : Type 0 where
    pub errors : List Error
    pub world : S
    pub fail : Fail items s errors world
    pub result : r ≡ (failed (errors_or call last (join_all err errors)), world)

  abbrev pub Tries : List A → Option Error → S → Outcome B × S → Type 0
  Tries items err s r = IsServed items s r ⊎ IsRefused items err s r

  module _ (a : A) (rest : List A) (err : Option Error) (s u : S) (e : Error)
      (c : call a s ≡ (failed e, u)) where
    Tries-cons : (r : Outcome B × S) → Tries rest (some (join err e)) u r → Tries (a ∷ rest) err s r
    Tries-cons r (inl served) = inl (record {
      before = a ∷ served.before;
      item = served.item;
      behind = served.behind;
      errors = e ∷ served.errors;
      world = served.world;
      split = rw served.split refl;
      fail = (u, c, served.fail);
      value = served.value;
      end = served.end;
      serves = served.serves;
      result = served.result;
    })
    Tries-cons r (inr refused) = inr (record {
      errors = e ∷ refused.errors;
      world = refused.world;
      fail = (u, c, refused.fail);
      result = refused.result;
    })

  pub first_ok-Tries :
      (items : List A) (err : Option Error) (s : S)
      → Tries items err s (first_ok call last items err s)
  unfolding first_ok
  first_ok-Tries [] err s = inr (record { errors = []; world = s; fail = refl; result = refl })
  first_ok-Tries (a ∷ rest) err s =
      called (call a s) refl (λ u e. first_ok-Tries rest (some (join err e)) u)
    where
      called :
          (o : Outcome B × S)
          → call a s ≡ o
          → ((u : S) (e : Error)
              → Tries rest (some (join err e)) u (first_ok call last rest (some (join err e)) u))
          → Tries (a ∷ rest) err s (next_node call last err (first_ok call last rest) o)
      called (ok b, u) c more = inl (record {
        before = [];
        item = a;
        behind = rest;
        errors = [];
        world = s;
        split = refl;
        fail = refl;
        value = b;
        end = u;
        serves = c;
        result = refl;
      })
      called (failed e, u) c more = Tries-cons a rest err s u e c _ (more u e)

-- A sentinel stays visible through every join.
has_sentinel-append :
    (x : Sentinel) (xs ys : List Sentinel)
    → has_sentinel x (xs ++ ys) ≡ (has_sentinel x xs || has_sentinel x ys)
has_sentinel-append x [] ys = refl
has_sentinel-append x (y ∷ xs) ys = ground (arith, has_sentinel-append x xs ys)

join-is_error :
    (x : Sentinel) (err : Option Error) (e : Error)
    → is_error (some (join err e)) x ≡ (is_error err x || is_error (some e) x)
unfolding join
join-is_error x none e = refl
join-is_error x (some d) e = has_sentinel-append x d.chain e.chain

join_all-first :
    (x : Sentinel) (err : Option Error) (es : List Error)
    → is_error err x ≡ true
    → is_error (join_all err es) x ≡ true
join_all-first x err [] h = h
join_all-first x err (e ∷ es) h =
    join_all-first x (some (join err e)) es (ground (arith, join-is_error x err e))

pub join_all-is_error :
    (x : Sentinel) (err : Option Error) (es : List Error) (e : Error)
    → In e es
    → is_error (some e) x ≡ true
    → is_error (join_all err es) x ≡ true
join_all-is_error x err [] e m h = elim m [ ]
join_all-is_error x err (d ∷ es) e (inl same) h =
    join_all-first x (some (join err d)) es (ground (arith, join-is_error x err d, rw same at h))
join_all-is_error x err (d ∷ es) e (inr m) h = join_all-is_error x (some (join err d)) es e m h

module _ {S : Type 0} (cluster : Nodes S) (is_open : Bool) where
  -- What a call does with the candidates: it fails where there are none, and tries them otherwise.
  abbrev pub Routes : {B : Type 0} → (ℕ → S → Outcome B × S) → Error → S → Outcome B × S → Type 0
  Routes call last s r =
      ((e : Error) × (t : S) × (candidate_nodes cluster is_open s ≡ (failed e, t))
        × (r ≡ (failed e, t)))
      ⊎ ((nodes : List ℕ) × (t : S) × (candidate_nodes cluster is_open s ≡ (ok nodes, t))
          × Tries call last nodes none t r)

  on_nodes-Routes :
      {B : Type 0} (call : ℕ → S → Outcome B × S) (last : Error) (s : S)
      → Routes call last s (
          on_nodes cluster
            (λ nodes. first_ok call last nodes none)
            (candidate_nodes cluster is_open s))
  on_nodes-Routes call last s = routed (candidate_nodes cluster is_open s) refl
    where
      routed :
          (c : Outcome (List ℕ) × S)
          → candidate_nodes cluster is_open s ≡ c
          → Routes call last s (on_nodes cluster (λ nodes. first_ok call last nodes none) c)
      routed (failed e, t) c = inl (e, t, c, refl)
      routed (ok nodes, t) c = inr (nodes, t, c, first_ok-Tries call last nodes none t)

  -- `BeginTx` gives the transaction of the first candidate that begins one, in order, and asks none
  -- behind it. Where all candidates fail it returns their errors joined, or a message of its own
  -- where there is none, and where the candidates cannot be had it returns that error.
  pub begin_tx-Routes :
      (s : S) → Routes cluster.begin_tx no_alive_nodes s (begin_tx cluster is_open s)
  unfolding begin_tx
  begin_tx-Routes s = on_nodes-Routes cluster.begin_tx no_alive_nodes s

  -- The `Scan` of a row that `QueryRowContext` returned gives the value of the first candidate that
  -- answers, in order, and asks none behind it. Where all candidates fail it returns their errors
  -- joined, or sql.ErrNoRows where there is none, and where the candidates cannot be had it returns
  -- that error.
  pub query_row_context-Routes :
      (query : Text) (args : List Value) (s : S)
      → Routes
          (λ node. cluster.query_row_context node query args)
          err_no_rows
          s
          (query_row_context cluster is_open query args s)
  unfolding query_row_context
  query_row_context-Routes query args s =
      on_nodes-Routes (λ node. cluster.query_row_context node query args) err_no_rows s
