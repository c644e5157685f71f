-- ===== src/Db/Cluster/Candidates.antt =====
-- Which nodes a call goes to.
use tidb_fk_test.Base.{
  ℕ, ◌≡◌, ◌≢◌, refl, sym, ◌∙◌, ◌⊎◌, inl, inr, Bool, true, false, Option, none, some, List, [], ◌∷◌,
  ◌++◌, In, ◌==◌, ==_iff, Bool-cases, if◌then◌else◌, arith,
}
use mathlib.Core.List.{append_assoc, append-nil}
use tidb_fk_test.Base.Errors.{Error}
use tidb_fk_test.Db.Session.{Outcome, ok, failed}
use tidb_fk_test.Db.Cluster.{
  Nodes, append_others, gather, wait_failed, waited, picked, candidate_nodes,
}

-- The nodes of a list other than one, in order.
abbrev pub others : ℕ → List ℕ → List ℕ
others first [] = []
others first (node ∷ rest) =
    let more = others first rest in if node == first then more else node ∷ more

append_others-others :
    (first : ℕ) (nodes rest : List ℕ) → append_others first nodes rest ≡ nodes ++ others first rest
unfolding append_others
append_others-others first nodes [] = sym (append-nil nodes)
append_others-others first nodes (node ∷ rest) = elim (Bool-cases (node == first)) [
  | inl e ↦ rw e (append_others-others first nodes rest)
  | inr e ↦ rw e (
      append_others-others first (nodes ++ node ∷ []) rest
      ∙ append_assoc nodes (node ∷ []) (others first rest))
]

pub others-not-In : (first : ℕ) (nodes : List ℕ) → ¬ In first (others first nodes)
others-not-In first [] m = m
others-not-In first (node ∷ rest) m = split (node == first) refl m (others-not-In first rest)
  where
    split :
        (b : Bool)
        → (node == first) ≡ b
        → In first (if b then others first rest else node ∷ others first rest)
        → ¬ In first (others first rest)
        → ⊥
    split true e m absent = absent m
    split false e (inl same) absent = ground (arith, same, e)
    split false e (inr m) absent = absent m

others-In : (first x : ℕ) (nodes : List ℕ) → In x nodes → x ≢ first → In x (others first nodes)
others-In first x [] m ne = m
others-In first x (node ∷ rest) m ne =
    split (node == first) refl m (λ k. others-In first x rest k ne)
  where
    split :
        (b : Bool)
        → (node == first) ≡ b
        → In x (node ∷ rest)
        → (In x rest → In x (others first rest))
        → In x (if b then others first rest else node ∷ others first rest)
    split true e (inl same) more = absurd (ne (same ∙ (==_iff node first).0 e))
    split true e (inr m) more = more m
    split false e (inl same) more = inl same
    split false e (inr m) more = inr (more m)

module _ {S : Type 0} (cluster : Nodes S) where
  -- An alive node that the cluster picks at once or after a wait, which leaves the world `t`.
  abbrev pub IsPicked : S → ℕ → S → Type 0
  IsPicked s first t =
      (cluster.node s ≡ (some first, t))
      ⊎ ((u : S) × (cluster.node s ≡ (none, u)) × (cluster.wait_for_node u ≡ (ok first, t)))

  -- The candidates: the picked node and behind it, without that node, the nodes of the cluster.
  abbrev pub AreCandidates : S → List ℕ → S → Type 0
  AreCandidates s nodes t =
      (first : ℕ) × (u : S) × IsPicked s first u
      × (nodes ≡ first ∷ others first (cluster.nodes_iter u).0)
      × (t ≡ (cluster.nodes_iter u).1)
      × ((x : ℕ) → In x (cluster.nodes_iter u).0 → In x nodes)
      × (¬ In first (others first (cluster.nodes_iter u).0))

  gather-AreCandidates :
      (s : S) (first : ℕ) (u : S) (nodes : List ℕ) (t : S)
      → IsPicked s first u
      → gather cluster first u ≡ (ok nodes, t)
      → AreCandidates s nodes t
  gather-AreCandidates s first u nodes t p e =
      let iter = (cluster.nodes_iter u).0 in
      let list : nodes ≡ first ∷ others first iter =
        cc (e, append_others-others first (first ∷ []) iter) in
      (first, u, p, list, cc, λ x m. rw list (member x m), others-not-In first iter)
    where
      member :
          (x : ℕ)
          → In x (cluster.nodes_iter u).0
          → In x (first ∷ others first (cluster.nodes_iter u).0)
      member x m = elim (Bool-cases (x == first)) [
        | inl e ↦ inl ((==_iff x first).0 e)
        | inr e ↦ inr (others-In first x _ m (λ f. ground (arith, e, f)))
      ]

  -- Where candidates are given, the first is an alive node that the cluster picked, behind it stand
  -- the other nodes that the cluster lists, and each node that it lists is a candidate; the first
  -- one does not come again.
  pub candidate_nodes-AreCandidates :
      (is_open : Bool) (s : S) (nodes : List ℕ) (t : S)
      → candidate_nodes cluster is_open s ≡ (ok nodes, t)
      → AreCandidates s nodes t
  unfolding candidate_nodes
  candidate_nodes-AreCandidates false s nodes t e = absurd (cc)
  candidate_nodes-AreCandidates true s nodes t e = at_once (cluster.node s) refl e
    where
      cluster_failed :
          (err : Error) (c : Option Error × S) → wait_failed cluster err c ≡ (ok nodes, t) → ⊥
      cluster_failed err (none, u) f = cc
      cluster_failed err (some d, u) f = cc

      after_wait :
          (u : S)
          → cluster.node s ≡ (none, u)
          → (w : Outcome ℕ × S) → cluster.wait_for_node u ≡ w
          → waited cluster w ≡ (ok nodes, t)
          → AreCandidates s nodes t
      after_wait u p (ok first, v) w f = gather-AreCandidates s first v nodes t (inr (u, p, w)) f
      after_wait u p (failed err, v) w f = absurd (cluster_failed err (cluster.err v) f)

      at_once :
          (p : Option ℕ × S)
          → cluster.node s ≡ p
          → picked cluster p ≡ (ok nodes, t)
          → AreCandidates s nodes t
      at_once (some first, u) p f = gather-AreCandidates s first u nodes t (inl p) f
      at_once (none, u) p f = after_wait u p (cluster.wait_for_node u) refl f
