-- ===== src/Command/Nodes/Bounds.antt =====
-- What every endpoint that `parseNodes` accepts is like.
use tidb_fk_test.Base.{
  ℕ, zero, suc, ℤ, pos, negsuc, ◌≡◌, refl, ap, ◌∙◌, ◌<◌, ◌^◌, false, Option, none, some, List, [],
  ◌∷◌, Text, ◌==◌, ltb, length, if◌then◌else◌, arith, All, Bool-cases, inl, inr,
}
use tidb_fk_test.Base.Decimal.{atoi, some_digits, positive, negative}
use tidb_fk_test.Base.Ints.{ltb_ℤ}
use tidb_fk_test.Base.Spaces.{trim_space}
use tidb_fk_test.Model.{is_empty}
use tidb_fk_test.Db.Session.{Outcome, ok, failed}
use tidb_fk_test.Command.Nodes.{
  NodeEndpoint, empty_host, push, split, split_host_port, with_port, with_host_port, parse_entry,
  add_endpoint, parse_parts, parse_nodes,
}

abbrev pub count : ℕ → Text → ℕ
count c [] = 0
count c (d ∷ s) = let n = count c s in if d == c then suc n else n

-- A host that is not blank, and a port from 1 to the largest `int`.
abbrev pub IsEndpoint : NodeEndpoint → Type 0
IsEndpoint e =
    (is_empty (trim_space e.host) ≡ false) × ((n : ℕ) × (e.port ≡ pos n) × (0 < n) × (n < 2 ^ 63))

length-split : (c : ℕ) (s : Text) → length (split c s) ≡ suc (count c s)
unfolding split
length-split c [] = refl
length-split c (d ∷ s) = elim (Bool-cases (d == c)) [
  | inl e ↦ rw e (ap suc (length-split c s))
  | inr e ↦ rw e (pushed (split c s) (length-split c s))
]
  where
    pushed :
        (parts : List Text)
        → length parts ≡ suc (count c s)
        → length (push d parts) ≡ suc (count c s)
    pushed [] h = omega arith
    pushed (p ∷ parts) h = h

positive-bound : (o : Option ℕ) (p : ℤ) → positive o ≡ some p → (n : ℕ) × (p ≡ pos n) × (n < 2 ^ 63)
positive-bound none p e = absurd (cc)
positive-bound (some n) p e = elim (Bool-cases (ltb n (2 ^ 63))) [
  | inl h ↦ (n, cc (rw h at e), ground (arith, h))
  | inr h ↦ absurd (cc (rw h at e))
]

positive-pos : (o : Option ℕ) (n : ℕ) → positive o ≡ some (pos n) → n < 2 ^ 63
positive-pos o n e =
    let (m, q, h) = positive-bound o (pos n) e in let same : n ≡ m = cc in rw same h

negative-pos : (o : Option ℕ) (n : ℕ) → negative o ≡ some (pos n) → n < 2 ^ 63
negative-pos none n e = absurd (cc)
negative-pos (some zero) n e = let same : 0 ≡ n = cc in rw (← same) (omega arith)
negative-pos (some (suc m)) n e = elim (Bool-cases (ltb m (2 ^ 63))) [
  | inl h ↦ absurd (cc (rw h at e))
  | inr h ↦ absurd (cc (rw h at e))
]

atoi-pos : (s : Text) (n : ℕ) → atoi s ≡ some (pos n) → n < 2 ^ 63
unfolding atoi
atoi-pos [] n e = absurd (cc)
atoi-pos (c ∷ s) n e = elim (Bool-cases (c == b'-')) [
  | inl h ↦ negative-pos (some_digits s) n (rw h at e)
  | inr h ↦ elim (Bool-cases (c == b'+')) [
    | inl k ↦ positive-pos (some_digits s) n (rw (h, k) at e)
    | inr k ↦ positive-pos (some_digits (c ∷ s)) n (rw (h, k) at e)
  ]
]

module _ (quote : Text → Text) where
  named :
      (part host : Text) (n : ℕ) (e : NodeEndpoint)
      → n < 2 ^ 63
      → 0 < n
      → (if is_empty (trim_space host)
          then failed (empty_host quote part)
          else ok (record { host = host; port = pos n }))
        ≡ ok e
      → IsEndpoint e
  named part host n e b p q = elim (Bool-cases (is_empty (trim_space host))) [
    | inl h ↦ absurd (cc (rw h at q))
    | inr h ↦
        let same : record { host = host; port = pos n } ≡ e = cc (rw h at q) in
        rw (← same) (h, (n, refl, p, b))
  ]

  with_port-IsEndpoint :
      (part host port_text : Text) (o : Option ℤ) (e : NodeEndpoint)
      → ((n : ℕ) → o ≡ some (pos n) → n < 2 ^ 63)
      → with_port quote part host port_text o ≡ ok e
      → IsEndpoint e
  with_port-IsEndpoint part host port_text none e b q = absurd (cc)
  with_port-IsEndpoint part host port_text (some (negsuc n)) e b q = absurd (ground (arith, q))
  with_port-IsEndpoint part host port_text (some (pos n)) e b q =
      elim (Bool-cases (ltb_ℤ (pos 0) (pos n))) [
        | inl h ↦ named part host n e (b n refl) (ground (arith, h)) (rw h at q)
        | inr h ↦ absurd (cc (rw h at q))
      ]

  with_host_port-IsEndpoint :
      (part : Text) (o : Option (Text × Text)) (e : NodeEndpoint)
      → with_host_port quote part o ≡ ok e
      → IsEndpoint e
  with_host_port-IsEndpoint part none e q = absurd (cc)
  with_host_port-IsEndpoint part (some (host, port_text)) e q =
      with_port-IsEndpoint part host port_text (atoi port_text) e (atoi-pos port_text) q

  parse_entry-IsEndpoint :
      (value part : Text) (e : NodeEndpoint) → parse_entry quote value part ≡ ok e → IsEndpoint e
  unfolding parse_entry
  parse_entry-IsEndpoint value part e q = elim (Bool-cases (is_empty part)) [
    | inl h ↦ absurd (cc (rw h at q))
    | inr h ↦ with_host_port-IsEndpoint part (split_host_port part) e (rw h at q)
  ]

  parse_parts-bounds :
      (value : Text) (parts : List Text) (es : List NodeEndpoint)
      → parse_parts quote value parts ≡ ok es
      → (length es ≡ length parts) × All IsEndpoint es
  unfolding parse_parts
  parse_parts-bounds value [] es q = let same : [] ≡ es = cc in rw (← same) (refl, tt)
  parse_parts-bounds value (part ∷ parts) es q =
      added (parse_entry quote value (trim_space part)) (parse_parts quote value parts)
        (parse_entry-IsEndpoint value (trim_space part)) (parse_parts-bounds value parts) es q
    where
      added :
          (o : Outcome NodeEndpoint) (r : Outcome (List NodeEndpoint))
          → ((e : NodeEndpoint) → o ≡ ok e → IsEndpoint e)
          → ((es : List NodeEndpoint) → r ≡ ok es → (length es ≡ length parts) × All IsEndpoint es)
          → (es : List NodeEndpoint) → add_endpoint quote o r ≡ ok es
          → (length es ≡ suc (length parts)) × All IsEndpoint es
      added (failed d) r one more es q = absurd (cc)
      added (ok e) (failed d) one more es q = absurd (cc)
      added (ok e) (ok rest) one more es q =
          let (l, h) = more rest refl in
          let same : e ∷ rest ≡ es = cc in rw (← same) (ap suc l, (one e refl, h))

  -- Where `parseNodes` returns endpoints, there is one for each entry between commas, in number; each
  -- has a host that is not blank, and a port from 1 to the largest `int`.
  pub parse_nodes-IsEndpoint :
      (value : Text) (es : List NodeEndpoint)
      → parse_nodes quote value ≡ ok es
      → (length es ≡ suc (count b',' value)) × All IsEndpoint es
  unfolding parse_nodes
  parse_nodes-IsEndpoint value es q =
      let (l, h) = parse_parts-bounds value (split b',' value) es q in
      (l ∙ length-split b',' value, h)
