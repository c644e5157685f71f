-- ===== src/Command/Nodes/RoundTrip.antt =====
-- `parseNodes` reads what is written out of endpoints.
use tidb_fk_test.Base.{
  ℕ, pos, ◌≡◌, ◌≢◌, refl, ap, ◌<◌, ◌^◌, Bool, true, false, not, ◌||◌, none, some, List, [], ◌∷◌,
  ◌++◌, map, Text, ◌==◌, arith, All, All-imp, All-append,
}
use tidb_fk_test.Base.Decimal.{AreDigits, is_digit, show_nat, show_nat-AreDigits, atoi-show_nat}
use tidb_fk_test.Base.Spaces.{is_space, trim_left, trim_right, trim_space, put}
use tidb_fk_test.Model.{is_empty}
use tidb_fk_test.Db.Session.{ok}
use tidb_fk_test.Command.Nodes.{
  NodeEndpoint, split, has, cut_last, is_bracketed, split_host_port, parse_entry, parse_parts,
  parse_nodes,
}

-- Neither a separator nor a space.
unfoldable pub plain : ℕ → Bool
unfolding is_space
plain c = not (c == b',' || (c == b':' || (c == b'[' || (c == b']' || is_space c))))

abbrev pub ArePlain : Text → Type 0
ArePlain s = All (λ c. plain c ≡ true) s

-- No character of the text is `c`.
abbrev Lacks : ℕ → Text → Type 0
Lacks c s = All (λ d. (d == c) ≡ false) s

plain-facts :
    (c : ℕ)
    → plain c ≡ true
    → ((c == b',') ≡ false)
      × ((c == b':') ≡ false)
      × ((c == b'[') ≡ false)
      × ((c == b']') ≡ false)
      × (is_space c ≡ false)
unfolding plain
plain-facts c h = ground (arith, h)

digit-plain : (c : ℕ) → is_digit c ≡ true → plain c ≡ true
unfolding plain is_space
digit-plain c h = ground (arith, h)

digits-ArePlain : (s : Text) → AreDigits s → ArePlain s
digits-ArePlain s d = All-imp _ _ s digit-plain d

has_none : (c : ℕ) (s : Text) → Lacks c s → has c s ≡ false
unfolding has
has_none c [] h = refl
has_none c (d ∷ s) h = rw (h.0, has_none c s h.1) refl

trim_right-solid : (s : Text) → All (λ c. is_space c ≡ false) s → trim_right s ≡ s
unfolding trim_right
trim_right-solid [] h = refl
trim_right-solid (c ∷ []) h = rw h.0 refl
trim_right-solid (c ∷ d ∷ s) h = ap (put c) (trim_right-solid (d ∷ s) h.1)

trim_left-solid : (s : Text) → All (λ c. is_space c ≡ false) s → trim_left s ≡ s
unfolding trim_left
trim_left-solid [] h = refl
trim_left-solid (c ∷ s) h = rw h.0 refl

trim_space-solid : (s : Text) → All (λ c. is_space c ≡ false) s → trim_space s ≡ s
unfolding trim_space
trim_space-solid s h = rw (trim_left-solid s h) (trim_right-solid s h)

split_none : (c : ℕ) (s : Text) → Lacks c s → split c s ≡ s ∷ []
unfolding split
split_none c [] h = refl
split_none c (d ∷ s) h = rw (h.0, split_none c s h.1) refl

split_first : (c : ℕ) (s rest : Text) → Lacks c s → split c (s ++ c ∷ rest) ≡ s ∷ split c rest
unfolding split
split_first c [] rest h = ground arith
split_first c (d ∷ s) rest h = rw (h.0, split_first c s rest h.1) refl

cut_last-none : (c : ℕ) (s : Text) → Lacks c s → cut_last c s ≡ none
unfolding cut_last
cut_last-none c [] h = refl
cut_last-none c (d ∷ s) h = rw (cut_last-none c s h.1, h.0) refl

cut_last_last : (c : ℕ) (s rest : Text) → Lacks c rest → cut_last c (s ++ c ∷ rest) ≡ some (s, rest)
unfolding cut_last
cut_last_last c [] rest h = rw (cut_last-none c rest h) (ground arith)
cut_last_last c (d ∷ s) rest h = rw (cut_last_last c s rest h) refl

-- host:port, and such entries with commas between them.
abbrev pub node_text : Text × ℕ → Text
node_text (host, port) = host ++ b':' ∷ show_nat port

abbrev pub nodes_text : List (Text × ℕ) → Text
nodes_text [] = []
nodes_text (node ∷ []) = node_text node
nodes_text (node ∷ next ∷ rest) = node_text node ++ b',' ∷ nodes_text (next ∷ rest)

abbrev pub endpoint_of : Text × ℕ → NodeEndpoint
endpoint_of (host, port) = record { host = host; port = pos port }

-- A host of plain characters, one at least, and a port that an `int` holds.
abbrev pub IsNode : Text × ℕ → Type 0
IsNode (host, port) = (host ≢ []) × ArePlain host × (0 < port) × (port < 2 ^ 63)

module _ (P : ℕ → Type 0) (every : (c : ℕ) → plain c ≡ true → P c) where
  All-host : (host : Text) → ArePlain host → All P host
  All-host host h = All-imp _ _ host every h

  All-port : (port : ℕ) → All P (show_nat port)
  All-port port = All-host (show_nat port) (digits-ArePlain _ (show_nat-AreDigits port))

  All-node_text : (host : Text) (port : ℕ) → ArePlain host → P b':' → All P (node_text (host, port))
  All-node_text host port h colon =
      All-append P host (b':' ∷ show_nat port) (All-host host h) (colon, All-port port)

no_colon : (s : Text) → ArePlain s → Lacks b':' s
no_colon s h = All-host (λ c. (c == b':') ≡ false) (λ c p. (plain-facts c p).1) s h

solid : (s : Text) → ArePlain s → All (λ c. is_space c ≡ false) s
solid s h = All-host (λ c. is_space c ≡ false) (λ c p. (plain-facts c p).4) s h

module _ (host : Text) (port : ℕ) (node : IsNode (host, port)) where
  text : Text
  text = node_text (host, port)

  text-Lacks-comma : Lacks b',' text
  unfolding text
  text-Lacks-comma =
      All-node_text (λ c. (c == b',') ≡ false) (λ c p. (plain-facts c p).0) host port node.1 refl

  text-has-open : has b'[' text ≡ false
  unfolding text
  text-has-open =
      has_none b'[' (node_text (host, port)) (
        All-node_text (λ c. (c == b'[') ≡ false) (λ c p. (plain-facts c p).2) host port node.1 refl)

  text-has-close : has b']' text ≡ false
  unfolding text
  text-has-close =
      has_none b']' (node_text (host, port)) (
        All-node_text (λ c. (c == b']') ≡ false) (λ c p. (plain-facts c p).3) host port node.1 refl)

  text-solid : All (λ c. is_space c ≡ false) text
  unfolding text is_space
  text-solid =
      All-node_text (λ c. is_space c ≡ false) (λ c p. (plain-facts c p).4) host port node.1 refl

  host-some : (is_empty host ≡ false) × (is_bracketed (host ++ b':' ∷ show_nat port) ≡ false)
  host-some = split host node
    where
      split :
          (h : Text)
          → IsNode (h, port)
          → (is_empty h ≡ false) × (is_bracketed (h ++ b':' ∷ show_nat port) ≡ false)
      split [] n = absurd (n.0 refl)
      split (c ∷ h) n = (refl, (plain-facts c n.1.0).2)

  text-split : split_host_port text ≡ some (host, show_nat port)
  unfolding split_host_port text
  text-split =
      rw
        (
          cut_last_last b':' host (show_nat port)
              (no_colon (show_nat port) (digits-ArePlain _ (show_nat-AreDigits port))),
          host-some.1,
          has_none b':' host (no_colon host node.1),
          text-has-open,
          text-has-close,
        )
        refl

  text-some : is_empty text ≡ false
  unfolding text
  text-some = split host host-some.0
    where
      split : (h : Text) → is_empty h ≡ false → is_empty (h ++ b':' ∷ show_nat port) ≡ false
      split [] e = cc
      split (c ∷ h) e = refl

  parse_entry-text :
      (quote : Text → Text) (value : Text)
      → parse_entry quote value text ≡ ok (endpoint_of (host, port))
  unfolding parse_entry
  parse_entry-text quote value =
      rw
        (
          text-some,
          text-split,
          atoi-show_nat port node.3,
          trim_space-solid host (solid host node.1),
          host-some.0,
        )
        (ground (arith, node.2))

parse_parts-nodes :
    (quote : Text → Text) (value : Text) (nodes : List (Text × ℕ))
    → nodes ≢ []
    → All IsNode nodes
    → parse_parts quote value (split b',' (nodes_text nodes)) ≡ ok (map endpoint_of nodes)
unfolding parse_parts text
parse_parts-nodes quote value [] ne h = absurd (ne refl)
parse_parts-nodes quote value ((host, port) ∷ []) ne (h, _) =
    let node = node_text (host, port) in
    rw
      (
        split_none b',' node (text-Lacks-comma host port h),
        trim_space-solid node (text-solid host port h),
        parse_entry-text host port h quote value,
      )
      refl
parse_parts-nodes quote value ((host, port) ∷ next ∷ rest) ne (h, hs) =
    let node = node_text (host, port) in
    rw
      (
        split_first b',' node (nodes_text (next ∷ rest)) (text-Lacks-comma host port h),
        trim_space-solid node (text-solid host port h),
        parse_entry-text host port h quote value,
        parse_parts-nodes quote value (next ∷ rest) (λ e. cc) hs,
      )
      refl

-- The endpoints of a list of nodes, one at least, come back from the text that lists them as
-- host:port with commas between: for hosts without commas, colons, brackets and spaces that are not
-- empty, and ports from 1 to the largest `int`.
pub parse_nodes-nodes_text :
    (quote : Text → Text) (nodes : List (Text × ℕ))
    → nodes ≢ []
    → All IsNode nodes
    → parse_nodes quote (nodes_text nodes) ≡ ok (map endpoint_of nodes)
unfolding parse_nodes
parse_nodes-nodes_text quote nodes ne h = parse_parts-nodes quote (nodes_text nodes) nodes ne h
