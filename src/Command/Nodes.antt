-- ===== src/Command/Nodes.antt =====
-- The nodes of a command line, and the DSNs that are made of them: `parseNodes` and `buildDSNs`, with
-- `strings.Split` and `net.SplitHostPort`. `quote` is the %q of fmt.
pub mod RoundTrip
pub mod Bounds
use tidb_fk_test.Base.{
  ℕ, suc, ℤ, pos, Bool, true, false, not, ◌||◌, Option, none, some, List, [], ◌∷◌, ◌++◌, Text,
  codes, ◌==◌, length, if◌then◌else◌,
}
use tidb_fk_test.Base.Decimal.{atoi, show_int}
use tidb_fk_test.Base.Errors.{Error, new_error}
use tidb_fk_test.Base.Ints.{ltb_ℤ}
use tidb_fk_test.Base.Spaces.{trim_space}
use tidb_fk_test.Model.{is_empty}
use tidb_fk_test.Db.Session.{Outcome, ok, failed}

abbrev pub push : ℕ → List Text → List Text
push d [] = (d ∷ []) ∷ []
push d (part ∷ parts) = (d ∷ part) ∷ parts

-- strings.Split(s, ","), with the separator as a character
unfoldable pub split : ℕ → Text → List Text
split c [] = [] ∷ []
split c (d ∷ s) = let parts = split c s in if d == c then [] ∷ parts else push d parts

unfoldable pub has : ℕ → Text → Bool
has c [] = false
has c (d ∷ s) = d == c || has c s

abbrev pub behind : ℕ → Option (Text × Text) → Option (Text × Text)
behind d none = none
behind d (some (a, b)) = some (d ∷ a, b)

-- What stands before and behind the first `c`, and the last one.
unfoldable pub cut_first : ℕ → Text → Option (Text × Text)
cut_first c [] = none
cut_first c (d ∷ s) = let rest = behind d (cut_first c s) in if d == c then some ([], s) else rest

abbrev pub last_of : Bool → ℕ → Text → Option (Text × Text) → Option (Text × Text)
last_of here d s (some (a, b)) = some (d ∷ a, b)
last_of true d s none = some ([], s)
last_of false d s none = none

unfoldable pub cut_last : ℕ → Text → Option (Text × Text)
cut_last c [] = none
cut_last c (d ∷ s) = last_of (d == c) d s (cut_last c s)

abbrev tail : Text → Text
tail [] = []
tail (c ∷ s) = s

-- hostport[0] == '[' : the first ']' stands right before the last colon.
abbrev pub bracketed : Text → Text → Text → Option (Text × Text) → Option (Text × Text)
bracketed hostport before port none = none
bracketed hostport before port (some (host, rest)) =
    if length before == suc (length host)
    then if has b'[' (tail hostport) || has b']' rest then none else some (tail host, port)
    else none

abbrev pub unbracketed : Text → Text → Text → Option (Text × Text)
unbracketed hostport host port =
    if has b':' host || (has b'[' hostport || has b']' hostport) then none else some (host, port)

abbrev pub is_bracketed : Text → Bool
is_bracketed [] = false
is_bracketed (c ∷ s) = c == b'['

abbrev pub split_at_colon : Text → Option (Text × Text) → Option (Text × Text)
split_at_colon hostport none = none
split_at_colon hostport (some (before, port)) =
    if is_bracketed hostport
    then bracketed hostport before port (cut_first b']' hostport)
    else unbracketed hostport before port

-- net.SplitHostPort; `none` is an error.
unfoldable pub split_host_port : Text → Option (Text × Text)
unfolding has cut_first cut_last
split_host_port hostport = split_at_colon hostport (cut_last b':' hostport)

pub record NodeEndpoint : Type 0 where
  pub host : Text
  pub port : ℤ

module _ (quote : Text → Text) where
  abbrev pub empty_entry : Text → Error
  empty_entry value = new_error (codes "--nodes contains an empty entry: " ++ quote value)

  abbrev pub not_host_port : Text → Error
  not_host_port part =
      new_error (codes "--nodes entry " ++ (quote part ++ codes " must be in host:port form"))

  abbrev pub invalid_port : Text → Text → Error
  invalid_port part port_text =
      new_error
        (codes "--nodes entry " ++ (quote part ++ (codes " has invalid port " ++ quote port_text)))

  abbrev pub empty_host : Text → Error
  empty_host part = new_error (codes "--nodes entry " ++ (quote part ++ codes " has an empty host"))

  abbrev pub with_port : Text → Text → Text → Option ℤ → Outcome NodeEndpoint
  with_port part host port_text none = failed (invalid_port part port_text)
  with_port part host port_text (some port) =
      if ltb_ℤ (pos 0) port
      then (if is_empty (trim_space host)
          then failed (empty_host part)
          else ok (record { host = host; port = port }))
      else failed (invalid_port part port_text)

  abbrev pub with_host_port : Text → Option (Text × Text) → Outcome NodeEndpoint
  with_host_port part none = failed (not_host_port part)
  with_host_port part (some (host, port_text)) = with_port part host port_text (atoi port_text)

  -- The body of the loop over the parts, for a part that is trimmed.
  unfoldable pub parse_entry : Text → Text → Outcome NodeEndpoint
  unfolding trim_space split_host_port atoi codes
  parse_entry value part =
      if is_empty part
      then failed (empty_entry value)
      else with_host_port part (split_host_port part)

  abbrev pub add_endpoint :
      Outcome NodeEndpoint → Outcome (List NodeEndpoint) → Outcome (List NodeEndpoint)
  add_endpoint (failed e) rest = failed e
  add_endpoint (ok endpoint) (failed e) = failed e
  add_endpoint (ok endpoint) (ok endpoints) = ok (endpoint ∷ endpoints)

  unfoldable pub parse_parts : Text → List Text → Outcome (List NodeEndpoint)
  unfolding trim_space parse_entry
  parse_parts value [] = ok []
  parse_parts value (part ∷ parts) =
      add_endpoint (parse_entry value (trim_space part)) (parse_parts value parts)

  unfoldable pub parse_nodes : Text → Outcome (List NodeEndpoint)
  unfolding split parse_parts
  parse_nodes value = parse_parts value (split b',' value)
