-- ===== src/Base/Errors.antt =====
-- Go errors: the message, and the sentinels that `errors.Is` finds in the chain. A nil error is `none`.
use mathlib.Core.Bool.{Bool, true, false, ◌||◌}
use mathlib.Core.List.{List, [], ◌∷◌, ◌++◌}
use mathlib.Core.Option.{Option, none, some}
use tidb_fk_test.Base.Strings.{Text, codes}

pub data Sentinel : Type 0 where
  canceled deadline_exceeded no_rows prepare_metadata_not_found not_implemented : Sentinel

pub record Error : Type 0 where
  pub text : Text
  pub chain : List Sentinel

abbrev pub same_sentinel : Sentinel → Sentinel → Bool
same_sentinel canceled canceled = true
same_sentinel deadline_exceeded deadline_exceeded = true
same_sentinel no_rows no_rows = true
same_sentinel prepare_metadata_not_found prepare_metadata_not_found = true
same_sentinel not_implemented not_implemented = true
same_sentinel _ _ = false

abbrev pub has_sentinel : Sentinel → List Sentinel → Bool
has_sentinel s [] = false
has_sentinel s (t ∷ ts) = same_sentinel s t || has_sentinel s ts

-- errors.Is(err, s)
abbrev pub is_error : Option Error → Sentinel → Bool
is_error none s = false
is_error (some e) s = has_sentinel s e.chain

-- errors.New(text), and fmt.Errorf without %w
abbrev pub new_error : Text → Error
new_error t = record { text = t; chain = [] }

-- fmt.Errorf("<prefix>: %w", err)
unfoldable pub wrap : Text → Error → Error
unfolding codes
wrap prefix e = record e { text = prefix ++ (codes ": " ++ e.text) }

-- errors.Join(err, next), for a `next` that is not nil
unfoldable pub join : Option Error → Error → Error
unfolding codes
join none e = e
join (some d) e = record { text = d.text ++ (codes "\n" ++ e.text); chain = d.chain ++ e.chain }

-- errors.Join(err, next)
abbrev pub join_errors : Option Error → Option Error → Option Error
join_errors err none = err
join_errors err (some e) = some (join err e)
