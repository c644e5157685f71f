-- ===== src/Base/Runs.antt =====
-- A list of calls made in order: the relation that the loops `for _, x := range xs { if err := ...;
-- err != nil { return err } }` are held against.
use tidb_fk_test.Base.{Option, none, some, List, [], ◌∷◌}
use tidb_fk_test.Base.Errors.{Error}

-- Every call succeeds, or the first one that fails ends the run with its error, and no call behind
-- it is made.
pub data Runs {S A : Type 0} (Call : A → S → Option Error → S → Type 0)
    : List A → S → Option Error → S → Type 0 where
  finished : {s : S} → Runs Call [] s none s
  goes_on :
      {a : A} {rest : List A} {s t u : S} {e : Option Error}
      → Call a s none t
      → Runs Call rest t e u
      → Runs Call (a ∷ rest) s e u
  fails :
      {a : A} {rest : List A} {s t : S} {e : Error}
      → Call a s (some e) t
      → Runs Call (a ∷ rest) s (some e) t
