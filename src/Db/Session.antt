-- ===== src/Db/Session.antt =====
-- internal/db/session.go: the handles through which the program reaches the database. What the
-- database does is a parameter: each call is a function on an abstract world `S`.
use tidb_fk_test.Base.{ℕ, Option, List, Text}
use tidb_fk_test.Base.Errors.{Error}
use tidb_fk_test.Seed.Value.{Value}

-- A Go call that returns a value and an error.
pub data Outcome {ℓ} (A : Type ℓ) : Type ℓ where
  ok : A → Outcome A
  failed : Error → Outcome A

-- ExecContext: the query, its arguments, and the error if any.
abbrev pub ExecContext : Type 0 → Type 0
ExecContext S = Text → List Value → S → Option Error × S

-- QueryRowContext(...).Scan(&n) of one integer.
abbrev pub QueryRowContext : Type 0 → Type 0
QueryRowContext S = Text → List Value → S → Outcome ℕ × S

pub record TxSession (S : Type 0) : Type 0 where
  pub exec_context : ExecContext S
  pub query_row_context : QueryRowContext S

pub record Tx (S : Type 0) : Type 0 where
  pub session : TxSession S
  pub commit : S → Option Error × S
  pub rollback : S → Option Error × S

abbrev pub BeginTx : Type 0 → Type 0
BeginTx S = S → Outcome (Tx S) × S
