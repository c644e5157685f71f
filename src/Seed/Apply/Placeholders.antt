-- ===== src/Seed/Apply/Placeholders.antt =====
-- The statements of `newInsertStatement` take as many arguments as they have placeholders.
use mathlib.Core.Path.{subst}
use tidb_fk_test.Base.{
  ℕ, ◌+◌, ◌*◌, ◌≡◌, ◌≢◌, refl, ap, none, some, List, [], ◌∷◌, ◌++◌, inl, inr, Text, codes, arith,
  ◌==◌, length, length-append, All, if◌then◌else◌, ==_iff, In,
}
use tidb_fk_test.Seed.Value.{Row}
use tidb_fk_test.Seed.Apply.Insert.{
  ApplyStatement, Insert, panicked, built, join_commas, separator, value_marks, append_rows,
  push_built, run_insert, update_clauses, update_text, insert_head, new_insert_statement, collect,
}

-- The number of question marks in a query.
abbrev pub marks : Text → ℕ
marks [] = 0
marks (c ∷ s) = (if c == b'?' then 1 else 0) + marks s

abbrev pub HasNoMarks : Text → Type 0
HasNoMarks t = marks t ≡ 0

marks-append : (s t : Text) → marks (s ++ t) ≡ marks s + marks t
marks-append [] t = omega arith
marks-append (c ∷ s) t = omega (arith, marks-append s t)

marks-separator : (index : ℕ) → marks (separator index) ≡ 0
unfolding codes
marks-separator index = ground arith

marks-value_marks : (index : ℕ) (row : Row) → marks (value_marks index row) ≡ length row
unfolding value_marks codes
marks-value_marks index [] = refl
marks-value_marks index (v ∷ row) =
    rw (marks-append, marks-separator index) (omega (arith, marks-value_marks (index + 1) row))

marks-join_commas : (columns : List Text) → All HasNoMarks columns → marks (join_commas columns) ≡ 0
unfolding join_commas codes
marks-join_commas [] h = refl
marks-join_commas (x ∷ []) h = h.0
marks-join_commas (x ∷ y ∷ rest) h =
    rw marks-append (omega (arith, marks-join_commas (y ∷ rest) h.1, h.0))

marks-insert_head :
    (table : Text) (columns : List Text)
    → HasNoMarks table
    → All HasNoMarks columns
    → marks (insert_head table columns) ≡ 0
unfolding insert_head codes
marks-insert_head table columns t h = omega (
  arith,
  marks-append table (codes " (" ++ (join_commas columns ++ codes ") VALUES ")),
  marks-append (join_commas columns) (codes ") VALUES "),
  marks-join_commas columns h,
)

marks-update_clauses :
    (index : ℕ) (columns : List Text)
    → All HasNoMarks columns
    → marks (update_clauses index columns) ≡ 0
unfolding update_clauses codes
marks-update_clauses index [] h = refl
marks-update_clauses index (c ∷ rest) h = omega (
  arith,
  marks-append (separator index)
      (c ++ (codes " = VALUES(" ++ (c ++ (codes ")" ++ update_clauses (index + 1) rest)))),
  marks-append c (codes " = VALUES(" ++ (c ++ (codes ")" ++ update_clauses (index + 1) rest))),
  marks-append c (codes ")" ++ update_clauses (index + 1) rest),
  marks-separator index,
  marks-update_clauses (index + 1) rest h.1,
)

marks-update_text : (columns : List Text) → All HasNoMarks columns → marks (update_text columns) ≡ 0
unfolding update_text codes
marks-update_text [] h = refl
marks-update_text (c ∷ rest) h = omega (arith, marks-update_clauses 0 (c ∷ rest) h)

-- Rows of the columns' width do not panic.
abbrev pub HasWidth : ℕ → Row → Type 0
HasWidth want row = length row ≡ want

-- What `stmt` has more than `base`: `n` placeholders, and as many arguments.
abbrev Grows : ApplyStatement → ℕ → ApplyStatement → Type 0
Grows base n stmt =
    (marks stmt.query ≡ marks base.query + n) × (length stmt.args ≡ length base.args + n)

abbrev append_row : ℕ → ApplyStatement → Row → ApplyStatement
append_row row_index base row = record {
  query = base.query ++ (separator row_index ++ (codes "(" ++ (value_marks 0 row ++ codes ")")));
  args = base.args ++ row;
}

append_row-Grows :
    (row_index : ℕ) (base : ApplyStatement) (row : Row)
    → Grows base (length row) (append_row row_index base row)
unfolding codes
append_row-Grows i base row = (
  omega (
    arith,
    marks-append base.query (separator i ++ (codes "(" ++ (value_marks 0 row ++ codes ")"))),
    marks-append (separator i) (codes "(" ++ (value_marks 0 row ++ codes ")")),
    marks-separator i,
    marks-append (value_marks 0 row) (codes ")"),
    marks-value_marks 0 row,
  ),
  length-append base.args row,
)

append_rows_total :
    (want row_index : ℕ) (rows : List Row) (base : ApplyStatement)
    → All (HasWidth want) rows
    → (stmt : ApplyStatement) × (append_rows want row_index rows base ≡ some stmt)
      × Grows base (length rows * want) stmt
unfolding append_rows
append_rows_total want i [] base h = (base, refl, (omega arith, omega arith))
append_rows_total want i (row ∷ rows) base h =
    let (stmt, e, g) = append_rows_total want (i + 1) rows (append_row i base row) h.1 in
    let step = append_row-Grows i base row in
    (
      stmt,
      rw ((==_iff (length row) want).1 h.0) e,
      (omega (arith, g, step), omega (arith, g, step)),
    )

-- A row of another width panics.
append_rows_panic :
    (want row_index : ℕ) (rows : List Row) (row : Row) (base : ApplyStatement)
    → In row rows
    → length row ≢ want
    → append_rows want row_index rows base ≡ none
unfolding append_rows
append_rows_panic want i [] row base m ne = elim m [ ]
append_rows_panic want i (r ∷ rows) row base (inl e) ne =
    ground (arith, ne, ap (λ (x : Row). length x) e)
append_rows_panic want i (r ∷ rows) row base (inr m) ne =
    ground (arith, append_rows_panic want (i + 1) rows row (append_row i base r) m ne)

-- The statement takes one argument for each placeholder.
abbrev pub IsBound : ApplyStatement → Type 0
IsBound stmt = marks stmt.query ≡ length stmt.args

-- For a table, columns and rows as wide as the columns, at least one, `newInsertStatement` builds a
-- statement without a panic: it has a placeholder for each argument, and the arguments are as many
-- as the rows times the columns. (Names hold no question mark.)
pub new_insert_statement-IsBound :
    (table : Text) (columns update_columns : List Text) (row : Row) (rows : List Row)
    → HasNoMarks table
    → All HasNoMarks columns
    → All HasNoMarks update_columns
    → All (HasWidth (length columns)) (row ∷ rows)
    → (stmt : ApplyStatement) × (new_insert_statement table columns update_columns (row ∷ rows)
        ≡ built stmt)
      × IsBound stmt
      × (length stmt.args ≡ length (row ∷ rows) * length columns)
unfolding new_insert_statement
new_insert_statement-IsBound table columns updates row rows t c u w =
    let head : ApplyStatement = record { query = insert_head table columns; args = [] } in
    let (stmt, e, g) = append_rows_total (length columns) 0 (row ∷ rows) head w in
    (
      record stmt { query = stmt.query ++ update_text updates },
      rw e,
      omega (
        arith,
        g,
        marks-append stmt.query (update_text updates),
        marks-update_text updates u,
        marks-insert_head table columns t c,
      ),
      omega (arith, g),
    )

-- If some row has not one value for each column, `newInsertStatement` panics.
pub new_insert_statement_panics :
    (table : Text) (columns update_columns : List Text) (rows : List Row) (row : Row)
    → In row rows
    → length row ≢ length columns
    → new_insert_statement table columns update_columns rows ≡ panicked
unfolding new_insert_statement
new_insert_statement_panics table columns updates [] row m ne = elim m [ ]
new_insert_statement_panics table columns updates (r ∷ rows) row m ne =
    rw (append_rows_panic (length columns) 0 (r ∷ rows) row _ m ne)

-- What makes an insert safe: names without question marks, and rows as wide as the columns.
pub record IsSafe (i : Insert) : Type 0 where
  pub table : HasNoMarks i.table
  pub columns : All HasNoMarks i.columns
  pub update_columns : All HasNoMarks i.update_columns
  pub rows : All (HasWidth (length i.columns)) i.rows

pub collect_total :
    (is : List Insert)
    → All IsSafe is
    → (stmts : List ApplyStatement) × (collect is ≡ some stmts) × All IsBound stmts
unfolding collect
collect_total [] h = ([], refl, tt)
collect_total (i ∷ is) h =
    let (stmts, e, b) = collect_total is h.1 in rw e (first i.rows refl stmts b)
  where
    first :
        (rows : List Row)
        → i.rows ≡ rows
        → (stmts : List ApplyStatement) → All IsBound stmts
        → (out : List ApplyStatement) × (push_built (run_insert i) (some stmts) ≡ some out)
          × All IsBound out
    first [] e stmts b = (stmts, rw (e, new_insert_statement), b)
    first (row ∷ rows) e stmts b =
        let w = subst (All (HasWidth (length i.columns))) e h.0.rows in
        let (stmt, built_stmt, bound, _) =
          new_insert_statement-IsBound i.table i.columns i.update_columns row rows h.0.table
            h.0.columns h.0.update_columns w in
        (stmt ∷ stmts, rw (e, built_stmt), (bound, b))
