-- ===== src/Seed/Apply/Insert.antt =====
-- `newInsertStatement` of internal/seed/apply.go: one INSERT for all rows of a table.
use tidb_fk_test.Base.{
  ℕ, ◌+◌, Option, none, some, List, [], ◌∷◌, ◌++◌, Text, codes, ltb, ◌==◌, length, if◌then◌else◌,
}
use tidb_fk_test.Seed.Value.{Value, Row}

pub record ApplyStatement : Type 0 where
  pub query : Text
  pub args : List Value

-- strings.Join(items, ", ")
unfoldable pub join_commas : List Text → Text
unfolding codes
join_commas [] = []
join_commas (x ∷ []) = x
join_commas (x ∷ y ∷ rest) = x ++ (codes ", " ++ join_commas (y ∷ rest))

abbrev pub separator : ℕ → Text
separator index = if ltb 0 index then codes ", " else []

-- for valueIndex := range row, from `value_index`
unfoldable pub value_marks : ℕ → Row → Text
unfolding codes
value_marks value_index [] = []
value_marks value_index (v ∷ row) =
    separator value_index ++ (codes "?" ++ value_marks (value_index + 1) row)

-- for rowIndex, row := range rows, from `row_index`. `none` is the panic on a row of another length
-- than the columns'.
unfoldable pub append_rows : ℕ → ℕ → List Row → ApplyStatement → Option ApplyStatement
unfolding value_marks codes
append_rows want row_index [] built = some built
append_rows want row_index (row ∷ rows) built =
    let rest = append_rows want (row_index + 1) rows (record {
      query =
          built.query ++ (separator row_index ++ (codes "(" ++ (value_marks 0 row ++ codes ")")));
      args = built.args ++ row;
    }) in
    if length row == want then rest else none

-- for index, column := range updateColumns, from `index`
unfoldable pub update_clauses : ℕ → List Text → Text
unfolding codes
update_clauses index [] = []
update_clauses index (column ∷ rest) =
    separator index
    ++ (column
        ++ (codes " = VALUES(" ++ (column ++ (codes ")" ++ update_clauses (index + 1) rest))))

unfoldable pub update_text : List Text → Text
unfolding update_clauses codes
update_text [] = []
update_text (column ∷ rest) = codes " ON DUPLICATE KEY UPDATE " ++ update_clauses 0 (column ∷ rest)

pub data Built : Type 0 where
  panicked skipped : Built
  built : ApplyStatement → Built

abbrev pub finish : Text → Option ApplyStatement → Built
finish suffix none = panicked
finish suffix (some stmt) = built (record stmt { query = stmt.query ++ suffix })

unfoldable pub insert_head : Text → List Text → Text
unfolding join_commas codes
insert_head table columns =
    codes "INSERT INTO " ++ (table ++ (codes " (" ++ (join_commas columns ++ codes ") VALUES ")))

unfoldable pub new_insert_statement : Text → List Text → List Text → List Row → Built
unfolding append_rows update_text insert_head
new_insert_statement table columns update_columns [] = skipped
new_insert_statement table columns update_columns (row ∷ rows) =
    finish (update_text update_columns) (
      append_rows (length columns) 0 (row ∷ rows)
        (record { query = insert_head table columns; args = [] }))

-- The arguments of a call of `newInsertStatement`.
pub record Insert : Type 0 where
  pub table : Text
  pub columns : List Text
  pub update_columns : List Text
  pub rows : List Row

abbrev pub run_insert : Insert → Built
run_insert i = new_insert_statement i.table i.columns i.update_columns i.rows

abbrev pub push_built : Built → Option (List ApplyStatement) → Option (List ApplyStatement)
push_built panicked rest = none
push_built skipped rest = rest
push_built (built s) none = none
push_built (built s) (some rest) = some (s ∷ rest)

-- if stmt, ok := newInsertStatement(...); ok { statements = append(statements, stmt) }, once for
-- each table. `none` is a panic.
unfoldable pub collect : List Insert → Option (List ApplyStatement)
unfolding new_insert_statement
collect [] = some []
collect (i ∷ is) = push_built (run_insert i) (collect is)
