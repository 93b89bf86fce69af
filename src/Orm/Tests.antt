-- ===== src/Orm/Tests.antt =====
-- Runs of the query builder at fixed inputs.
use rwf.Prelude.{◌≡◌, refl, false, none, some, [], ◌∷◌, ◌++◌}
use rwf.Prelude.Int.{pos}
use rwf.Prelude.Text.{codes, replace_char}
use rwf.Orm.Value.{Value, Column, column_of, absent, placeholder, escape}
use rwf.Orm.Value.Literal.{read_quoted, escape-literal}
use rwf.Orm.Filter.{Filter, clauses_of, nil, cons, equal, and_}
use rwf.Orm.Select.{Select, new, filter_and, filter_or, apply_all}

abbrev name : Column
name = column_of [] (codes "name") absent

abbrev first : Filter
first = clauses_of (cons (equal name (placeholder 1)) nil) and_

escape-literal_example :
    read_quoted b'\'' false (escape (codes "x' OR ''=\"") ++ b'\'' ∷ codes " LIMIT 1")
    ≡ some (replace_char b'"' (codes "\"\"") (codes "x' OR ''=\""), codes " LIMIT 1")
escape-literal_example = escape-literal (codes "x' OR ''=\"") (codes " LIMIT 1") refl

-- An `and` behind an `or` panics.
abbrev by_name : Select
by_name = record (new (codes "users") (codes "id")) {
  where_clause = first;
  placeholders = Value.string (codes "a") ∷ [];
}

or_then_and_sample :
    apply_all (filter_or name Value.null ∷ filter_and name (Value.integer (pos 7)) ∷ []) by_name
    ≡ none
unfolding apply_all
or_then_and_sample = refl
