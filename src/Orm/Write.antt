-- ===== src/Orm/Write.antt =====
-- `Update` of rwf/src/model/update.rs and `Insert` of insert.rs. The names of the model's table, key
-- and columns, which a derived trait gives, are arguments. `none` is a panic.
pub mod Numbering
use rwf.Prelude.{
  ℕ, ◌+◌, Option, some, List, [], ◌∷◌, ◌++◌, map, Bool, false, is_empty, if◌then◌else◌,
}
use rwf.Prelude.Text.{Text, codes, join, print_nat}
use rwf.Orm.Value.{Value, Column, Printers, new_column, unqualify, column_sql, escape, ◌>>=◌}
use rwf.Orm.Filter
use rwf.Orm.Filter.{Filter, empty, add, where_sql}
use rwf.Orm.Clauses.{column_list}
use rwf.Orm.Select.{Select, add_placeholder}

pub record Update : Type 0 where
  pub table_name : Text
  pub primary_key : Text
  pub placeholders : List Value
  pub columns : List Column
  pub where_clause : Filter

-- `Update::empty`
abbrev empty_update : Text → Text → Update
empty_update table key = record {
  table_name = table;
  primary_key = key;
  placeholders = [];
  columns = [];
  where_clause = empty;
}

-- `Update::columns`, which stops with the shorter of the two lists
unfoldable pub set_columns : List Column → List Value → Update → Update
set_columns (c ∷ cs) (v ∷ vs) u = set_columns cs vs (record u {
  columns = u.columns ++ c ∷ [];
  placeholders = (add_placeholder v u.placeholders).1;
})
set_columns cs vs u = u

-- `Update::from_columns`
unfoldable pub update_columns : Text → Text → Value → List Column → List Value → Update
unfolding set_columns add new_column
update_columns table key id cs vs =
    let (bound, ps) = add_placeholder id [] in
    set_columns cs vs (record (empty_update table key) {
      placeholders = ps;
      where_clause = add (new_column [] key) bound empty;
    })

-- `From<Select<T>> for Update<T>`
abbrev pub update_selected : Text → Text → Select → Update
update_selected table key s = record (empty_update table key) {
  placeholders = s.placeholders;
  where_clause = s.where_clause;
}

-- Columns with numbers, from the first on
pub numbered : ℕ → List Column → List (Column × ℕ)
numbered first [] = []
numbered first (c ∷ cs) = (c, first) ∷ numbered (first + 1) cs

-- The numbers of the placeholders that an update sets its columns to
pub sets : Update → List (Column × ℕ)
unfolding numbered Filter.placeholders
sets u = numbered (Filter.placeholders u.where_clause + 1) u.columns

pub record Insert : Type 0 where
  pub table_name : Text
  pub columns : List Column
  pub placeholders : List Value
  pub no_conflict : Bool
  pub unique_by : List Column

unfoldable pub add_all : List Value → List Value → List Value
add_all [] ps = ps
add_all (v ∷ vs) ps = add_all vs (add_placeholder v ps).1

-- `Insert::from_columns`
unfoldable pub insert_columns : Text → List Column → List Value → Insert
unfolding add_all unqualify
insert_columns table cs vs = record {
  table_name = table;
  columns = map unqualify cs;
  placeholders = add_all vs [];
  no_conflict = false;
  unique_by = [];
}

module _ (p : Printers) where
  set_list : List (Column × ℕ) → Option (List Text)
  unfolding column_sql print_nat
  set_list [] = some []
  set_list ((c, n) ∷ rest) = do
    t ← column_sql p c
    ts ← set_list rest
    some ((t ++ (codes " = $" ++ print_nat n)) ∷ ts)

  -- `ToSql for Update`
  unfoldable pub update_sql : Update → Option Text
  unfolding set_list sets where_sql escape join
  update_sql u = do
    ts ← set_list (sets u)
    filtered ← where_sql p u.where_clause
    some (
        codes "UPDATE \""
        ++ (escape u.table_name
            ++ (codes "\" SET " ++ (join (codes ", ") ts ++ (filtered ++ codes " RETURNING *")))))

  excluded_list : List Column → Option (List Text)
  unfolding column_sql
  excluded_list [] = some []
  excluded_list (c ∷ cs) = do
    t ← column_sql p c
    ts ← excluded_list cs
    some ((t ++ (codes " = EXCLUDED." ++ t)) ∷ ts)

  conflict_sql : Insert → Option Text
  unfolding column_list excluded_list unqualify join
  conflict_sql i =
      if i.no_conflict
      then some (codes "ON CONFLICT DO NOTHING ")
      else if is_empty i.unique_by
      then some []
      else (do
        cs ← column_list p (map unqualify i.unique_by)
        es ← excluded_list (map unqualify i.unique_by)
        some (
            codes "ON CONFLICT ("
            ++ (join (codes ", ") cs
                ++ (codes ") DO UPDATE SET " ++ (join (codes ", ") es ++ codes " ")))))

  -- `ToSql for Insert`
  unfoldable pub insert_sql : Insert → Option Text
  unfolding column_list conflict_sql numbered print_nat escape join
  insert_sql i = do
    cs ← column_list p i.columns
    conflict ← conflict_sql i
    some (
        codes "INSERT INTO \""
        ++ (escape i.table_name
            ++ (codes "\" ("
                ++ (join (codes ", ") cs
                    ++ (codes ") VALUES ("
                        ++ (join (codes ", ")
                              (map (λ (c, n). codes "$" ++ print_nat n) (numbered 1 i.columns))
                            ++ (codes ") " ++ (conflict ++ codes "RETURNING *"))))))))
