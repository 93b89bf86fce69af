-- ===== src/Orm/Clauses.antt =====
-- The clauses of a statement beside its filter: `Columns` of rwf/src/model/column.rs, and
-- rwf/src/model/order_by.rs, limit.rs, lock.rs and join.rs. `none` is a panic of a value's SQL text.
use rwf.Prelude.{
  Option, none, some, List, [], ◌∷◌, ◌++◌, Bool, true, false, ◌||◌, is_empty, if◌then◌else◌,
}
use rwf.Prelude.Int.{ℤ}
use rwf.Prelude.Text.{Text, codes, join, print_i64}
use rwf.Orm.Value.{Column, Printers, column_sql, escape, ◌>>=◌}

pub record Columns : Type 0 where
  pub columns : List Column
  pub table_name : Option Text
  pub exists : Bool
  pub all : Bool
  pub count : Bool

-- `Columns::default()`
abbrev pub all_columns : Columns
all_columns = record { columns = []; table_name = none; exists = false; all = true; count = false }

-- `Columns::pick`
abbrev pub pick : List Column → Columns
pick cs = record all_columns { columns = cs; all = false }

pub data OrderColumn : Type 0 where
  asc desc : Column → OrderColumn
  raw : Text → OrderColumn

pub record Limit : Type 0 where
  pub rows : Option ℤ
  pub offset : Option ℤ

pub record Lock : Type 0 where
  pub lock : Bool
  pub skip_locked : Bool

pub data JoinKind : Type 0 where
  inner left outer : JoinKind

pub record Join : Type 0 where
  pub kind : JoinKind
  pub table_name : Text
  pub table_column : Column
  pub foreign_column : Column

abbrev keyword : JoinKind → Text
keyword inner = codes "INNER JOIN"
keyword left = codes "LEFT JOIN"
keyword outer = codes "OUTER JOIN"

abbrev optional : Text → Option ℤ → Text
optional name none = []
optional name (some n) = name ++ print_i64 n

unfoldable pub limit_sql : Limit → Text
unfolding print_i64
limit_sql l = optional (codes " LIMIT ") l.rows ++ optional (codes " OFFSET ") l.offset

unfoldable pub lock_sql : Lock → Text
lock_sql l =
    (if l.lock then codes " FOR UPDATE" else [])
    ++ (if l.skip_locked then codes " SKIP LOCKED" else [])

abbrev star : Option Text → Text
star none = codes "*"
star (some table) = codes "\"" ++ (table ++ codes "\".*")

module _ (p : Printers) where
  unfoldable pub column_list : List Column → Option (List Text)
  unfolding column_sql
  column_list [] = some []
  column_list (c ∷ cs) = do t ← column_sql p c; ts ← column_list cs; some (t ∷ ts)

  unfoldable pub columns_sql : Columns → Option Text
  unfolding column_list join
  columns_sql cs = if cs.exists then some (codes "COUNT(*) AS count") else (do
    ts ← column_list cs.columns
    some (
        join (codes ", ") (
          (if cs.count then codes "COUNT(*) AS count" ∷ [] else [])
          ++ ((if is_empty cs.columns || cs.all then star cs.table_name ∷ [] else []) ++ ts))))

  order_column_sql : OrderColumn → Option Text
  unfolding column_sql
  order_column_sql (asc c) = do t ← column_sql p c; some (t ++ codes " ASC")
  order_column_sql (desc c) = do t ← column_sql p c; some (t ++ codes " DESC")
  order_column_sql (raw t) = some t

  order_columns_sql : List OrderColumn → Option (List Text)
  unfolding order_column_sql
  order_columns_sql [] = some []
  order_columns_sql (c ∷ cs) = do t ← order_column_sql c; ts ← order_columns_sql cs; some (t ∷ ts)

  unfoldable pub order_by_sql : List OrderColumn → Option Text
  unfolding order_columns_sql join
  order_by_sql cs =
      if is_empty cs
      then some []
      else (do ts ← order_columns_sql cs; some (codes " ORDER BY " ++ join (codes ", ") ts))

  join_sql : Join → Option Text
  unfolding column_sql escape
  join_sql j = do
    t ← column_sql p j.table_column
    f ← column_sql p j.foreign_column
    some (
        keyword j.kind
        ++ (codes " \"" ++ (escape j.table_name ++ (codes "\" ON " ++ (t ++ (codes " = " ++ f))))))

  joins_list : List Join → Option (List Text)
  unfolding join_sql
  joins_list [] = some []
  joins_list (j ∷ js) = do t ← join_sql j; ts ← joins_list js; some (t ∷ ts)

  -- `ToSql for Joins`
  unfoldable pub joins_sql : List Join → Option Text
  unfolding joins_list join
  joins_sql js =
      if is_empty js
      then some []
      else (do ts ← joins_list js; some (codes " " ++ join (codes " ") ts))
