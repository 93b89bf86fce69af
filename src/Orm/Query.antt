-- ===== src/Orm/Query.antt =====
-- `Query` of rwf/src/model/mod.rs: a statement, and the methods that build it. `none` is a panic.
pub mod Chain
pub mod Bound
pub mod FindBy
pub mod Execute
mod Tests
use rwf.Prelude.{Option, some, List, [], ◌∷◌, ◌++◌, map, Bool, false, is_empty, if◌then◌else◌}
use rwf.Prelude.Int.{ℤ, pos}
use rwf.Prelude.Text.{Text, codes}
use rwf.Orm.Value.{Value, Column, Printers, new_column, ◌>>=◌}
use rwf.Orm.Filter.{Filter, or_, join_with, clauses_of, nil}
use rwf.Orm.Clauses.{OrderColumn, asc, Join}
use rwf.Orm.Select
use rwf.Orm.Select.{Select, Call, apply, select_sql}
use rwf.Orm.Write
use rwf.Orm.Write.{Update, Insert, set_columns, update_selected, update_sql, insert_sql}

-- What the trait of a model gives: the names of its table, its key and its columns.
pub record Names : Type 0 where
  pub table_name : Text
  pub primary_key : Text
  pub foreign_key : Text
  pub column_names : List Text

-- The columns of a `Picked` are not used.
pub data Query : Type 0 where
  select : Select → Query
  update : Update → Query
  insert : Insert → Query
  insert_if_not_exists : Select → Insert → (created : Bool) → Query
  raw : (query : Text) (placeholders : List Value) → Query
  picked : Select → Query

module _ (p : Printers) where
  -- `ToSql for Query`
  unfoldable pub to_sql : Query → Option Text
  unfolding select_sql update_sql insert_sql
  to_sql (select s) = select_sql p s
  to_sql (raw query ps) = some query
  to_sql (update u) = update_sql p u
  to_sql (insert i) = insert_sql p i
  to_sql (insert_if_not_exists s i created) = do
    t ← select_sql p s
    u ← insert_sql p i
    some (t ++ (codes "; " ++ (u ++ codes ";")))
  to_sql (picked s) = select_sql p s

-- A method changes a `SELECT` and leaves any other statement as it is.
abbrev pub on_select : (Select → Query) → Query → Query
on_select f (select s) = f s
on_select f q = q

-- The same for a method that may panic
abbrev pub try_select : (Select → Option Query) → Query → Option Query
try_select f (select s) = f s
try_select f q = some q

abbrev pub filtered : Call → Query → Option Query
filtered call = try_select (λ s. do t ← apply call s; some (select t))

abbrev pub take_many : ℤ → Query → Query
take_many n = on_select (λ s. select (Select.with_limit n s))

abbrev pub take_one : Query → Query
take_one = on_select (λ s. select (Select.with_limit (pos 1) s))

-- The order of `first_many`: by the key, where the query has none.
abbrev order_or_key : Select → List OrderColumn
order_or_key s =
    if is_empty s.order_by then asc (new_column s.table_name s.primary_key) ∷ [] else s.order_by

unfoldable pub first_many : ℤ → Query → Query
unfolding new_column
first_many n =
    on_select (λ s. select (Select.with_order_by (order_or_key s) (Select.with_limit n s)))

unfoldable pub first_one : Query → Query
unfolding first_many
first_one = on_select (λ s. first_many (pos 1) (select s))

unfoldable pub filter : Column → Value → Query → Option Query
unfolding apply
filter c v q = filtered (Call.filter_and c v) q

pub filter_gt : Column → Value → Query → Option Query
unfolding apply
filter_gt c v q = filtered (Call.filter_gt c v) q

pub filter_gte : Column → Value → Query → Option Query
unfolding apply
filter_gte c v q = filtered (Call.filter_gte c v) q

pub filter_lt : Column → Value → Query → Option Query
unfolding apply
filter_lt c v q = filtered (Call.filter_lt c v) q

pub filter_lte : Column → Value → Query → Option Query
unfolding apply
filter_lte c v q = filtered (Call.filter_lte c v) q

-- `filter_not` and `not`
pub filter_not : Column → Value → Query → Option Query
unfolding apply
filter_not c v q = filtered (Call.filter_not c v) q

pub or_not : Column → Value → Query → Option Query
unfolding apply
or_not c v q = filtered (Call.filter_or_not c v) q

-- The query with what the function made of an empty filter behind its own
abbrev pub joined : Select → Select → Select
joined s t = record s {
  where_clause = join_with or_ s.where_clause t.where_clause;
  placeholders = t.placeholders;
}

abbrev pub merged : Select → Query → Query
merged s (select t) = select (joined s t)
merged s q = select s

pub or : (Query → Option Query) → Query → Option Query
unfolding join_with
or f = try_select (λ s. do q ← f (select (Select.or s)); some (merged s q))

-- `WhereClause::clear`
abbrev pub clear : Filter → Filter
clear (clauses_of cs op) = clauses_of nil op

abbrev cleared : Query → Query
cleared = on_select (λ s. select (record s { where_clause = clear s.where_clause }))

unfoldable pub find_by : Column → Value → Query → Option Query
unfolding filter
find_by c v q = do found ← filter c v (cleared q); some (take_one found)

abbrev pub offset : ℤ → Query → Query
offset n = on_select (λ s. select (Select.with_offset n s))

abbrev pub order : List OrderColumn → Query → Query
order os = on_select (λ s. select (Select.with_order_by (s.order_by ++ os) s))

-- The join that an association makes is an argument.
abbrev pub join : Join → Query → Query
join j = on_select (λ s. select (Select.with_join j s))

abbrev pub join_nested : List Join → Query → Query
join_nested js = on_select (λ s. select (Select.add_joins js s))

abbrev pub lock : Query → Query
lock = on_select (λ s. select (Select.with_lock s))

abbrev pub skip_locked : Query → Query
skip_locked = on_select (λ s. select (Select.with_skip_locked s))

abbrev pub column : Column → Query → Query
column c = on_select (λ s. select (Select.select_additional c s))

abbrev unique_columns : List Column → Insert → Insert
unique_columns cs i = record i { unique_by = cs }

pub unique_by : List Column → Query → Query
unique_by cs (insert i) = insert (unique_columns cs i)
unique_by cs (insert_if_not_exists s i created) =
    insert_if_not_exists s (unique_columns cs i) created
unique_by cs q = q

abbrev pub columns_of : List (Column × Value) → List Column
columns_of cvs = map (λ cv. cv.0) cvs

abbrev pub values_of : List (Column × Value) → List Value
values_of cvs = map (λ cv. cv.1) cvs

module _ (m : Names) where
  -- `Query::select`
  abbrev pub new : Query
  new = select (Select.new m.table_name m.primary_key)

  abbrev pub inserted : List (Column × Value) → Insert
  inserted cvs = Write.insert_columns m.table_name (columns_of cvs) (values_of cvs)

  unfoldable pub find_or_create : Query → Option Query
  unfolding Select.insert_columns Write.insert_columns
  find_or_create = try_select (λ s. do
    cvs ← Select.insert_columns s
    some (insert_if_not_exists (Select.with_limit (pos 1) s) (inserted cvs) false))

  pub update_all : List (Column × Value) → Query → Query
  unfolding set_columns
  update_all cvs = on_select (λ s.
      update (
        set_columns (columns_of cvs) (values_of cvs)
          (update_selected m.table_name m.primary_key s)))
