-- ===== src/Orm/Model.antt =====
-- The methods that the trait `Model` of rwf/src/model/mod.rs gives to a model, whose names, key and
-- values are arguments.
mod Tests
pub mod Bound
use rwf.Prelude.{Option, some, List, [], ◌∷◌, map, false, if◌then◌else◌}
use rwf.Prelude.Int.{ℤ}
use rwf.Prelude.Text.{Text}
use rwf.Orm.Value
use rwf.Orm.Value.{Value, Values, Column, new_column, is_null, ◌>>=◌}
use rwf.Orm.Clauses.{OrderColumn}
use rwf.Orm.Select
use rwf.Orm.Select.{Select, apply_all, filter_and}
use rwf.Orm.Write
use rwf.Orm.Write.{Update, Insert, update_columns, add_all}
use rwf.Orm.Query
use rwf.Orm.Query.{Names, Query, update, insert, insert_if_not_exists, raw}

abbrev list_of : List Value → Values
list_of [] = Value.nil
list_of (v ∷ vs) = Value.cons v (list_of vs)

-- The keys of the models that have one
keys : List Value → List Value
unfolding is_null
keys [] = []
keys (id ∷ ids) = if is_null id then keys ids else id ∷ keys ids

-- Attributes compared with their values
equals : List (Column × Value) → List Select.Call
equals [] = []
equals ((c, v) ∷ cvs) = filter_and c v ∷ equals cvs

module _ (m : Names) where
  abbrev pub all : Query
  all = Query.new m

  abbrev take_one : Query
  take_one = Query.take_one all

  abbrev take_many : ℤ → Query
  take_many n = Query.take_many n all

  first_one : Query
  unfolding Query.first_one
  first_one = Query.first_one all

  first_many : ℤ → Query
  unfolding Query.first_many
  first_many n = Query.first_many n all

  filter : Column → Value → Option Query
  unfolding Query.filter
  filter c v = Query.filter c v all

  find_by : Column → Value → Option Query
  unfolding Query.find_by
  find_by c v = do q ← Query.find_by c v all; some (Query.take_one q)

  -- `to_column` of a name has no table.
  pub find : Value → Option Query
  unfolding find_by new_column
  find v = find_by (new_column [] m.primary_key) v

  abbrev find_by_sql : Text → List Value → Query
  find_by_sql = raw

  abbrev order : List OrderColumn → Query
  order os = Query.order os all

  abbrev lock : Query
  lock = Query.lock all

  -- The models of another kind that belong to those with these keys
  pub related : Names → List Value → Option Query
  unfolding Query.filter keys new_column
  related other ids =
      Query.filter (new_column [] m.foreign_key) (Value.list (list_of (keys ids))) (Query.new other)

  columns : List Column
  unfolding new_column
  columns = map (new_column []) m.column_names

  -- `Update::new`
  abbrev update_model : Value → List Value → Update
  update_model id values = update_columns m.table_name m.primary_key id columns values

  -- `Insert::new`
  abbrev insert_model : List Value → Insert
  insert_model values = record {
    table_name = m.table_name;
    columns = columns;
    placeholders = add_all values [];
    no_conflict = false;
    unique_by = [];
  }

  unfoldable pub save : Value → List Value → Query
  unfolding is_null columns update_columns add_all
  save id values =
      if is_null id then insert (insert_model values) else update (update_model id values)

  unfoldable create : List (Column × Value) → Query
  unfolding Write.insert_columns
  create cvs = insert (Query.inserted m cvs)

  pub find_or_create_by : List (Column × Value) → Option Query
  unfolding equals apply_all Write.insert_columns
  find_or_create_by cvs = do
    s ← apply_all (equals cvs) (Select.new m.table_name m.primary_key)
    some (insert_if_not_exists s (Query.inserted m cvs) false)

  unfoldable reload : Value → Option Query
  unfolding find
  reload id = find id
