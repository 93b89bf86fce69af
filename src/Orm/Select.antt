-- ===== src/Orm/Select.antt =====
-- `Select` of rwf/src/model/select.rs and `Placeholders` of placeholders.rs. The placeholders are the
-- list of the bound values; the number of one is an i32, which does not overflow below 2^31 values.
-- `none` is a panic.
pub mod Sent
pub mod Numbering
pub mod Panics
pub mod Inserts
use rwf.Prelude.{
  ℕ, zero, suc, ◌+◌, Option, none, some, List, [], ◌∷◌, ◌++◌, Bool, true, false, get_elem?,
  if◌then◌else◌, length,
}
use rwf.Prelude.Int.{ℤ}
use rwf.Prelude.Text.{Text, codes}
use rwf.Orm.Value
use rwf.Orm.Value.{
  Value, Column, is_null, is_qualified, qualify, placeholder, record_, Printers, escape, ◌>>=◌,
}
use rwf.Orm.Filter
use rwf.Orm.Filter.{
  Filter, JoinOp, and_, or_, empty, add, add_not, lt, gt, gte, lte, join_with, concat, where_sql,
}
use rwf.Orm.Clauses.{
  Columns, Limit, Lock, Join, OrderColumn, all_columns, pick, columns_sql, joins_sql, order_by_sql,
  limit_sql, lock_sql,
}

pub data Op : Type 0 where
  equals not_equals lesser_than greater_than greater_equal_than lesser_equal_than : Op

pub record Select : Type 0 where
  pub table_name : Text
  pub primary_key : Text
  pub columns : Columns
  pub order_by : List OrderColumn
  pub limit : Limit
  pub placeholders : List Value
  pub where_clause : Filter
  pub joins : List Join
  pub lock : Lock
  pub group : Bool

abbrev pub new : Text → Text → Select
new table key = record {
  table_name = table;
  primary_key = key;
  columns = all_columns;
  order_by = [];
  limit = record { rows = none; offset = none };
  placeholders = [];
  where_clause = empty;
  joins = [];
  lock = record { lock = false; skip_locked = false };
  group = false;
}

-- `Placeholders::add`: the placeholder of the value, and the values after it.
abbrev pub add_placeholder : Value → List Value → Value × List Value
add_placeholder v ps = (placeholder (length ps + 1), ps ++ v ∷ [])

-- A value that is not null: a list is bound and matched as a record, columns and calls stay in the
-- text, and anything else is bound.
pub bound : Value → List Value → Value × List Value
bound (Value.list vs) ps = let (v, after) = add_placeholder (Value.list vs) ps in (record_ v, after)
bound (Value.column c) ps = (Value.column c, ps)
bound (Value.function name args) ps = (Value.function name args, ps)
bound v ps = add_placeholder v ps

pub bind_value : Value → List Value → Value × List Value
unfolding bound is_null
bind_value v ps = if is_null v then (v, ps) else bound v ps

pub compare_with : Op → Column → Value → Filter → Filter
unfolding add add_not lt gt gte lte
compare_with equals c v f = add c v f
compare_with not_equals c v f = add_not c v f
compare_with lesser_than c v f = lt c v f
compare_with greater_than c v f = gt c v f
compare_with greater_equal_than c v f = gte c v f
compare_with lesser_equal_than c v f = lte c v f

pub join_filter : JoinOp → Filter → Filter → Option Filter
unfolding concat join_with
join_filter and_ w f = concat w f
join_filter or_ w f = some (join_with or_ w f)

pub in_table : Text → Column → Column
unfolding is_qualified qualify
in_table table c = if is_qualified c then c else qualify table c

-- `Select::filter`
pub filter : Column → Value → JoinOp → Op → Select → Option Select
unfolding bind_value compare_with join_filter in_table
filter c v join op s = do
  w ←
      join_filter join s.where_clause
        (compare_with op (in_table s.table_name c) (bind_value v s.placeholders).0 empty)
  some (record s { placeholders = (bind_value v s.placeholders).1; where_clause = w })

-- The methods that call it
pub data Call : Type 0 where
  filter_and filter_or filter_not filter_or_not : Column → Value → Call
  filter_lt filter_gt filter_gte filter_lte : Column → Value → Call

unfoldable pub apply : Call → Select → Option Select
unfolding filter
apply (filter_and c v) s = filter c v and_ equals s
apply (filter_or c v) s = filter c v or_ equals s
apply (filter_not c v) s = filter c v and_ not_equals s
apply (filter_or_not c v) s = filter c v or_ not_equals s
apply (filter_lt c v) s = filter c v and_ lesser_than s
apply (filter_gt c v) s = filter c v and_ greater_than s
apply (filter_gte c v) s = filter c v and_ greater_equal_than s
apply (filter_lte c v) s = filter c v and_ lesser_equal_than s

-- A chain of calls
unfoldable pub apply_all : List Call → Select → Option Select
unfolding apply
apply_all [] s = some s
apply_all (c ∷ cs) s = do s' ← apply c s; apply_all cs s'

pub value_at : List Value → ℕ → Option Value
value_at ps zero = none
value_at ps (suc n) = get_elem? ps n

-- The value that a column is inserted with: that of its placeholder.
pub resolve : List Value → Value → Option Value
unfolding value_at
resolve ps (placeholder n) = value_at ps n
resolve ps v = some v

pub resolve_all : List Value → List (Column × Value) → Option (List (Column × Value))
unfolding resolve
resolve_all ps [] = some []
resolve_all ps ((c, v) ∷ rest) = do w ← resolve ps v; ws ← resolve_all ps rest; some ((c, w) ∷ ws)

-- `Select::insert_columns`
unfoldable pub insert_columns : Select → Option (List (Column × Value))
unfolding resolve_all Filter.insert_columns
insert_columns s = resolve_all s.placeholders (Filter.insert_columns s.where_clause)

-- `Select::or`
abbrev pub or : Select → Select
or s = record (new s.table_name s.primary_key) { placeholders = s.placeholders }

-- The other methods, with the prefix `with_` where a field has their name
abbrev pub with_limit : ℤ → Select → Select
with_limit n s = record s { limit = record { rows = some n; offset = none } }

abbrev pub with_offset : ℤ → Select → Select
with_offset n s = record s { limit = record { rows = s.limit.rows; offset = some n } }

abbrev pub with_order_by : List OrderColumn → Select → Select
with_order_by os s = record s { order_by = os }

abbrev pub with_lock : Select → Select
with_lock s = record s { lock = record { lock = true; skip_locked = false } }

abbrev pub with_skip_locked : Select → Select
with_skip_locked s = record s { lock = record { lock = s.lock.lock; skip_locked = true } }

abbrev pub with_exists : Select → Select
with_exists s = record s { columns = record (s.columns) { exists = true } }

abbrev with_count : Select → Select
with_count s = record s { columns = record (s.columns) { count = true } }

abbrev pub select_additional : Column → Select → Select
select_additional c s = record s {
  columns = record (s.columns) { columns = s.columns.columns ++ c ∷ [] };
}

abbrev pub with_join : Join → Select → Select
with_join j s = record s {
  joins = s.joins ++ j ∷ [];
  columns = record (s.columns) { table_name = some (s.table_name) };
}

abbrev pub add_joins : List Join → Select → Select
add_joins js s = record s { joins = s.joins ++ js }

abbrev grouped : List Column → Select → Select
grouped cs s = record s { group = true; columns = pick cs }

module _ (p : Printers) where
  -- `ToSql for Select`
  unfoldable pub select_sql : Select → Option Text
  unfolding columns_sql joins_sql where_sql order_by_sql limit_sql lock_sql escape
  select_sql s = do
    columns ← columns_sql p s.columns
    joined ← joins_sql p s.joins
    filtered ← where_sql p s.where_clause
    ordered ← order_by_sql p s.order_by
    some (
        codes "SELECT "
        ++ (columns
            ++ (codes " FROM \""
                ++ (escape s.table_name
                    ++ (codes "\""
                        ++ (joined
                            ++ (filtered
                                ++ ((if s.group
                                      then codes "GROUP BY " ++ (columns ++ codes " ")
                                      else [])
                                    ++ (ordered ++ (limit_sql s.limit ++ lock_sql s.lock))))))))))
