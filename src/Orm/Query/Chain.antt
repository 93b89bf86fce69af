-- ===== src/Orm/Query/Chain.antt =====
-- Chains of the methods of a `Query`, and the placeholders of the statements that they build.
use rwf.Prelude.{Option, some, List, [], ◌∷◌}
use rwf.Prelude.Int.{ℤ}
use rwf.Orm.Value.{Value, Column, ◌>>=◌}
use rwf.Orm.Clauses.{OrderColumn, Join}
use rwf.Orm.Query
use rwf.Orm.Query.{Names, Query}

pub data Method : Type 0 where
  filter filter_gt filter_gte filter_lt filter_lte filter_not or_not : Column → Value → Method
  find_by : Column → Value → Method
  or : (Query → Option Query) → Method
  take_many first_many offset : ℤ → Method
  take_one first_one lock skip_locked find_or_create : Method
  order : List OrderColumn → Method
  join : Join → Method
  join_nested : List Join → Method
  column : Column → Method
  update_all : List (Column × Value) → Method
  unique_by : List Column → Method

-- One call of a method
unfoldable pub call : Names → Method → Query → Option Query
unfolding Query.filter Query.filter_gt Query.filter_gte Query.filter_lt Query.filter_lte
    Query.filter_not Query.or_not Query.find_by Query.or Query.first_many Query.first_one
    Query.find_or_create Query.update_all Query.unique_by
call m (filter c v) q = Query.filter c v q
call m (filter_gt c v) q = Query.filter_gt c v q
call m (filter_gte c v) q = Query.filter_gte c v q
call m (filter_lt c v) q = Query.filter_lt c v q
call m (filter_lte c v) q = Query.filter_lte c v q
call m (filter_not c v) q = Query.filter_not c v q
call m (or_not c v) q = Query.or_not c v q
call m (find_by c v) q = Query.find_by c v q
call m (or f) q = Query.or f q
call m (take_many n) q = some (Query.take_many n q)
call m (first_many n) q = some (Query.first_many n q)
call m (offset n) q = some (Query.offset n q)
call m take_one q = some (Query.take_one q)
call m first_one q = some (Query.first_one q)
call m lock q = some (Query.lock q)
call m skip_locked q = some (Query.skip_locked q)
call m find_or_create q = Query.find_or_create m q
call m (order os) q = some (Query.order os q)
call m (join j) q = some (Query.join j q)
call m (join_nested js) q = some (Query.join_nested js q)
call m (column c) q = some (Query.column c q)
call m (update_all cvs) q = some (Query.update_all m cvs q)
call m (unique_by cs) q = some (Query.unique_by cs q)

unfoldable pub calls : Names → List Method → Query → Option Query
unfolding call
calls m [] q = some q
calls m (method ∷ methods) q = do q' ← call m method q; calls m methods q'
