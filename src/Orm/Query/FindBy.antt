-- ===== src/Orm/Query/FindBy.antt =====
-- `find_by` on a query that has bound values already.
use rwf.Prelude.{◌+◌, Option, none, some, [], ◌∷◌, ◌++◌, true, length, ◌≡◌, refl, ap}
use rwf.Prelude.Int.{pos}
use rwf.Orm.Value.{Value, Column}
use rwf.Orm.Filter.{Comparisons, JoinOp, and_, or_, clauses_of, nil, cons, concat}
use rwf.Orm.Select.{Select, in_table, with_limit, apply}
use rwf.Orm.Select.Sent.{is_sent, matched, comparison_lem}
use rwf.Orm.Query
use rwf.Orm.Query.{Query, select, clear}

-- What `find_by` leaves of a query whose filter is joined so
abbrev pub found : Column → Value → Select → JoinOp → Option Query
found c v s and_ = some (
    select (
      with_limit (pos 1) (record s {
        where_clause =
            clauses_of (cons (matched (in_table s.table_name c) v (length s.placeholders + 1)) nil)
              and_;
        placeholders = s.placeholders ++ v ∷ [];
      })))
found c v s or_ = none

-- `find_by` with a value that is sent, and not written in the text, panics on a query whose filter
-- is joined by OR. On one joined by AND, the filter is then the one comparison with the value, by
-- IN where it is a list, all others being dropped, under the number behind those of the values that
-- were bound; these are all kept, the new one behind them, and the limit is one row.
pub find_by_keeps_values :
    (c : Column) (v : Value) (s : Select) (cs : Comparisons) (op : JoinOp)
    → is_sent v ≡ true
    → s.where_clause ≡ clauses_of cs op
    → Query.find_by c v (select s) ≡ found c v s op
unfolding Query.find_by Query.filter apply concat
find_by_keeps_values c v s cs and_ h e =
    let cleared : clear s.where_clause ≡ clauses_of nil and_ = ap clear e in
    let (added, values) = comparison_lem (in_table s.table_name c) v s.placeholders h in
    rw (cleared, added, values) refl
find_by_keeps_values c v s cs or_ h e =
    let cleared : clear s.where_clause ≡ clauses_of nil or_ = ap clear e in
    let (added, values) = comparison_lem (in_table s.table_name c) v s.placeholders h in
    rw (cleared, added) refl
