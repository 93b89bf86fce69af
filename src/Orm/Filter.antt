-- ===== src/Orm/Filter.antt =====
-- rwf/src/model/filter.rs. A `WhereClause` is the `Filter` that it holds. `none` is a panic.
pub mod Numbering
use rwf.Prelude.{ℕ, ◌+◌, Option, none, some, List, [], ◌∷◌, ◌++◌, Bool, true, false, if◌then◌else◌}
use rwf.Prelude.Text.{Text, codes, join}
use rwf.Orm.Value.{
  Value, Column, Printers, is_null, is_placeholder, value_sql, column_sql, record_, ◌>>=◌,
}

pub data JoinOp : Type 0 where
  and_ or_ : JoinOp

mutual
  pub data Comparison : Type 0 where
    equal in_ not_in not_equal : Column → Value → Comparison
    greater_than lesser_than greater_equal_than lesser_equal_than : Column → Value → Comparison
    filter : Filter → Comparison

  pub data Filter : Type 0 where
    clauses_of : Comparisons → JoinOp → Filter

  pub data Comparisons : Type 0 where
    nil : Comparisons
    cons : Comparison → Comparisons → Comparisons

-- `Filter::default()`
abbrev pub empty : Filter
empty = clauses_of nil and_

unfoldable pub is_empty : Filter → Bool
is_empty (clauses_of nil op) = true
is_empty (clauses_of (cons c cs) op) = false

-- `clauses.extend`
unfoldable pub extend : Comparisons → Comparisons → Comparisons
extend nil ds = ds
extend (cons c cs) ds = cons c (extend cs ds)

unfoldable pub push : Comparison → Filter → Filter
unfolding extend
push c (clauses_of cs op) = clauses_of (extend cs (cons c nil)) op

-- `add` and `add_not`: a record is matched by IN.
unfoldable pub add : Column → Value → Filter → Filter
unfolding push
add c (record_ v) f = push (in_ c v) f
add c v f = push (equal c v) f

unfoldable pub add_not : Column → Value → Filter → Filter
unfolding push
add_not c (record_ v) f = push (not_in c v) f
add_not c v f = push (not_equal c v) f

unfoldable pub gt : Column → Value → Filter → Filter
unfolding push
gt c v f = push (greater_than c v) f

unfoldable pub gte : Column → Value → Filter → Filter
unfolding push
gte c v f = push (greater_equal_than c v) f

unfoldable pub lt : Column → Value → Filter → Filter
unfolding push
lt c v f = push (lesser_than c v) f

unfoldable pub lte : Column → Value → Filter → Filter
unfolding push
lte c v f = push (lesser_equal_than c v) f

-- `join`, `or` and `and`
unfoldable pub join_with : JoinOp → Filter → Filter → Filter
unfolding is_empty
join_with op f g = if is_empty f then g else clauses_of (cons (filter f) (cons (filter g) nil)) op

unfoldable pub same_op : JoinOp → JoinOp → Bool
same_op and_ and_ = true
same_op or_ or_ = true
same_op _ _ = false

-- `concat`, which asserts that the operators are the same
unfoldable pub concat : Filter → Filter → Option Filter
unfolding extend same_op
concat (clauses_of cs op) (clauses_of ds op₂) =
    if same_op op op₂ then some (clauses_of (extend cs ds) op) else none

-- The value of a comparison that is a placeholder
abbrev pub one_if : Bool → ℕ
one_if true = 1
one_if false = 0

unfoldable mutual
  unfolding is_placeholder

  -- The number of placeholders
  pub placeholders : Filter → ℕ
  placeholders (clauses_of cs op) = placeholders_all cs

  pub placeholders_all : Comparisons → ℕ
  placeholders_all nil = 0
  placeholders_all (cons c cs) = placeholders_one c + placeholders_all cs

  pub placeholders_one : Comparison → ℕ
  placeholders_one (filter f) = placeholders f
  placeholders_one (equal c v) = one_if (is_placeholder v)
  placeholders_one (in_ c v) = one_if (is_placeholder v)
  placeholders_one (not_in c v) = one_if (is_placeholder v)
  placeholders_one (not_equal c v) = one_if (is_placeholder v)
  placeholders_one (greater_than c v) = one_if (is_placeholder v)
  placeholders_one (lesser_than c v) = one_if (is_placeholder v)
  placeholders_one (greater_equal_than c v) = one_if (is_placeholder v)
  placeholders_one (lesser_equal_than c v) = one_if (is_placeholder v)

unfoldable mutual
  -- `insert_columns`
  pub insert_columns : Filter → List (Column × Value)
  insert_columns (clauses_of cs op) = insert_all cs

  pub insert_all : Comparisons → List (Column × Value)
  insert_all nil = []
  insert_all (cons c cs) = insert_one c ++ insert_all cs

  pub insert_one : Comparison → List (Column × Value)
  insert_one (equal c v) = (c, v) ∷ []
  insert_one (filter f) = insert_columns f
  insert_one _ = []

abbrev separator : JoinOp → Text
separator and_ = codes " AND "
separator or_ = codes " OR "

module _ (p : Printers) where
  compared : Text → Column → Value → Option Text
  unfolding value_sql
  compared op c v = do x ← column_sql p c; y ← value_sql p v; some (x ++ (op ++ y))

  null_or : Text → Text → Column → Value → Option Text
  unfolding compared is_null
  null_or absent op c v =
      if is_null v then (do x ← column_sql p c; some (x ++ absent)) else compared op c v

  any_of : Text → Column → Value → Option Text
  unfolding compared
  any_of op c v = do t ← compared op c v; some (t ++ codes ")")

  unfoldable mutual
    unfolding null_or any_of compared join

    filter_sql : Filter → Option Text
    filter_sql (clauses_of cs op) = do ts ← comparisons_sql cs; some (join (separator op) ts)

    comparisons_sql : Comparisons → Option (List Text)
    comparisons_sql nil = some []
    comparisons_sql (cons c cs) = do t ← comparison_sql c; ts ← comparisons_sql cs; some (t ∷ ts)

    comparison_sql : Comparison → Option Text
    comparison_sql (equal c v) = null_or (codes " IS NULL") (codes " = ") c v
    comparison_sql (in_ c v) = any_of (codes " = ANY(") c v
    comparison_sql (not_in c v) = any_of (codes " <> ANY(") c v
    comparison_sql (not_equal c v) = null_or (codes " IS NOT NULL") (codes " <> ") c v
    comparison_sql (filter f) = do t ← filter_sql f; some (codes "(" ++ (t ++ codes ")"))
    comparison_sql (greater_than c v) = compared (codes " > ") c v
    comparison_sql (lesser_than c v) = compared (codes " < ") c v
    comparison_sql (greater_equal_than c v) = compared (codes " >= ") c v
    comparison_sql (lesser_equal_than c v) = compared (codes " <= ") c v

  -- `ToSql for WhereClause`
  unfoldable pub where_sql : Filter → Option Text
  unfolding filter_sql is_empty
  where_sql f = if is_empty f then some [] else (do t ← filter_sql f; some (codes " WHERE " ++ t))
