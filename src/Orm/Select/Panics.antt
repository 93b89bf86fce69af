-- ===== src/Orm/Select/Panics.antt =====
-- Where the filter methods of `Select` panic.
use rwf.Prelude.{Option, none, some, List, [], ◌∷◌, false, ◌≡◌, refl, ap, ◌∙◌}
use rwf.Orm.Value.{Value, Column, record_, ◌>>=◌}
use rwf.Orm.Filter.{
  Filter, JoinOp, clauses_of, nil, cons, and_, or_, empty, is_empty, same_op, concat, join_with,
  add, add_not, lt, gt, gte, lte, push,
}
use rwf.Orm.Select.{
  Select, Op, equals, not_equals, lesser_than, greater_than, greater_equal_than, lesser_equal_than,
  bind_value, compare_with, join_filter, in_table, filter, Call, filter_and, filter_or, apply,
  apply_all,
}

-- How a filter joins its comparisons
abbrev op_of : Filter → JoinOp
op_of (clauses_of cs op) = op

compare-op_of : (op : Op) (c : Column) (v : Value) → op_of (compare_with op c v empty) ≡ and_
unfolding compare_with add add_not lt gt gte lte push
compare-op_of equals c (record_ v) = refl
compare-op_of equals c v = refl
compare-op_of not_equals c (record_ v) = refl
compare-op_of not_equals c v = refl
compare-op_of lesser_than c v = refl
compare-op_of greater_than c v = refl
compare-op_of greater_equal_than c v = refl
compare-op_of lesser_equal_than c v = refl

concat-or_ : (w f : Filter) → op_of w ≡ or_ → op_of f ≡ and_ → concat w f ≡ none
unfolding concat same_op
concat-or_ (clauses_of cs or_) (clauses_of ds and_) e e₂ = refl
concat-or_ (clauses_of cs and_) f e e₂ = absurd (cc)
concat-or_ (clauses_of cs or_) (clauses_of ds or_) e e₂ = absurd (cc)

filter_and_of_or :
    (c : Column) (v : Value) (s : Select)
    → op_of s.where_clause ≡ or_
    → apply (filter_and c v) s ≡ none
unfolding apply filter join_filter
filter_and_of_or c v s e =
    rw
      (concat-or_ s.where_clause
        (compare_with equals (in_table s.table_name c) (bind_value v s.placeholders).0 empty) e
        (compare-op_of equals (in_table s.table_name c) (bind_value v s.placeholders).0))
      refl

join-op_of : (f g : Filter) → is_empty f ≡ false → op_of (join_with or_ f g) ≡ or_
unfolding join_with is_empty
join-op_of (clauses_of nil op) g e = absurd (cc)
join-op_of (clauses_of (cons c cs) op) g e = refl

filter_or-op_of :
    (c : Column) (v : Value) (s : Select)
    → is_empty s.where_clause ≡ false
    → (after : Select) × (apply (filter_or c v) s ≡ some after) × (op_of after.where_clause ≡ or_)
unfolding apply filter join_filter
filter_or-op_of c v s e =
    let f = compare_with equals (in_table s.table_name c) (bind_value v s.placeholders).0 empty in
    (
      record s {
        placeholders = (bind_value v s.placeholders).1;
        where_clause = join_with or_ s.where_clause f;
      },
      refl,
      join-op_of s.where_clause f e,
    )

apply_all-cons :
    (call : Call) (calls : List Call) (s : Select)
    → apply_all (call ∷ calls) s ≡ (apply call s >>= apply_all calls)
unfolding apply_all
apply_all-cons call calls s = refl

-- On a query with a filter, `filter_or` followed by `filter_and` panics.
filter_or_then_and_panics :
    (c c₂ : Column) (v v₂ : Value) (s : Select)
    → is_empty s.where_clause ≡ false
    → apply_all (filter_or c v ∷ filter_and c₂ v₂ ∷ []) s ≡ none
filter_or_then_and_panics c c₂ v v₂ s e =
    let (after, step, op) = filter_or-op_of c v s e in
    apply_all-cons (filter_or c v) (filter_and c₂ v₂ ∷ []) s
    ∙ ap (λ (o : Option Select). o >>= apply_all (filter_and c₂ v₂ ∷ [])) step
    ∙ apply_all-cons (filter_and c₂ v₂) [] after
    ∙ ap (λ (o : Option Select). o >>= apply_all []) (filter_and_of_or c₂ v₂ after op)
