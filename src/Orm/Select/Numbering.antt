-- ===== src/Orm/Select/Numbering.antt =====
-- The placeholders of a `Select`: their numbers and the values bound to them.
use rwf.Prelude.{
  ℕ, zero, suc, ◌+◌, Option, none, some, List, [], ◌∷◌, ◌++◌, ◌≡◌, ◌∙◌, refl, ap, sym, arith, Bool,
  true, false, ◌&&◌, length, length-append, append-nil, All, subst,
}
use rwf.Orm.Value.{Value, Column, is_null, absent, present, record_, ◌>>=◌}
use rwf.Orm.Filter.{
  Filter, JoinOp, and_, or_, empty, join_with, add, add_not, lt, gt, gte, lte, push, extend,
}
use rwf.Orm.Filter.Numbering.{id, ids, ids-join_with, ids-concat}
use rwf.Orm.Select.{
  Select, Op, equals, not_equals, lesser_than, greater_than, greater_equal_than, lesser_equal_than,
  bind_value, bound, compare_with, join_filter, filter, in_table, apply, apply_all, Call,
  filter_and, filter_or, filter_not, filter_or_not, filter_lt, filter_gt, filter_gte, filter_lte,
}

-- So many numbers, from the first on
unfoldable pub numbers : ℕ → ℕ → List ℕ
numbers first zero = []
numbers first (suc n) = first ∷ numbers (first + 1) n

numbers-append : (first a b : ℕ) → numbers first a ++ numbers (first + a) b ≡ numbers first (a + b)
unfolding numbers
numbers-append first zero b =
    let same : first + 0 ≡ first = omega arith in
    let sum : 0 + b ≡ b = omega arith in rw (same, sum) refl
numbers-append first (suc a) b =
    let same : first + suc a ≡ (first + 1) + a = omega arith in
    let sum : suc a + b ≡ suc (a + b) = omega arith in
    rw (same, sum) (ap (λ (l : List ℕ). first ∷ l) (numbers-append (first + 1) a b))

-- The placeholders of the filter are numbered in order, and each has its value.
abbrev pub IsNumbered : Select → Type 0
IsNumbered s = ids s.where_clause ≡ numbers 1 (length s.placeholders)

abbrev is_order : Op → Bool
is_order equals = false
is_order not_equals = false
is_order _ = true

abbrev pub is_list : Value → Bool
is_list (Value.list vs) = true
is_list _ = false

abbrev is_record : Value → Bool
is_record (record_ v) = true
is_record _ = false

-- Binding a value takes as many numbers as values, from the next one on.
record Binds (v : Value) (ps : List Value) : Type 0 where
  taken : ℕ
  values : length (bind_value v ps).1 ≡ length ps + taken
  plain : is_record (bind_value v ps).0 ≡ false
  numbered : id (bind_value v ps).0 ≡ numbers (length ps + 1) taken

binds : (v : Value) (ps : List Value) → is_list v ≡ false → Binds v ps
unfolding bind_value bound is_null numbers
binds (Value.list vs) ps h = absurd (cc)
binds Value.null ps h = record { taken = 0; values = omega arith; plain = refl; numbered = refl }
binds (Value.optional absent) ps h = record {
  taken = 0;
  values = omega arith;
  plain = refl;
  numbered = refl;
}
binds (Value.column c) ps h = record {
  taken = 0;
  values = omega arith;
  plain = refl;
  numbered = refl;
}
binds (Value.function name args) ps h = record {
  taken = 0;
  values = omega arith;
  plain = refl;
  numbered = refl;
}
binds (Value.optional (present v)) ps h = record {
  taken = 1;
  values = length-append ps (Value.optional (present v) ∷ []);
  plain = refl;
  numbered = refl;
}
binds v ps h = record {
  taken = 1;
  values = length-append ps (v ∷ []);
  plain = refl;
  numbered = refl;
}

compare-ids :
    (op : Op) (c : Column) (v : Value)
    → is_record v ≡ false
    → ids (compare_with op c v empty) ≡ id v
unfolding ids compare_with add add_not lt gt gte lte push extend
compare-ids equals c (record_ v) h = absurd (cc)
compare-ids not_equals c (record_ v) h = absurd (cc)
compare-ids equals c v h = append-nil (id v)
compare-ids not_equals c v h = append-nil (id v)
compare-ids lesser_than c v h = append-nil (id v)
compare-ids greater_than c v h = append-nil (id v)
compare-ids greater_equal_than c v h = append-nil (id v)
compare-ids lesser_equal_than c v h = append-nil (id v)

-- A comparison with a value, bound behind the values `ps`
abbrev compared : Op → Column → Value → List Value → Filter
compared op c v ps = compare_with op c (bind_value v ps).0 empty

-- The comparison takes as many numbers as values.
abbrev Takes : Op → Column → Value → List Value → Type 0
Takes op c v ps =
    (k : ℕ) × (length (bind_value v ps).1 ≡ length ps + k)
    × (ids (compared op c v ps) ≡ numbers (length ps + 1) k)

binds-Takes :
    (op : Op) (c : Column) (v : Value) (ps : List Value) → is_list v ≡ false → Takes op c v ps
binds-Takes op c v ps h =
    let b = binds v ps h in
    (b.taken, b.values, compare-ids op c (bind_value v ps).0 b.plain ∙ b.numbered)

compared-Takes :
    (op : Op) (c : Column) (v : Value) (ps : List Value)
    → is_order op && is_list v ≡ false
    → Takes op c v ps
compared-Takes equals c (Value.list vs) ps h = (
  1,
  unfold bind_value bound is_null in length-append ps (Value.list vs ∷ []),
  unfold ids bind_value bound is_null compare_with add push extend numbers in refl,
)
compared-Takes not_equals c (Value.list vs) ps h = (
  1,
  unfold bind_value bound is_null in length-append ps (Value.list vs ∷ []),
  unfold ids bind_value bound is_null compare_with add_not push extend numbers in refl,
)
compared-Takes equals c v ps h = binds-Takes equals c v ps refl
compared-Takes not_equals c v ps h = binds-Takes not_equals c v ps refl
compared-Takes lesser_than c v ps h = binds-Takes lesser_than c v ps h
compared-Takes greater_than c v ps h = binds-Takes greater_than c v ps h
compared-Takes greater_equal_than c v ps h = binds-Takes greater_equal_than c v ps h
compared-Takes lesser_equal_than c v ps h = binds-Takes lesser_equal_than c v ps h

join_filter-ids :
    (join : JoinOp) (w f after : Filter)
    → join_filter join w f ≡ some after
    → ids after ≡ ids w ++ ids f
unfolding join_filter
join_filter-ids and_ w f after e = ids-concat w f after e
join_filter-ids or_ w f after e =
    let same : join_with or_ w f ≡ after = cc in rw (sym same) (ids-join_with or_ w f)

-- A chain that does not panic has a value at its start.
pub bind-some :
    {A B : Type 0} (o : Option A) (g : A → Option B) {b : B}
    → (o >>= g) ≡ some b
    → (a : A) × (o ≡ some a) × (g a ≡ some b)
bind-some none g e = absurd (cc)
bind-some (some a) g e = (a, refl, e)

pub numbers-from :
    (w f : List ℕ) (n k : ℕ) → w ≡ numbers 1 n → f ≡ numbers (n + 1) k → w ++ f ≡ numbers 1 (n + k)
numbers-from w f n k e e₂ =
    let next : n + 1 ≡ 1 + n = omega arith in rw (e, e₂, next) (numbers-append 1 n k)

-- What is added behind takes the numbers from the next one on, one for each bound value.
abbrev pub Appends : Select → Select → Type 0
Appends s t =
    (k : ℕ) × (length t.placeholders ≡ length s.placeholders + k)
    × (ids t.where_clause ≡ ids s.where_clause ++ numbers (length s.placeholders + 1) k)

pub Appends-IsNumbered : (s t : Select) → IsNumbered s → Appends s t → IsNumbered t
Appends-IsNumbered s t n (k, values, added) =
    added ∙ rw values (numbers-from (ids s.where_clause) _ (length s.placeholders) k n refl)

filter-Appends :
    (c : Column) (v : Value) (join : JoinOp) (op : Op) (s after : Select)
    → is_order op && is_list v ≡ false
    → filter c v join op s ≡ some after
    → Appends s after
unfolding filter
filter-Appends c v join op s after h e =
    let column = in_table s.table_name c in
    let f = compared op column v s.placeholders in
    let ps = (bind_value v s.placeholders).1 in
    let (w, joined, end) =
      bind-some (join_filter join s.where_clause f)
        (λ w. some (record s { placeholders = ps; where_clause = w })) e in
    let (k, values, numbered) = compared-Takes op column v s.placeholders h in
    let same : record s { placeholders = ps; where_clause = w } ≡ after = cc in
    subst (Appends s) same (
      k,
      values,
      join_filter-ids join s.where_clause f w joined
          ∙ ap (λ (l : List ℕ). ids s.where_clause ++ l) numbered,
    )

-- No comparison but `=` and `<>` is made with a list.
abbrev pub CanBind : Call → Type 0
CanBind (filter_lt c v) = is_list v ≡ false
CanBind (filter_gt c v) = is_list v ≡ false
CanBind (filter_gte c v) = is_list v ≡ false
CanBind (filter_lte c v) = is_list v ≡ false
CanBind _ = Unit

pub apply-Appends :
    (call : Call) (s after : Select) → CanBind call → apply call s ≡ some after → Appends s after
unfolding apply
apply-Appends (filter_and c v) s after h e = filter-Appends c v and_ equals s after refl e
apply-Appends (filter_or c v) s after h e = filter-Appends c v or_ equals s after refl e
apply-Appends (filter_not c v) s after h e = filter-Appends c v and_ not_equals s after refl e
apply-Appends (filter_or_not c v) s after h e = filter-Appends c v or_ not_equals s after refl e
apply-Appends (filter_lt c v) s after h e = filter-Appends c v and_ lesser_than s after h e
apply-Appends (filter_gt c v) s after h e = filter-Appends c v and_ greater_than s after h e
apply-Appends (filter_gte c v) s after h e = filter-Appends c v and_ greater_equal_than s after h e
apply-Appends (filter_lte c v) s after h e = filter-Appends c v and_ lesser_equal_than s after h e

apply-IsNumbered :
    (call : Call) (s after : Select)
    → CanBind call
    → IsNumbered s
    → apply call s ≡ some after
    → IsNumbered after
apply-IsNumbered call s after h n e = Appends-IsNumbered s after n (apply-Appends call s after h e)

-- The placeholders of a query are numbered 1, 2, … in the order of its filter, one for each bound
-- value: a chain of calls of the filter methods that does not panic keeps this, where no order
-- comparison is made with a list.
pub apply_all-IsNumbered :
    (calls : List Call) (s after : Select)
    → All CanBind calls
    → IsNumbered s
    → apply_all calls s ≡ some after
    → IsNumbered after
unfolding apply_all
apply_all-IsNumbered [] s after hs n e = let same : s ≡ after = cc in subst IsNumbered same n
apply_all-IsNumbered (call ∷ calls) s after (h, hs) n e =
    let (mid, first, rest) = bind-some (apply call s) (apply_all calls) e in
    apply_all-IsNumbered calls mid after hs (apply-IsNumbered call s mid h n first) rest
