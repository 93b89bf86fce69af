-- ===== src/Orm/Query/Bound.antt =====
-- The placeholders of the statements that chains of methods build.
use rwf.Prelude.{
  ℕ, suc, Option, some, List, [], ◌∷◌, ◌++◌, map, false, length, All, ◌≡◌, refl, ap, ◌∙◌, subst,
}
use rwf.Orm.Value.{Value, Column, ◌>>=◌}
use rwf.Orm.Filter.{or_}
use rwf.Orm.Filter.Numbering.{ids, ids-join_with}
use rwf.Orm.Select
use rwf.Orm.Select.{Select, Call, apply}
use rwf.Orm.Select.Numbering.{
  numbers, is_list, bind-some, CanBind, IsNumbered, Appends, Appends-IsNumbered, apply-Appends,
}
use rwf.Orm.Write.{Update, Insert, sets, numbered}
use rwf.Orm.Write.Numbering.{update_selected-numbers, insert_columns-numbers}
use rwf.Orm.Query
use rwf.Orm.Query.{
  Names, Query, select, update, insert, insert_if_not_exists, raw, picked, on_select, try_select,
  filtered, merged, joined, inserted, columns_of, values_of,
}
use rwf.Orm.Query.Chain.{
  Method, call, calls, filter, filter_gt, filter_gte, filter_lt, filter_lte, filter_not, or_not,
  find_by, or, take_many, first_many, offset, take_one, first_one, lock, skip_locked,
  find_or_create, order, join, join_nested, column, update_all, unique_by,
}

-- The placeholders of an update: those of its filter, and those of the columns it sets
abbrev UpdateIsBound : Update → Type 0
UpdateIsBound u = ids u.where_clause ++ map (λ s. s.1) (sets u) ≡ numbers 1 (length u.placeholders)

abbrev InsertIsBound : Insert → Type 0
InsertIsBound i = map (λ s. s.1) (numbered 1 i.columns) ≡ numbers 1 (length i.placeholders)

-- The placeholders in the text are numbered 1, 2, …, one for each value that is sent with it; nothing
-- is said of the text of a raw query.
abbrev pub IsBound : Query → Type 0
IsBound (select s) = IsNumbered s
IsBound (update u) = UpdateIsBound u
IsBound (insert i) = InsertIsBound i
IsBound (insert_if_not_exists s i created) = IsNumbered s × InsertIsBound i
IsBound (raw query ps) = Unit
IsBound (picked s) = IsNumbered s

-- A function given to `or` binds its values behind those that are bound.
abbrev CanJoin : (Query → Option Query) → Type 0
CanJoin f = (s t : Select) → f (select s) ≡ some (select t) → Appends s t

-- No order comparison is made with a list, and `find_by` is not called.
abbrev CanCall : Method → Type 0
CanCall (filter_gt c v) = is_list v ≡ false
CanCall (filter_gte c v) = is_list v ≡ false
CanCall (filter_lt c v) = is_list v ≡ false
CanCall (filter_lte c v) = is_list v ≡ false
CanCall (find_by c v) = ⊥
CanCall (or f) = CanJoin f
CanCall _ = Unit

on_select-IsBound :
    (f : Select → Query) (q : Query)
    → ((s : Select) → IsNumbered s → IsBound (f s))
    → IsBound q
    → IsBound (on_select f q)
on_select-IsBound f (select s) h b = h s b
on_select-IsBound f (update u) h b = b
on_select-IsBound f (insert i) h b = b
on_select-IsBound f (insert_if_not_exists s i created) h b = b
on_select-IsBound f (raw query ps) h b = b
on_select-IsBound f (picked s) h b = b

pub kept : (q after : Query) → IsBound q → some q ≡ some after → IsBound after
kept q after b e = let same : q ≡ after = cc in subst IsBound same b

try_select-IsBound :
    (f : Select → Option Query) (q after : Query)
    → ((s : Select) (t : Query) → IsNumbered s → f s ≡ some t → IsBound t)
    → IsBound q
    → try_select f q ≡ some after
    → IsBound after
try_select-IsBound f (select s) after h b e = h s after b e
try_select-IsBound f (update u) after h b e = kept (update u) after b e
try_select-IsBound f (insert i) after h b e = kept (insert i) after b e
try_select-IsBound f (insert_if_not_exists s i created) after h b e =
    kept (insert_if_not_exists s i created) after b e
try_select-IsBound f (raw query ps) after h b e = kept (raw query ps) after b e
try_select-IsBound f (picked s) after h b e = kept (picked s) after b e

filtered-Appends :
    (c : Call) (s : Select) (after : Query)
    → CanBind c
    → filtered c (select s) ≡ some after
    → (t : Select) × (select t ≡ after) × Appends s t
filtered-Appends c s after h e =
    let (t, applied, end) = bind-some (apply c s) (λ t. some (select t)) e in
    (t, cc, apply-Appends c s t h applied)

filtered-IsBound :
    (c : Call) (q after : Query) → CanBind c → IsBound q → filtered c q ≡ some after → IsBound after
filtered-IsBound c q after h b e =
    try_select-IsBound (λ s. do t ← apply c s; some (select t)) q after
      (λ s t n f.
        let (u, same, added) = filtered-Appends c s t h f in
        subst IsBound same (Appends-IsNumbered s u n added))
      b e

pub filter-CanJoin : (c : Column) (v : Value) → CanJoin (Query.filter c v)
unfolding Query.filter
filter-CanJoin c v s t e =
    let (u, same, added) = filtered-Appends (Call.filter_and c v) s (select t) tt e in
    let equal : u ≡ t = cc in subst (Appends s) equal added

merged-IsBound :
    (s : Select) (q : Query)
    → IsNumbered s
    → ((t : Select) → q ≡ select t → Appends (Select.or s) t)
    → IsBound (merged s q)
merged-IsBound s (select t) n h =
    let (k, values, added) = h t refl in
    Appends-IsNumbered s (joined s t) n (
      k,
      values,
      ids-join_with or_ s.where_clause t.where_clause
          ∙ ap (λ (l : List ℕ). ids s.where_clause ++ l) (added ∙ unfold ids in refl),
    )
merged-IsBound s (update u) n h = n
merged-IsBound s (insert i) n h = n
merged-IsBound s (insert_if_not_exists t i created) n h = n
merged-IsBound s (raw query ps) n h = n
merged-IsBound s (picked t) n h = n

or-IsBound :
    (f : Query → Option Query) (q after : Query)
    → CanJoin f
    → IsBound q
    → Query.or f q ≡ some after
    → IsBound after
unfolding Query.or
or-IsBound f q after h b e =
    try_select-IsBound _ q after
      (λ s t n g.
        let (r, made, end) = bind-some (f (select (Select.or s))) (λ r. some (merged s r)) g in
        let joins : (u : Select) → r ≡ select u → Appends (Select.or s) u =
          λ u same. h (Select.or s) u (made ∙ ap (λ x. some x) same) in
        kept (merged s r) t (merged-IsBound s r n joins) end)
      b e

length-sides : (cvs : List (Column × Value)) → length (columns_of cvs) ≡ length (values_of cvs)
length-sides [] = refl
length-sides (cv ∷ cvs) = ap (λ n. suc n) (length-sides cvs)

pub inserted-IsBound : (m : Names) (cvs : List (Column × Value)) → InsertIsBound (inserted m cvs)
inserted-IsBound m cvs =
    insert_columns-numbers m.table_name (columns_of cvs) (values_of cvs) (length-sides cvs)

find_or_create-IsBound :
    (m : Names) (q after : Query)
    → IsBound q
    → Query.find_or_create m q ≡ some after
    → IsBound after
unfolding Query.find_or_create
find_or_create-IsBound m q after b e =
    try_select-IsBound _ q after
      (λ s t n g.
        let (cvs, found, end) = bind-some (Select.insert_columns s) _ g in
        kept _ t (n, inserted-IsBound m cvs) end)
      b e

update_all-IsBound :
    (m : Names) (cvs : List (Column × Value)) (q : Query)
    → IsBound q
    → IsBound (Query.update_all m cvs q)
unfolding Query.update_all
update_all-IsBound m cvs q b =
    on_select-IsBound _ q
      (λ s n.
        update_selected-numbers m.table_name m.primary_key s (columns_of cvs) (values_of cvs) n)
      b

unique_by-IsBound : (cs : List Column) (q : Query) → IsBound q → IsBound (Query.unique_by cs q)
unfolding Query.unique_by
unique_by-IsBound cs (select s) b = b
unique_by-IsBound cs (update u) b = b
unique_by-IsBound cs (insert i) b = b
unique_by-IsBound cs (insert_if_not_exists s i created) b = b
unique_by-IsBound cs (raw query ps) b = b
unique_by-IsBound cs (picked s) b = b

-- A method that changes no filter and binds no value
same-IsBound :
    (f : Select → Select) (q after : Query)
    → ((s : Select) → IsNumbered s → IsNumbered (f s))
    → IsBound q
    → some (on_select (λ s. select (f s)) q) ≡ some after
    → IsBound after
same-IsBound f q after h b e = kept _ after (on_select-IsBound (λ s. select (f s)) q h b) e

call-IsBound :
    (m : Names) (method : Method) (q after : Query)
    → CanCall method
    → IsBound q
    → call m method q ≡ some after
    → IsBound after
unfolding call Query.filter Query.filter_gt Query.filter_gte Query.filter_lt Query.filter_lte
    Query.filter_not Query.or_not Query.first_many Query.first_one
call-IsBound m (filter c v) q after h b e = filtered-IsBound (Call.filter_and c v) q after tt b e
call-IsBound m (filter_gt c v) q after h b e = filtered-IsBound (Call.filter_gt c v) q after h b e
call-IsBound m (filter_gte c v) q after h b e = filtered-IsBound (Call.filter_gte c v) q after h b e
call-IsBound m (filter_lt c v) q after h b e = filtered-IsBound (Call.filter_lt c v) q after h b e
call-IsBound m (filter_lte c v) q after h b e = filtered-IsBound (Call.filter_lte c v) q after h b e
call-IsBound m (filter_not c v) q after h b e =
    filtered-IsBound (Call.filter_not c v) q after tt b e
call-IsBound m (or_not c v) q after h b e = filtered-IsBound (Call.filter_or_not c v) q after tt b e
call-IsBound m (find_by c v) q after h b e = absurd h
call-IsBound m (or f) q after h b e = or-IsBound f q after h b e
call-IsBound m (take_many n) q after h b e = same-IsBound _ q after (λ s k. k) b e
call-IsBound m (first_many n) q after h b e = same-IsBound _ q after (λ s k. k) b e
call-IsBound m (offset n) q after h b e = same-IsBound _ q after (λ s k. k) b e
call-IsBound m take_one q after h b e = same-IsBound _ q after (λ s k. k) b e
call-IsBound m first_one q after h b e = same-IsBound _ q after (λ s k. k) b e
call-IsBound m lock q after h b e = same-IsBound _ q after (λ s k. k) b e
call-IsBound m skip_locked q after h b e = same-IsBound _ q after (λ s k. k) b e
call-IsBound m find_or_create q after h b e = find_or_create-IsBound m q after b e
call-IsBound m (order os) q after h b e = same-IsBound _ q after (λ s k. k) b e
call-IsBound m (join j) q after h b e = same-IsBound _ q after (λ s k. k) b e
call-IsBound m (join_nested js) q after h b e = same-IsBound _ q after (λ s k. k) b e
call-IsBound m (column c) q after h b e = same-IsBound _ q after (λ s k. k) b e
call-IsBound m (update_all cvs) q after h b e = kept _ after (update_all-IsBound m cvs q b) e
call-IsBound m (unique_by cs) q after h b e = kept _ after (unique_by-IsBound cs q b) e

-- Whatever methods are called on a query in a row, if none panics, the placeholders of the
-- statement stay numbered 1, 2, …, one for each value that is sent with it, also where it becomes
-- an update or an insert: where `find_by` is not called, no order comparison is made with a list,
-- and what is given to `or` numbers its values behind those bound.
pub calls-IsBound :
    (m : Names) (methods : List Method) (q after : Query)
    → All CanCall methods
    → IsBound q
    → calls m methods q ≡ some after
    → IsBound after
unfolding calls
calls-IsBound m [] q after hs b e = kept q after b e
calls-IsBound m (method ∷ methods) q after (h, hs) b e =
    let (mid, first, rest) = bind-some (call m method q) (calls m methods) e in
    calls-IsBound m methods mid after hs (call-IsBound m method q mid h b first) rest
