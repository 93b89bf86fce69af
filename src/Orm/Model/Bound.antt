-- ===== src/Orm/Model/Bound.antt =====
-- The placeholders of the statements that a model's methods build.
use rwf.Prelude.{some, List, [], ◌∷◌, false, All, ◌≡◌, refl}
use rwf.Orm.Value.{Value, Column}
use rwf.Orm.Filter.Numbering.{ids}
use rwf.Orm.Select
use rwf.Orm.Select.{apply_all}
use rwf.Orm.Select.Numbering.{numbers, CanBind, apply_all-IsNumbered}
use rwf.Orm.Query.{Names, Query, insert_if_not_exists, inserted}
use rwf.Orm.Query.Bound.{IsBound, kept, inserted-IsBound}
use rwf.Orm.Select.Numbering.{bind-some}
use rwf.Orm.Model
use rwf.Orm.Model.{equals}

equals-CanBind : (cvs : List (Column × Value)) → All CanBind (equals cvs)
unfolding equals
equals-CanBind [] = tt
equals-CanBind ((c, v) ∷ cvs) = (tt, equals-CanBind cvs)

-- Of `find_or_create_by`, where it does not panic, the placeholders of the search and those of the
-- insert are each numbered 1, 2, …, one for each value that is sent with it.
find_or_create_by-IsBound :
    (m : Names) (cvs : List (Column × Value)) (q : Query)
    → Model.find_or_create_by m cvs ≡ some q
    → IsBound q
unfolding Model.find_or_create_by
find_or_create_by-IsBound m cvs q e =
    let new = Select.new m.table_name m.primary_key in
    let (s, found, end) = bind-some (apply_all (equals cvs) new) _ e in
    let bound =
      apply_all-IsNumbered (equals cvs) new s (equals-CanBind cvs) (unfold ids numbers in refl)
        found in
    kept (insert_if_not_exists s (inserted m cvs) false) q (bound, inserted-IsBound m cvs) end
