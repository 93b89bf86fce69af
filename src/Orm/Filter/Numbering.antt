-- ===== src/Orm/Filter/Numbering.antt =====
-- The numbers of a filter's placeholders, in the order of its comparisons.
use rwf.Prelude.{
  ℕ, some, List, [], ◌∷◌, ◌++◌, ◌≡◌, refl, ap, ◌∙◌, sym, arith, length, length-append, append_assoc,
  append-nil,
}
use rwf.Orm.Value.{Value, placeholder, is_placeholder}
use rwf.Orm.Filter.{
  JoinOp, Comparison, Filter, Comparisons, clauses_of, nil, cons, equal, in_, not_in, not_equal,
  filter, greater_than, lesser_than, greater_equal_than, lesser_equal_than, is_empty, extend,
  join_with, concat, placeholders, placeholders_all, placeholders_one, one_if,
}

abbrev pub id : Value → List ℕ
id (placeholder n) = n ∷ []
id _ = []

unfoldable mutual
  pub ids : Filter → List ℕ
  ids (clauses_of cs op) = ids_all cs

  pub ids_all : Comparisons → List ℕ
  ids_all nil = []
  ids_all (cons c cs) = ids_one c ++ ids_all cs

  pub ids_one : Comparison → List ℕ
  ids_one (filter f) = ids f
  ids_one (equal c v) = id v
  ids_one (in_ c v) = id v
  ids_one (not_in c v) = id v
  ids_one (not_equal c v) = id v
  ids_one (greater_than c v) = id v
  ids_one (lesser_than c v) = id v
  ids_one (greater_equal_than c v) = id v
  ids_one (lesser_equal_than c v) = id v

length-id : (v : Value) → one_if (is_placeholder v) ≡ length (id v)
unfolding is_placeholder
length-id (placeholder n) = refl
length-id _ = refl

mutual
  unfolding ids placeholders

  placeholders-ids : (f : Filter) → placeholders f ≡ length (ids f)
  placeholders-ids (clauses_of cs op) = placeholders_all-ids cs

  placeholders_all-ids : (cs : Comparisons) → placeholders_all cs ≡ length (ids_all cs)
  placeholders_all-ids nil = refl
  placeholders_all-ids (cons c cs) = omega (
    arith,
    placeholders_one-ids c,
    placeholders_all-ids cs,
    length-append (ids_one c) (ids_all cs),
  )

  placeholders_one-ids : (c : Comparison) → placeholders_one c ≡ length (ids_one c)
  placeholders_one-ids (filter f) = placeholders-ids f
  placeholders_one-ids (equal c v) = length-id v
  placeholders_one-ids (in_ c v) = length-id v
  placeholders_one-ids (not_in c v) = length-id v
  placeholders_one-ids (not_equal c v) = length-id v
  placeholders_one-ids (greater_than c v) = length-id v
  placeholders_one-ids (lesser_than c v) = length-id v
  placeholders_one-ids (greater_equal_than c v) = length-id v
  placeholders_one-ids (lesser_equal_than c v) = length-id v

-- The count of `placeholders` is the number of the placeholder values in the filter's comparisons.
pub placeholders-length-ids : (f : Filter) → placeholders f ≡ length (ids f)
placeholders-length-ids f = placeholders-ids f

ids-extend : (cs ds : Comparisons) → ids_all (extend cs ds) ≡ ids_all cs ++ ids_all ds
unfolding ids extend
ids-extend nil ds = refl
ids-extend (cons c cs) ds =
    ap (λ (l : List ℕ). ids_one c ++ l) (ids-extend cs ds)
    ∙ sym (append_assoc (ids_one c) (ids_all cs) (ids_all ds))

-- Joining two filters keeps their placeholders in order: first those of the filter, then those of
-- the new one.
pub ids-join_with : (op : JoinOp) (f g : Filter) → ids (join_with op f g) ≡ ids f ++ ids g
unfolding ids join_with is_empty
ids-join_with op (clauses_of nil o) g = refl
ids-join_with op (clauses_of (cons c cs) o) g =
    ap (λ (l : List ℕ). (ids_one c ++ ids_all cs) ++ l) (append-nil (ids g))

-- Where concatenating two filters does not panic, it keeps their placeholders in order: first those
-- of the filter, then those of the new one.
pub ids-concat : (f g h : Filter) → concat f g ≡ some h → ids h ≡ ids f ++ ids g
unfolding ids concat
ids-concat (clauses_of cs op) (clauses_of ds op₂) h e = ground (arith, ids-extend cs ds)
