-- ===== src/Orm/Query/Tests.antt =====
-- Queries at fixed inputs.
use rwf.Prelude.{
  ℕ, ◌==◌, Option, none, some, List, [], ◌∷◌, Bool, true, false, ◌≡◌, refl, ap, subst,
}
use rwf.Prelude.Int.{pos}
use rwf.Prelude.Text.{Text, codes}
use rwf.Prelude.Outcome.{Outcome, ok}
use rwf.Orm.Value.{Value, Column, Printers, column_of, absent, placeholder, ◌>>=◌}
use rwf.Orm.Filter.Numbering.{ids}
use rwf.Orm.Select
use rwf.Orm.Select.{Select, select_sql}
use rwf.Orm.Select.Numbering.{numbers}
use rwf.Orm.Write.{Insert, insert_sql}
use rwf.Orm.Query
use rwf.Orm.Query.{Names, Query, select, to_sql, insert_if_not_exists}
use rwf.Orm.Query.Chain.{Method, calls}
use rwf.Orm.Query.Bound.{IsBound, filter-CanJoin, calls-IsBound}
use rwf.Orm.Query.FindBy.{found, find_by_keeps_values}
use rwf.Orm.Filter.{clauses_of, cons, nil, equal, and_}
use rwf.Orm.Write
use rwf.Orm.Query.Execute.{Error, Database, execute_internal}
use rwf.Orm.Query.Execute.Creation.{find_or_create_twice}

abbrev users : Names
users = record {
  table_name = codes "users";
  primary_key = codes "id";
  foreign_key = codes "user_id";
  column_names = codes "email" ∷ [];
}

abbrev no_floats : Printers
no_floats = record { f64_print = λ n. []; f32_print = λ n. []; str_lower = λ t. t }

abbrev email : Column
email = column_of [] (codes "email") absent

abbrev one : Value
one = Value.integer (pos 1)

abbrev or_new : Option Query → Query
or_new none = Query.new users
or_new (some q) = q

abbrev sql : Option Query → Option Text
sql q = do r ← q; to_sql no_floats r

-- The tests of the source
first_one_sample :
    sql (calls users (Method.first_one ∷ []) (Query.new users))
    ≡ some (codes "SELECT * FROM \"users\" ORDER BY \"users\".\"id\" ASC LIMIT 1")
unfolding calls to_sql
first_one_sample = refl

find_by_sample :
    sql (Query.find_by email (Value.string (codes "a")) (Query.new users))
    ≡ some (codes "SELECT * FROM \"users\" WHERE \"users\".\"email\" = $1 LIMIT 1")
unfolding Query.find_by to_sql
find_by_sample = refl

-- The comparison is dropped, its value is not.
find_by_twice_sample :
    sql (calls users (Method.filter email one ∷ Method.find_by email one ∷ []) (Query.new users))
    ≡ some (codes "SELECT * FROM \"users\" WHERE \"users\".\"email\" = $2 LIMIT 1")
unfolding calls to_sql
find_by_twice_sample = refl

-- A filter made by `or` is emptied, but stays one of alternatives, to which `find_by` cannot add.
find_by_panics_sample :
    calls users
      (Method.filter email one ∷ Method.or (Query.filter email one) ∷ Method.find_by email one ∷ [])
      (Query.new users)
    ≡ none
unfolding calls
find_by_panics_sample = refl

-- A limit takes an offset away.
limit_sample :
    sql (calls users (Method.offset (pos 5) ∷ Method.take_many (pos 3) ∷ []) (Query.new users))
    ≡ some (codes "SELECT * FROM \"users\" LIMIT 3")
unfolding calls to_sql
limit_sample = refl

abbrev methods : List Method
methods =
    Method.filter email one
    ∷ Method.or (Query.filter email (Value.string (codes "a")))
    ∷ Method.first_many (pos 3)
    ∷ Method.update_all ((email, one) ∷ [])
    ∷ []

called :
    calls users methods (Query.new users) ≡ some (or_new (calls users methods (Query.new users)))
unfolding calls
called = refl

new-IsBound : IsBound (Query.new users)
unfolding ids numbers
new-IsBound = refl

calls-IsBound_example : IsBound (or_new (calls users methods (Query.new users)))
calls-IsBound_example =
    calls-IsBound users methods (Query.new users) (or_new (calls users methods (Query.new users)))
      (tt, (filter-CanJoin email (Value.string (codes "a")), (tt, (tt, tt)))) new-IsBound called

abbrev filtered : Select
filtered = record (Select.new (codes "users") (codes "id")) {
  where_clause = clauses_of (cons (equal email (placeholder 1)) nil) and_;
  placeholders = one ∷ [];
}

find_by_keeps_values_example :
    Query.find_by email (Value.string (codes "a")) (select filtered)
    ≡ found email (Value.string (codes "a")) filtered and_
find_by_keeps_values_example =
    find_by_keeps_values email (Value.string (codes "a")) filtered
      (cons (equal email (placeholder 1)) nil) and_ refl refl

-- A table of one record, which an insert puts there
abbrev is_insert : Text → Bool
is_insert [] = false
is_insert (c ∷ t) = c == b'I'

abbrev answer : Bool → Bool → Outcome Error (List ℕ) × Bool
answer true there = (ok (1 ∷ []), true)
answer false true = (ok (1 ∷ []), true)
answer false false = (ok [], false)

abbrev table : Database
table = record {
  State = Bool;
  Row = ℕ;
  connect = λ t. (ok tt, t);
  query_cached = λ text values t. answer (is_insert text) t;
}

abbrev selected : Select
selected = Select.new (codes "users") (codes "id")

abbrev row : Insert
row = Query.inserted users ((email, one) ∷ [])

reads : (t : Bool) → (answer false t).1 ≡ t
reads true = refl
reads false = refl

find_sql : select_sql no_floats selected ≡ some (codes "SELECT * FROM \"users\"")
unfolding select_sql
find_sql = refl

make_sql :
    insert_sql no_floats row
    ≡ some (codes "INSERT INTO \"users\" (\"email\") VALUES ($1) RETURNING *")
unfolding insert_sql Write.insert_columns
make_sql = refl

find_or_create_twice_example :
    (r : ℕ) × (more : List ℕ) × (execute_internal table no_floats
        (insert_if_not_exists selected row false)
        true
      ≡ (ok (r ∷ more), true))
find_or_create_twice_example =
    find_or_create_twice table no_floats selected row false find_sql make_sql (λ t. refl) reads
      (λ t t' rows e.
        (1, [], subst (λ u. answer false u ≡ (ok (1 ∷ []), u)) (ap (λ r. r.1) e) refl))
      false true (1 ∷ []) (unfold execute_internal Write.insert_columns in refl)
