-- ===== src/Orm/Model/Tests.antt =====
-- The methods of a model at fixed inputs.
use rwf.Prelude.{Option, none, some, [], ◌∷◌, ◌≡◌, refl}
use rwf.Prelude.Int.{pos}
use rwf.Prelude.Text.{Text, codes}
use rwf.Orm.Value.{Value, Column, Printers, column_of, absent, ◌>>=◌}
use rwf.Orm.Query.{Names, Query, to_sql}
use rwf.Orm.Model

abbrev orders : Names
orders = record {
  table_name = codes "orders";
  primary_key = codes "id";
  foreign_key = codes "order_id";
  column_names = codes "user_id" ∷ codes "name" ∷ [];
}

abbrev no_floats : Printers
no_floats = record { f64_print = λ n. []; f32_print = λ n. []; str_lower = λ t. t }

abbrev sql : Option Query → Option Text
sql q = do r ← q; to_sql no_floats r

abbrev or_all : Option Query → Query
or_all none = Model.all orders
or_all (some q) = q

abbrev five : Value
five = Value.integer (pos 5)

abbrev user_id : Column
user_id = column_of [] (codes "user_id") absent

find_sample :
    sql (Model.find orders five)
    ≡ some (codes "SELECT * FROM \"orders\" WHERE \"orders\".\"id\" = $1 LIMIT 1")
unfolding Model.find to_sql
find_sample = refl

related_sample :
    sql (Model.related orders orders (five ∷ Value.null ∷ []))
    ≡ some (codes "SELECT * FROM \"orders\" WHERE \"orders\".\"order_id\" = ANY($1)")
unfolding Model.related to_sql
related_sample = refl

save_new_sample :
    to_sql no_floats (Model.save orders Value.null (five ∷ five ∷ []))
    ≡ some (codes "INSERT INTO \"orders\" (\"user_id\", \"name\") VALUES ($1, $2) RETURNING *")
unfolding Model.save to_sql
save_new_sample = refl

save_sample :
    to_sql no_floats (Model.save orders five (five ∷ five ∷ []))
    ≡ some (
        codes "UPDATE \"orders\" SET \"user_id\" = $2, \"name\" = $3 WHERE \"id\" = $1 RETURNING *")
unfolding Model.save to_sql
save_sample = refl

abbrev found : Query
found = or_all (Model.find_or_create_by orders ((user_id, five) ∷ []))

find_or_create_by_sample :
    to_sql no_floats found
    ≡ some (
        codes
          "SELECT * FROM \"orders\" WHERE \"orders\".\"user_id\" = $1; INSERT INTO \"orders\" (\"user_id\") VALUES ($1) RETURNING *;")
unfolding Model.find_or_create_by to_sql
find_or_create_by_sample = refl
