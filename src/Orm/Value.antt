-- ===== src/Orm/Value.antt =====
-- `Value` of rwf/src/model/value.rs, `Column` of model/column.rs and model/escape.rs. Values that are
-- only printed (times, addresses, JSON) are their text. `none` is a panic, from a `todo!()`.
pub mod Literal
use rwf.Prelude.{
  ℕ, Option, none, some, List, [], ◌∷◌, ◌++◌, Bool, true, false, is_empty, if◌then◌else◌,
}
use rwf.Prelude.Int.{ℤ}
use rwf.Prelude.Text.{Text, codes, replace_char, print_i64, print_nat, join}

mutual
  pub data Value : Type 0 where
    string : Text → Value
    integer big_int int small_int : ℤ → Value
    float real : ℕ → Value
    boolean : Bool → Value
    timestamp_t timestamp ip_addr uuid : Text → Value
    list : Values → Value
    record_ : Value → Value
    placeholder : ℕ → Value
    range : Value → Value → Value
    column : Column → Value
    json : Text → Value
    optional : OptionalValue → Value
    function : Text → Values → Value
    null : Value

  pub data Values : Type 0 where
    nil : Values
    cons : Value → Values → Values

  pub data OptionalValue : Type 0 where
    absent : OptionalValue
    present : Value → OptionalValue

  pub data Column : Type 0 where
    column_of : (table_name column_name : Text) (as_value : OptionalValue) → Column

unfoldable pub is_null : Value → Bool
is_null (optional absent) = true
is_null null = true
is_null _ = false

unfoldable pub is_placeholder : Value → Bool
is_placeholder (placeholder n) = true
is_placeholder _ = false

-- `Escape for String`
unfoldable pub escape : Text → Text
unfolding replace_char
escape s = replace_char b'\'' (codes "''") (replace_char b'"' (codes "\"\"") s)

-- `Column::new`, `Column::name`, `qualified`, `qualify`, `unqualify`
unfoldable pub new_column : Text → Text → Column
new_column table name = column_of table name absent

unfoldable pub is_qualified : Column → Bool
is_qualified (column_of table name v) = if is_empty table then false else true

unfoldable pub qualify : Text → Column → Column
qualify table (column_of _ name v) = column_of table name v

unfoldable pub unqualify : Column → Column
unqualify (column_of _ name v) = column_of [] name v

infixl 5 ◌>>=◌
abbrev pub ◌>>=◌ {ℓ κ} : {A : Type ℓ} {B : Type κ} → Option A → (A → Option B) → Option B
none >>= f = none
some a >>= f = f a

quoted : Text → Text
unfolding escape
quoted s = codes "\"" ++ (escape s ++ codes "\"")

column_text : Text → Text → Text → Text
unfolding quoted
column_text prefix table name =
    if is_empty table
    then prefix ++ quoted name
    else prefix ++ (quoted table ++ (codes "." ++ quoted name))

-- Rust's printing of floats and `str::to_lowercase`
pub record Printers : Type 0 where
  pub f64_print : ℕ → Text
  pub f32_print : ℕ → Text
  pub str_lower : Text → Text

module _ (p : Printers) where
  open p use {f64_print, f32_print, str_lower}

  unfoldable mutual
    unfolding escape column_text print_i64 print_nat join replace_char

    pub value_sql : Value → Option Text
    value_sql (string s) = some (codes "'" ++ (escape s ++ codes "'"))
    value_sql (integer i) = some (print_i64 i)
    value_sql (int i) = some (print_i64 i)
    value_sql (big_int i) = some (print_i64 i)
    value_sql (small_int i) = some (print_i64 i)
    value_sql (float f) = some (f64_print f)
    value_sql (real f) = some (f32_print f)
    value_sql (ip_addr t) = some t
    value_sql (uuid t) = some t
    value_sql (placeholder n) = some (codes "$" ++ print_nat n)
    value_sql (range a b) = do
      x ← value_sql a
      y ← value_sql b
      some (codes "BETWEEN " ++ (x ++ (codes " AND " ++ y)))
    value_sql (list vs) = do
      ts ← values_sql vs
      some (codes "{" ++ (join (codes ", ") ts ++ codes "}"))
    value_sql (json t) = some (codes "'" ++ (replace_char b'\'' [] t ++ codes "'::jsonb"))
    value_sql (optional v) = optional_sql v
    value_sql (column c) = column_sql c
    value_sql (function name args) = do
      ts ← values_sql args
      some (
          codes "\""
          ++ (str_lower (escape name) ++ (codes "\"(" ++ (join (codes ", ") ts ++ codes ")"))))
    value_sql null = some (codes "NULL")
    value_sql _ = none

    values_sql : Values → Option (List Text)
    values_sql nil = some []
    values_sql (cons v vs) = do t ← value_sql v; ts ← values_sql vs; some (t ∷ ts)

    optional_sql : OptionalValue → Option Text
    optional_sql absent = some (codes "NULL")
    optional_sql (present v) = value_sql v

    as_sql : OptionalValue → Option Text
    as_sql absent = some []
    as_sql (present v) = do t ← value_sql v; some (t ++ codes " AS ")

    pub column_sql : Column → Option Text
    column_sql (column_of table name v) = do prefix ← as_sql v; some (column_text prefix table name)
