-- ===== src/Template/Value/Show.antt =====
-- `Display` and `to_string` of lexer/value.rs. The latter, a method of the type, is what a template
-- prints; it falls back on the derived `Debug`.
use rwf.Prelude.{List, [], ◌∷◌, ◌++◌, Bool, if◌then◌else◌}
use rwf.Prelude.Text.{Text, codes, print_i64, join}
use rwf.Template.Value.{
  Value, Values, Entries, integer, float, string, boolean, list, hash, null, interpreter,
  safe_string, nil, cons, end, entry,
}
use rwf.Template.Host.{Host}

abbrev show_bool : Bool → Text
show_bool b = if b then codes "true" else codes "false"

module _ (h : Host) where
  open h use {f64_print, debug}

  unfoldable mutual
    unfolding print_i64 join

    pub display : Value → Text
    display (integer i) = print_i64 i
    display (float f) = f64_print f
    display (string s) = s
    display (boolean b) = show_bool b
    display (list l) = codes "[" ++ (join (codes ", ") (display_values l) ++ codes "]")
    display (hash es) = codes "{" ++ (join (codes ", ") (display_entries es) ++ codes "}")
    display null = codes "null"
    display interpreter = codes "global"
    display (safe_string s) = s

    display_values : Values → List Text
    display_values nil = []
    display_values (cons v vs) = display v ∷ display_values vs

    display_entries : Entries → List Text
    display_entries end = []
    display_entries (entry k v es) = (k ++ (codes ": " ++ display v)) ∷ display_entries es

  unfoldable pub to_string : Value → Text
  unfolding print_i64
  to_string (string s) = s
  to_string (integer i) = print_i64 i
  to_string (float f) = f64_print f
  to_string (boolean b) = show_bool b
  to_string (safe_string s) = s
  to_string v = debug v
