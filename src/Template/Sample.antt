-- ===== src/Template/Sample.antt =====
-- A concrete host for the tests: f64 values are whole numbers, there are no files, and letters
-- have their ASCII case.
use Prim.Native.Nat.{compare}
use rwf.Prelude.{◌+◌, ◌-◌, ◌*◌, ◌/◌, ◌==◌, none, some, true, map, [], ◌∷◌}
use rwf.Prelude.Int.{pos, pos_part}
use rwf.Prelude.Text.{is_digit, print_nat, to_ascii_uppercase, to_ascii_lowercase}
use rwf.Template.Host.{Host}

abbrev pub sample_host : Host
sample_host = record {
  overflow_checks = true;
  of_i64 = pos_part;
  to_i64 = pos;
  f64_add = λ a b. a + b;
  f64_sub = λ a b. a - b;
  f64_mul = λ a b. a * b;
  f64_div = λ a b. a / b;
  f64_neg = λ a. a;
  f64_abs = λ a. a;
  f64_ceil = λ a. a;
  f64_floor = λ a. a;
  f64_round = λ a. a;
  f64_eq = λ a b. a == b;
  f64_cmp = λ a b. some (compare a b);
  f64_print = print_nat;
  f64_parse = λ t. none;
  is_numeric = is_digit;
  char_upper = λ c. to_ascii_uppercase c ∷ [];
  str_upper = map to_ascii_uppercase;
  str_lower = map to_ascii_lowercase;
  debug = λ v. [];
  read_file = λ p. none;
  encrypt_number = λ n. none;
  decrypt_number = λ t. none;
  csrf_token = λ t. none;
  head_html = [];
  turbo_stream_html = [];
  pretty_from_path = λ p e. e;
}
