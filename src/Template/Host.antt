-- ===== src/Template/Host.antt =====
-- What the template engine uses and this library does not define: the arithmetic of f64, the
-- Unicode tables of Rust's standard library, the derived `Debug` text of a value, files, the
-- encryption of rwf/src/crypto.rs, the two templates compiled into the program and the display of
-- errors (`pretty_from_path` of error.rs). The profile decides what an integer overflow does.
use Prim.Native.Nat.{Ordering}
use rwf.Prelude.{ℕ, Option, Bool}
use rwf.Prelude.Int.{ℤ}
use rwf.Prelude.Text.{Text}
use rwf.Template.Value.{F64, Value}
use rwf.Template.Token.{Error}

pub record Host : Type 0 where
  -- `overflow-checks` of the build profile: an overflow panics, or wraps.
  pub overflow_checks : Bool
  pub of_i64 : ℤ → F64
  pub to_i64 : F64 → ℤ
  pub f64_add : F64 → F64 → F64
  pub f64_sub : F64 → F64 → F64
  pub f64_mul : F64 → F64 → F64
  pub f64_div : F64 → F64 → F64
  pub f64_neg : F64 → F64
  pub f64_abs : F64 → F64
  pub f64_ceil : F64 → F64
  pub f64_floor : F64 → F64
  pub f64_round : F64 → F64
  pub f64_eq : F64 → F64 → Bool
  pub f64_cmp : F64 → F64 → Option Ordering
  pub f64_print : F64 → Text
  pub f64_parse : Text → Option F64
  pub is_numeric : ℕ → Bool
  pub char_upper : ℕ → Text
  pub str_upper : Text → Text
  pub str_lower : Text → Text
  pub debug : Value → Text
  pub read_file : Text → Option Text
  pub encrypt_number : ℤ → Option Text
  pub decrypt_number : Text → Option ℤ
  pub csrf_token : Text → Option Text
  pub head_html : Text
  pub turbo_stream_html : Text
  pub pretty_from_path : Text → Error → Error
