-- ===== src/Template/Token.antt =====
-- rwf/src/view/template/lexer/token.rs, `TokenWithContext` of lexer/mod.rs, and
-- rwf/src/view/template/error.rs.
use rwf.Prelude.{ℕ, String, List}
use rwf.Prelude.Text.{Text}
use rwf.Prelude.Outcome.{Outcome}
use rwf.Template.Value.{Value}

pub data Token : Type 0 where
  text : Text → Token
  variable : Text → Token
  string : Text → Token
  value : Value → Token
  if_ else_if else_ end_ : Token
  block_start block_start_print block_start_print_raw block_start_render block_end : Token
  print space dot and_ or_ not_ for_ in_ do_ plus minus mod_ div mult : Token
  equals not_equals greater_than greater_equal_than less_than less_equal_than : Token
  square_bracket_start square_bracket_end comma round_bracket_start round_bracket_end : Token

pub record TokenWithContext : Type 0 where
  pub token : Token
  pub line : ℕ
  pub column : ℕ

-- The iterator over the tokens that are left.
abbrev pub Tokens : Type 0
Tokens = List TokenWithContext

pub data Error : Type 0 where
  syntax : TokenWithContext → Error
  expression_syntax : TokenWithContext → Error
  wrong_token : TokenWithContext → Token → Error
  eof : String → Error
  undefined_variable : Text → Error
  unknown_method : Text → String → Error
  template_does_not_exist : Text → Error
  serialization_error : Error
  time_format_error : Error
  pretty : Text → Error
  runtime : Text → Error

abbrev pub Result : Type 0 → Type 0
Result A = Outcome Error A
