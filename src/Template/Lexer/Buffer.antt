-- ===== src/Template/Lexer/Buffer.antt =====
-- The state of `Lexer` and `drain_buffer`, which turns the buffered characters into a token.
use rwf.Prelude.{ℕ, Option, none, some, [], ◌∷◌, ◌++◌, Bool, true, false, is_empty, if◌then◌else◌}
use rwf.Prelude.Text.{Text, codes, text_eq, trim, parse_i64}
use rwf.Template.Value.{Value}
use rwf.Template.Token.{
  Token, TokenWithContext, Tokens, text, variable, value, if_, else_if, else_, end_, for_, in_, do_,
  and_, or_, equals, not_equals, greater_than, greater_equal_than, less_than, less_equal_than,
}
use rwf.Template.Host.{Host}

pub record Lexer : Type 0 where
  pub tokens : Tokens
  pub buffer : Text
  pub code_block : Bool
  pub number : Bool
  pub line : ℕ
  pub column : ℕ

abbrev pub new : Lexer
new = record { tokens = []; buffer = []; code_block = false; number = false; line = 1; column = 1 }

add_token : Lexer → Token → TokenWithContext
add_token s t = record { token = t; line = s.line; column = s.column }

-- `self.tokens.push(self.add_token(t))`
unfoldable pub emit : Token → Lexer → Lexer
unfolding add_token
emit t s = record s { tokens = s.tokens ++ add_token s t ∷ [] }

-- `self.buffer.push(c)`
unfoldable pub push : ℕ → Lexer → Lexer
push c s = record s { buffer = s.buffer ++ c ∷ [] }

keyword : Text → Option Token
unfolding text_eq
keyword s =
    if text_eq s (codes "if")
    then some if_
    else if text_eq s (codes "else")
    then some else_
    else if text_eq s (codes "elsif")
    then some else_if
    else if text_eq s (codes "end")
    then some end_
    else if text_eq s (codes "for")
    then some for_
    else if text_eq s (codes "in")
    then some in_
    else if text_eq s (codes "do")
    then some do_
    else if text_eq s (codes "&&")
    then some and_
    else if text_eq s (codes "||")
    then some or_
    else if text_eq s (codes "==")
    then some equals
    else if text_eq s (codes "!=")
    then some not_equals
    else if text_eq s (codes ">")
    then some greater_than
    else if text_eq s (codes ">=")
    then some greater_equal_than
    else if text_eq s (codes "<")
    then some less_than
    else if text_eq s (codes "<=")
    then some less_equal_than
    else if text_eq s (codes "true")
    then some (value (Value.boolean true))
    else if text_eq s (codes "false")
    then some (value (Value.boolean false))
    else none

module _ (h : Host) where
  open h use {f64_parse}

  -- The last arm of `drain_buffer`: `st` is the trimmed text, `s` the whole.
  literal : Text → Text → Option Token
  unfolding parse_i64 trim
  literal st s = elim (parse_i64 st) [
    | some n ↦ some (value (Value.integer n))
    | none ↦ elim (f64_parse st) [
      | some f ↦ some (value (Value.float f))
      | none ↦ if is_empty (trim st) then none else some (variable s)
    ]
  ]

  emit_literal : Option Token → Lexer → Lexer
  unfolding emit
  emit_literal none s = s
  emit_literal (some t) s = emit t s

  unfoldable pub drain_buffer : Lexer → Lexer
  unfolding keyword literal emit_literal emit trim
  drain_buffer s =
      let taken = record s { buffer = [] } in
      if is_empty s.buffer
      then s
      else if s.code_block
      then (elim (keyword (trim s.buffer)) [
        | some t ↦ emit t taken
        | none ↦ emit_literal (literal (trim s.buffer) s.buffer) (record taken { number = false })
      ])
      else emit (text s.buffer) taken
