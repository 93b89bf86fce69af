-- ===== src/Template/Lexer/Arms.antt =====
-- The arms of the loop in `Lexer::tokens`. Each is given the state after the column count and the
-- characters behind its own, and returns the state and the characters left.
use rwf.Prelude.{ℕ, ◌+◌, ◌-◌, [], ◌∷◌, ◌++◌, true, false, ◌==◌, if◌then◌else◌}
use rwf.Prelude.Text.{Text, is_digit}
use rwf.Prelude.Outcome.{ok, err}
use rwf.Template.Value.{Value}
use rwf.Template.Token.{
  Token, Result, eof, value, block_start, block_start_print, block_start_print_raw,
  block_start_render, block_end, space, dot, not_, plus, minus, mod_, div, mult, not_equals,
  square_bracket_start, square_bracket_end, comma, round_bracket_start, round_bracket_end,
}
use rwf.Template.Host.{Host}
use rwf.Template.Lexer.Buffer.{Lexer, emit, push, drain_buffer}

abbrev pub Step : Type 0
Step = Lexer × Text

abbrev enter : Lexer → Lexer
enter s = record s { code_block = true }

module _ (h : Host) where
  open h use {is_numeric}

  -- Drain the buffer, then add a token.
  token : Token → Lexer → Lexer
  unfolding drain_buffer emit
  token t s = emit t (drain_buffer h s)

  -- The character after `<%`
  unfoldable pub block_open : Lexer → Text → Step
  unfolding token emit push
  block_open s [] = (token block_start s, [])
  block_open s (c ∷ rest) =
      if c == b'='
      then (enter (token block_start_print s), rest)
      else if c == b'-'
      then (enter (token block_start_print_raw s), rest)
      else if c == b'%'
      then (enter (token block_start_render s), rest)
      else if c == b' '
      then (enter (emit space (token block_start s)), rest)
      else (enter (push c (token block_start s)), rest)

  unfoldable pub less : Lexer → Text → Step
  unfolding block_open push
  less s [] = (s, [])
  less s (c ∷ rest) = if c == b'%' then block_open s rest else (push c (push b'<' s), rest)

  -- A dot behind a number
  unfoldable pub dot_number : Lexer → Text → Step
  unfolding token emit push drain_buffer
  dot_number s [] = (drain_buffer h (push b'.' s), [])
  dot_number s (c ∷ rest) =
      if is_numeric c
      then (push c (push b'.' s), rest)
      else if c == b' '
      then (token space (push b'.' s), rest)
      else (push c (token dot s), rest)

  unfoldable pub dot_ : Lexer → Text → Step
  unfolding dot_number token push
  dot_ s rest =
      if s.code_block
      then if s.number then dot_number s rest else (token dot s, rest)
      else (push b'.' s, rest)

  unfoldable pub bang_code : Lexer → Text → Result Step
  unfolding token emit push
  bang_code s [] = err (eof "lexer !")
  bang_code s (c ∷ rest) =
      if c == b'='
      then ok (token not_equals s, rest)
      else if c == b' '
      then ok (emit space (emit not_ s), rest)
      else ok (push c (emit not_ s), rest)

  unfoldable pub bang : Lexer → Text → Result Step
  unfolding bang_code push
  bang s rest = if s.code_block then bang_code s rest else ok (push b'!' s, rest)

  -- In a code block a `%` that closes no block is the modulus, and the character behind it is gone.
  unfoldable pub percent : Lexer → Text → Step
  unfolding token push
  percent s [] = if s.code_block then (token mod_ s, []) else (push b'%' s, [])
  percent s (c ∷ rest) =
      if c == b'>'
      then (if s.code_block
          then (record (token block_end s) { code_block = false }, rest)
          else (push b'>' (push b'%' s), rest))
      else if s.code_block
      then (token mod_ s, rest)
      else (push c (push b'%' s), rest)

  -- The characters of a string literal up to the closing quote; without one, no token is added.
  unfoldable pub quoted : Lexer → Text → Text → Step
  unfolding emit
  quoted s str [] = (s, [])
  quoted s str (c ∷ rest) =
      let more = quoted s (str ++ c ∷ []) rest in
      if c == b'"' then (emit (value (Value.string str)) s, rest) else more

  unfoldable pub quote : Lexer → Text → Step
  unfolding quoted drain_buffer push
  quote s rest = if s.code_block then quoted (drain_buffer h s) [] rest else (push b'"' s, rest)

  -- A character that is a token of its own in a code block, and text outside.
  sign : ℕ → Token → Lexer → Lexer
  unfolding token push
  sign c t s = if s.code_block then token t s else push c s

  digit : ℕ → Lexer → Lexer
  unfolding push
  digit c s = if s.code_block then push c (record s { number = true }) else push c s

  -- The `match c` of the loop
  unfoldable pub dispatch : ℕ → Lexer → Text → Result Step
  unfolding less dot_ bang percent quote sign digit is_digit push
  dispatch c s rest =
      if c == b'\n'
      then ok (push c (record s { line = s.line + 1; column = 1 }), rest)
      else if c == b'\r'
      then ok (record s { column = s.column - 1 }, rest)
      else if c == b'<'
      then ok (less s rest)
      else if c == b'.'
      then ok (dot_ s rest)
      else if c == b'!'
      then bang s rest
      else if c == b'%'
      then ok (percent s rest)
      else if c == b'"'
      then ok (quote s rest)
      else if c == b' '
      then ok (sign c space s, rest)
      else if c == b'+'
      then ok (sign c plus s, rest)
      else if c == b'-'
      then ok (sign c minus s, rest)
      else if c == b'*'
      then ok (sign c mult s, rest)
      else if c == b'/'
      then ok (sign c div s, rest)
      else if is_digit c
      then ok (digit c s, rest)
      else if c == b'['
      then ok (sign c square_bracket_start s, rest)
      else if c == b','
      then ok (sign c comma s, rest)
      else if c == b']'
      then ok (sign c square_bracket_end s, rest)
      else if c == b'('
      then ok (sign c round_bracket_start s, rest)
      else if c == b')'
      then ok (sign c round_bracket_end s, rest)
      else ok (push c s, rest)

  -- One round of the loop
  unfoldable pub step : ℕ → Lexer → Text → Result Step
  unfolding dispatch
  step c s rest = dispatch c (record s { column = s.column + 1 }) rest
