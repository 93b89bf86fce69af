-- ===== src/Template/Statement/Parse.antt =====
-- `Statement::parse` and `Program::parse`, of language/statement.rs and language/program.rs. Fuel
-- bounds the depth of calls and the rounds of the loops, as in the parser of expressions.
use rwf.Prelude.{ℕ, zero, suc, ◌+◌, ◌*◌, List, [], ◌∷◌, ◌++◌, Bool, true, false, length}
use rwf.Prelude.Outcome.{ok, err, out_of_fuel, ◌>>=◌}
use rwf.Template.Value
use rwf.Template.Token.{
  Token, TokenWithContext, Tokens, Result, syntax, wrong_token, eof, block_end, block_start,
  block_start_print, block_start_print_raw, block_start_render, else_if, in_, value, text,
}
use rwf.Template.Expression.{Term, Expression, term}
use rwf.Template.Expression.Parse.{parse_expression}
use rwf.Template.Statement.{
  Statement, Statements, print, print_raw, print_text, if_, else_, end_, for_, render, statements,
}

abbrev pub Read : Type 0
Read = Result (Statement × Tokens)

-- The macro `block_end!`: the next token, if there is one, closes the block.
unfoldable pub expect_block_end : Tokens → Result Tokens
expect_block_end [] = ok []
expect_block_end (t ∷ ts) = elim t.token [ block_end ↦ ok ts | _ ↦ err (wrong_token t block_end) ]

-- An expression and the end of its block
unfoldable pub closed_expression : Tokens → Result (Expression × Tokens)
unfolding parse_expression expect_block_end
closed_expression ts = do (e, ts₁) ← parse_expression ts; ts₂ ← expect_block_end ts₁; ok (e, ts₂)

-- The path of `<%% "path" %>`
unfoldable pub render_path : Tokens → Read
unfolding expect_block_end
render_path [] = err (eof "block start render")
render_path (t ∷ ts) = do
  rest ← expect_block_end ts
  elim t.token [
    | value v ↦ elim v [ Value.string path ↦ ok (render path, rest) | _ ↦ err (syntax t) ]
    | _ ↦ err (syntax t)
  ]

unfoldable pub expect_in : Tokens → Result Tokens
expect_in [] = err (eof "statement for")
expect_in (t ∷ ts) = elim t.token [ in_ ↦ ok ts | _ ↦ err (wrong_token t in_) ]

-- Behind the variable of a loop; `t` is its `for` token.
unfoldable pub for_rest :
    TokenWithContext → Expression → Tokens → Result (Term × Expression × Tokens)
unfolding expect_in closed_expression
for_rest t (term v) ts = do ts₁ ← expect_in ts; (e, ts₂) ← closed_expression ts₁; ok (v, e, ts₂)
for_rest t _ ts = err (syntax t)

-- The head of a loop, `variable in list %>`
unfoldable pub for_head : TokenWithContext → Tokens → Result (Term × Expression × Tokens)
unfolding parse_expression for_rest
for_head t ts = do (e, ts₁) ← parse_expression ts; for_rest t e ts₁

-- A statement inside of `if_body`: it ends the statement, starts the `else` part, which `other` goes
-- on with, is an `elsif`, which takes the rest, or is one more of the body.
unfoldable pub in_if_body :
    (List Statement → Tokens → Read)
    → (List Statement → Tokens → Read)
    → Expression
    → Bool
    → List Statement
    → Statement
    → Tokens
    → Read
unfolding statements
in_if_body more other e elsif body end_ ts = ok (if_ e (statements body) (statements []) elsif, ts)
in_if_body more other e elsif body else_ ts = other [] ts
in_if_body more other e elsif body (if_ e₂ b₂ o₂ true) ts =
    ok (if_ e (statements body) (statements (if_ e₂ b₂ o₂ true ∷ [])) elsif, ts)
in_if_body more other e elsif body s ts = more (body ++ s ∷ []) ts

-- A statement inside of the `else` part or of a loop's body: it ends that, or is one more.
unfoldable pub in_body :
    (List Statement → Tokens → Read)
    → (List Statement → Statement)
    → List Statement
    → Statement
    → Tokens
    → Read
in_body more close body end_ ts = ok (close body, ts)
in_body more close body s ts = more (body ++ s ∷ []) ts

abbrev pub if_else : Expression → Bool → List Statement → List Statement → Statement
if_else e elsif body other = if_ e (statements body) (statements other) elsif

abbrev pub for_in : Term → Expression → List Statement → Statement
for_in v e body = for_ v e (statements body)

unfoldable mutual
  unfolding closed_expression expect_block_end render_path for_head parse_expression statements
      in_if_body in_body

  -- `Statement::parse`
  pub parse_statement : ℕ → Tokens → Read
  parse_statement zero ts = out_of_fuel
  parse_statement (suc f) [] = err (eof "statement parse")
  parse_statement (suc f) (t ∷ ts) = elim t.token [
    | Token.end_ ↦ (do rest ← expect_block_end ts; ok (end_, rest))
    | text s ↦ ok (print_text s, ts)
    | block_start ↦ parse_statement f ts
    | block_end ↦ parse_statement f ts
    | block_start_print ↦ (do (e, rest) ← closed_expression ts; ok (print e, rest))
    | block_start_print_raw ↦ (do (e, rest) ← closed_expression ts; ok (print_raw e, rest))
    | block_start_render ↦ render_path ts
    | Token.else_ ↦ (do rest ← expect_block_end ts; ok (else_, rest))
    | Token.if_ ↦ (do (e, rest) ← parse_expression ts; if_body f e false [] rest)
    | else_if ↦ (do (e, rest) ← parse_expression ts; if_body f e true [] rest)
    | Token.for_ ↦ (do (v, e, rest) ← for_head t ts; for_body f v e [] rest)
    | _ ↦ err (syntax t)
  ]

  -- The loop that collects `if_body`
  pub if_body : ℕ → Expression → Bool → List Statement → Tokens → Read
  if_body zero e elsif body ts = out_of_fuel
  if_body (suc f) e elsif body ts = do
    (s, rest) ← parse_statement f ts
    in_if_body (if_body f e elsif) (else_body f e elsif body) e elsif body s rest

  -- The loop that collects `else_body`
  pub else_body : ℕ → Expression → Bool → List Statement → List Statement → Tokens → Read
  else_body zero e elsif body other ts = out_of_fuel
  else_body (suc f) e elsif body other ts = do
    (s, rest) ← parse_statement f ts
    in_body (else_body f e elsif body) (if_else e elsif body) other s rest

  -- The loop that collects the body of a `for`
  pub for_body : ℕ → Term → Expression → List Statement → Tokens → Read
  for_body zero v e body ts = out_of_fuel
  for_body (suc f) v e body ts = do
    (s, rest) ← parse_statement f ts
    in_body (for_body f v e) (for_in v e) body s rest

-- The loop of `Program::parse`
unfoldable pub program_from : ℕ → List Statement → Tokens → Result (List Statement)
unfolding parse_statement
program_from f ss [] = ok ss
program_from zero ss (t ∷ ts) = out_of_fuel
program_from (suc f) ss (t ∷ ts) = do
  (s, rest) ← parse_statement f (t ∷ ts)
  program_from f (ss ++ s ∷ []) rest

-- `Program::parse`
unfoldable pub parse_program : Tokens → Result Statements
unfolding program_from statements
parse_program ts = do ss ← program_from (2 * length ts + 2) [] ts; ok (statements ss)
