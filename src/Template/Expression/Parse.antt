-- ===== src/Template/Expression/Parse.antt =====
-- The parser of language/expression.rs. The iterator is the list of the tokens left. Fuel bounds
-- the depth of calls: the calls of one another, and the rounds of the loops that call the parser.
use rwf.Prelude.{
  ℕ, zero, suc, ◌+◌, ◌*◌, none, some, List, [], ◌∷◌, ◌++◌, Bool, true, false, is_empty,
  if◌then◌else◌, length,
}
use rwf.Prelude.Text.{Text, print_i64}
use rwf.Prelude.Outcome.{ok, err, out_of_fuel, ◌>>=◌}
use rwf.Template.Value.{string, integer}
use rwf.Template.Token.{
  Tokens, Result, eof, expression_syntax, wrong_token, not_, minus, plus, round_bracket_start,
  round_bracket_end, square_bracket_start, square_bracket_end, comma, dot, block_end, variable,
  value,
}
use rwf.Template.Op.{Op, from_token, op_lt}
use rwf.Template.Expression.{
  Term, Expression, binary, unary, term, list, function, interpreter, expressions,
}

abbrev pub Parsed : Type 0
Parsed = Result (Expression × Tokens)

abbrev name_of : Text → Expression
name_of name = term (Term.constant (string name))

-- The loop over a bracketed expression: the tokens up to the bracket that closes it. `depth` is the
-- count of open brackets, less one.
unfoldable pub bracketed : ℕ → Tokens → Tokens → Result (Tokens × Tokens)
bracketed depth expr [] = err (eof "round bracket start")
bracketed depth expr (t ∷ ts) = elim t.token [
  | round_bracket_start ↦ bracketed (suc depth) (expr ++ t ∷ []) ts
  | round_bracket_end ↦ elim depth [
    | zero ↦ ok (expr, ts)
    | suc d ↦ bracketed d (expr ++ t ∷ []) ts
  ]
  | block_end ↦ err (expression_syntax t)
  | _ ↦ bracketed depth (expr ++ t ∷ []) ts
]

-- The loop over a function's arguments, with the parser it calls on each.
unfoldable pub arguments :
    (Tokens → Parsed) → Tokens → List Expression → Tokens → Result (List Expression × Tokens)
arguments parse buffer args [] = ok (args, [])
arguments parse buffer args (t ∷ ts) = elim t.token [
  | round_bracket_end ↦
      if is_empty buffer then ok (args, ts) else (do (e, _) ← parse buffer; ok (args ++ e ∷ [], ts))
  | comma ↦ (do (e, _) ← parse buffer; arguments parse [] (args ++ e ∷ []) ts)
  | _ ↦ arguments parse (buffer ++ t ∷ []) args ts
]

abbrev pub starts_round : Tokens → Bool
starts_round [] = false
starts_round (t ∷ ts) = elim t.token [ round_bracket_start ↦ true | _ ↦ false ]

abbrev rest_of : Tokens → Tokens
rest_of [] = []
rest_of (t ∷ ts) = ts

-- `Expression::function`
unfoldable pub call_of : (Tokens → Parsed) → Text → Expression → Tokens → Parsed
unfolding arguments
call_of parse name e ts =
    if starts_round ts
    then (do
      (args, rest) ← arguments parse [] [] (rest_of ts)
      ok (function e (name_of name) (expressions args), rest))
    else ok (function e (name_of name) (expressions []), ts)

-- The end of `Expression::parse`: where the second operator binds tighter it takes the right term.
unfoldable pub combine : Expression → Op → Expression → Op → Expression → Result Expression
unfolding op_lt
combine left op right second_op right2 = do
  tighter ← op_lt second_op op
  ok (
      if tighter
      then binary left op (binary right second_op right2)
      else binary (binary left op right) second_op right2)

-- The token behind a list's term: `more` goes on with the next term.
unfoldable pub after_item :
    (List Expression → Tokens → Result (List Expression × Tokens))
    → List Expression
    → Tokens
    → Result (List Expression × Tokens)
after_item more es [] = err (eof "term token")
after_item more es (t ∷ ts) = elim t.token [
  | square_bracket_end ↦ ok (es, ts)
  | comma ↦ more es ts
  | _ ↦ err (expression_syntax t)
]

-- The name behind a dot: a variable, perhaps with arguments, or a number.
unfoldable pub member :
    (Tokens → Parsed) → (Expression → Tokens → Parsed) → Expression → Tokens → Parsed
unfolding call_of print_i64
member parse access e [] = err (eof "accessor name")
member parse access e (t ∷ ts) = elim t.token [
  | variable name ↦ (do (e', rest) ← call_of parse name e ts; access e' rest)
  | value v ↦ elim v [
    | integer i ↦ access (function e (name_of (print_i64 i)) (expressions [])) ts
    | _ ↦ err (expression_syntax t)
  ]
  | _ ↦ err (expression_syntax t)
]

-- The bracket behind an index
unfoldable pub close_index :
    (Expression → Tokens → Parsed) → Expression → Expression → Tokens → Parsed
close_index access e name [] = err (eof "expected closing bracket")
close_index access e name (t ∷ ts) = elim t.token [
  | square_bracket_end ↦ access (function e name (expressions [])) ts
  | other ↦ err (wrong_token t other)
]

-- Behind the second term of `left op right`: the end of the expression, or a second operator.
unfoldable pub second_operator : (Tokens → Parsed) → Expression → Op → Expression → Tokens → Parsed
unfolding combine from_token
second_operator parse left op right [] = ok (binary left op right, [])
second_operator parse left op right (t ∷ ts) = elim t.token [
  | block_end ↦ ok (binary left op right, t ∷ ts)
  | other ↦ elim (from_token other) [
    | none ↦ err (expression_syntax t)
    | some second_op ↦ (do
      (right2, rest) ← parse ts
      e ← combine left op right second_op right2
      ok (e, rest))
  ]
]

-- Behind the first term: an operator and the second term, or the end of the expression.
unfoldable pub first_operator : (Tokens → Parsed) → (Tokens → Parsed) → Expression → Tokens → Parsed
unfolding second_operator from_token
first_operator parse parse_term left [] = ok (left, [])
first_operator parse parse_term left (t ∷ ts) = elim (from_token t.token) [
  | none ↦ ok (left, t ∷ ts)
  | some op ↦ (do (right, rest) ← parse_term ts; second_operator parse left op right rest)
]

unfoldable mutual
  unfolding bracketed call_of after_item member close_index first_operator expressions

  pub parse : ℕ → Tokens → Parsed
  parse zero ts = out_of_fuel
  parse (suc f) ts = do
    (left, rest) ← parse_term f ts
    first_operator (parse f) (parse_term f) left rest

  -- `Expression::term`
  pub parse_term : ℕ → Tokens → Parsed
  parse_term zero ts = out_of_fuel
  parse_term (suc f) [] = err (eof "term next")
  parse_term (suc f) (t ∷ ts) = elim t.token [
    | not_ ↦ (do (e, rest) ← parse_term f ts; ok (unary Op.not_ e, rest))
    | minus ↦ (do (e, rest) ← parse_term f ts; ok (unary Op.sub e, rest))
    | plus ↦ (do (e, rest) ← parse_term f ts; ok (unary Op.add e, rest))
    | round_bracket_start ↦ (do
      (inner, rest) ← bracketed zero [] ts
      (e, _) ← parse f inner
      accessor f e rest)
    | variable name ↦
        let read_call = do (e, rest) ← call_of (parse f) name interpreter ts; accessor f e rest
        in let read_variable = accessor f (term (Term.variable name)) ts in
          if starts_round ts then read_call else read_variable
    | value v ↦ accessor f (term (Term.constant v)) ts
    | square_bracket_start ↦ (do
      (es, rest) ← items f [] ts
      accessor f (list (expressions es)) rest)
    | _ ↦ err (expression_syntax t)
  ]

  -- The loop over the terms of a list
  pub items : ℕ → List Expression → Tokens → Result (List Expression × Tokens)
  items zero es ts = out_of_fuel
  items (suc f) es ts = do (e, rest) ← parse_term f ts; after_item (items f) (es ++ e ∷ []) rest

  -- The loop of `Expression::accessor`
  pub accessor : ℕ → Expression → Tokens → Parsed
  accessor zero e ts = out_of_fuel
  accessor (suc f) e [] = ok (e, [])
  accessor (suc f) e (t ∷ ts) = elim t.token [
    | dot ↦ member (parse f) (accessor f) e ts
    | square_bracket_start ↦ (do (name, rest) ← parse f ts; close_index (accessor f) e name rest)
    | _ ↦ ok (e, t ∷ ts)
  ]

-- The fuel for so many tokens
abbrev pub fuel_for : Tokens → ℕ
fuel_for ts = 2 * length ts + 2

-- `Expression::parse`
unfoldable pub parse_expression : Tokens → Parsed
unfolding parse
parse_expression ts = parse (fuel_for ts) ts
