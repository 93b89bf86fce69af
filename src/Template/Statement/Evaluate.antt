-- ===== src/Template/Statement/Evaluate.antt =====
-- `Statement::evaluate` of language/statement.rs.
use rwf.Prelude.{List, [], ◌∷◌, ◌++◌, map, Bool, true, false, if◌then◌else◌}
use rwf.Prelude.Text.{Text, codes, text_eq}
use rwf.Prelude.Outcome.{Outcome, ok, err, panic, ◌>>=◌}
use rwf.Strings.{safe_html}
use rwf.Template.Value.{Value, end, entry, to_list, to_entries}
use rwf.Template.Value.Compare.{truthy}
use rwf.Template.Value.Show.{display, to_string}
use rwf.Template.Value.Methods.{pair}
use rwf.Template.Value.Call.{Context, Renderer}
use rwf.Template.Token.{Result, undefined_variable, runtime}
use rwf.Template.Host.{Host}
use rwf.Template.Expression.{Term, Expression, term}
use rwf.Template.Expression.Evaluate.{evaluate}
use rwf.Template.Statement.{
  Statement, Statements, print, print_raw, print_text, if_, else_, end_, for_, render, nil, cons,
}

-- `Context::set`, the insertion into the map of the variables
set : Text → Value → Context → Context
unfolding text_eq
set k v end = entry k v end
set k v (entry j w es) =
    let rest = set k v es in if text_eq j k then entry k v es else entry j w rest

module _ (h : Host) where
  -- The test of an `if`: an undefined variable on its own is false.
  test_of : Expression → Result Value → Result Bool
  unfolding truthy
  test_of e (ok v) = ok (truthy h v)
  test_of (term t) (err (undefined_variable name)) = ok false
  test_of e (err x) = err x
  test_of e panic = panic
  test_of e Outcome.out_of_fuel = Outcome.out_of_fuel

  -- What `<%= … %>` prints
  unfoldable pub escaped : Value → Text
  unfolding safe_html to_string
  escaped (Value.safe_string s) = s
  escaped v = safe_html (to_string h v)

  -- The values that a `for` runs over
  iterate : Value → Result (List Value)
  unfolding to_list to_entries pair display
  iterate (Value.list vs) = ok (to_list vs)
  iterate (Value.hash es) = ok (map pair (to_entries es))
  iterate (Value.string s) = ok (map (λ c. Value.string (c ∷ [])) s)
  iterate v = err (runtime (codes "not an iterable: " ++ display h v))

-- The context of one round
bind_variable : Term → Value → Context → Result Context
unfolding set
bind_variable (Term.variable name) v context = ok (set name v context)
bind_variable (Term.constant c) v context = ok context
bind_variable (Term.function name) v context = panic

-- The loop of a `for`; the context is carried from round to round.
for_each : (Context → Result Text) → Term → List Value → Context → Result Text
unfolding bind_variable
for_each body x [] context = ok []
for_each body x (v ∷ vs) context = do
  context' ← bind_variable x v context
  out ← body context'
  rest ← for_each body x vs context'
  ok (out ++ rest)

module _ (h : Host) (renderer : Renderer) where
  unfoldable mutual
    unfolding evaluate test_of escaped iterate for_each to_string

    pub evaluate_statement : Statement → Context → Result Text
    evaluate_statement (render path) context = renderer.at_path path context
    evaluate_statement (print_text s) context = ok s
    evaluate_statement (if_ e body other elsif) context = do
      truthy ← test_of h e (evaluate h renderer e context)
      elim truthy [
        | true ↦ evaluate_statements body context
        | false ↦ evaluate_statements other context
      ]
    evaluate_statement (print_raw e) context = do
      v ← evaluate h renderer e context
      ok (to_string h v)
    evaluate_statement (print e) context = do v ← evaluate h renderer e context; ok (escaped h v)
    evaluate_statement (for_ x e body) context = do
      v ← evaluate h renderer e context
      vs ← iterate h v
      for_each (evaluate_statements body) x vs context
    evaluate_statement else_ context = panic
    evaluate_statement end_ context = panic

    -- `Program::evaluate`, and the loops over a body
    pub evaluate_statements : Statements → Context → Result Text
    evaluate_statements nil context = ok []
    evaluate_statements (cons s ss) context = do
      out ← evaluate_statement s context
      rest ← evaluate_statements ss context
      ok (out ++ rest)
