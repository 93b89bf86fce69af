-- ===== src/Template/Expression/Evaluate.antt =====
-- `Term::evaluate` and `Expression::evaluate`.
use rwf.Prelude.{List, [], ◌∷◌, ◌++◌, Bool, ◌&&◌, if◌then◌else◌}
use rwf.Prelude.Text.{Text, codes, text_eq}
use rwf.Prelude.Outcome.{Outcome, ok, err, panic, or_err, ◌>>=◌}
use rwf.Template.Value.{Value, of_list}
use rwf.Template.Value.Compare.{get, value_eq}
use rwf.Template.Value.Show.{display}
use rwf.Template.Value.Call.{Context, Renderer, call}
use rwf.Template.Token.{Result, undefined_variable, unknown_method, runtime}
use rwf.Template.Op.{evaluate_unary, evaluate_binary}
use rwf.Template.Host.{Host}
use rwf.Template.Expression.{
  Term, Expression, Expressions, binary, unary, term, list, function, interpreter, nil, cons,
}

-- `Term::evaluate`
evaluate_term : Term → Context → Result Value
unfolding get
evaluate_term (Term.constant v) context = ok v
evaluate_term (Term.variable name) context = or_err (get name context) (undefined_variable name)
evaluate_term (Term.function name) context = panic

name_of : Term → Text
name_of (Term.constant v) = []
name_of (Term.variable name) = name
name_of (Term.function name) = name

-- An undefined variable is tried as a global function without arguments.
or_undefined : Text → Result Value → Result Value
or_undefined name (ok v) = ok v
or_undefined name (err (unknown_method _ _)) = err (undefined_variable name)
or_undefined name (err e) = err e
or_undefined name panic = panic
or_undefined name Outcome.out_of_fuel = Outcome.out_of_fuel

or_global : (Text → Result Value) → Result Value → Result Value
unfolding or_undefined
or_global global (err (undefined_variable name)) = or_undefined name (global name)
or_global global r = r

-- An argument that is an undefined variable is null where that is allowed.
argument_value : Bool → Result Value → Result Value
argument_value allow (err (undefined_variable v)) =
    if allow then ok Value.null else err (undefined_variable v)
argument_value allow r = r

abbrev function_name : (Value → Text) → Value → Result Text
function_name display (Value.string name) = ok name
function_name display v =
    err
      (runtime (codes "function name should be a string, got " ++ (display v ++ codes " instead")))

module _ (h : Host) (render : Renderer) where
  unfoldable allows_undefined : Text → Value → Bool
  unfolding text_eq value_eq
  allows_undefined name v = text_eq name (codes "default") && value_eq h v Value.interpreter

  unfoldable mutual
    unfolding evaluate_term name_of or_global evaluate_unary evaluate_binary argument_value
        allows_undefined of_list display call

    pub evaluate : Expression → Context → Result Value
    evaluate (term t) context =
        or_global (λ name. call h render Value.interpreter (name_of t) [] context)
          (evaluate_term t context)
    evaluate (binary l op r) context = do
      left ← evaluate l context
      right ← evaluate r context
      evaluate_binary h op left right
    evaluate (unary op e) context = do v ← evaluate e context; evaluate_unary h op v
    evaluate (list es) context = do vs ← evaluate_all es context; ok (Value.list (of_list vs))
    evaluate (function e n args) context = do
      v ← evaluate e context
      n' ← evaluate n context
      name ← function_name (display h) n'
      vs ← evaluate_arguments args (allows_undefined name v) context
      call h render v name vs context
    evaluate interpreter context = ok Value.interpreter

    evaluate_all : Expressions → Context → Result (List Value)
    evaluate_all nil context = ok []
    evaluate_all (cons e es) context = do
      v ← evaluate e context
      vs ← evaluate_all es context
      ok (v ∷ vs)

    evaluate_arguments : Expressions → Bool → Context → Result (List Value)
    evaluate_arguments nil allow context = ok []
    evaluate_arguments (cons e es) allow context = do
      v ← argument_value allow (evaluate e context)
      vs ← evaluate_arguments es allow context
      ok (v ∷ vs)
