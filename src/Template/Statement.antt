-- ===== src/Template/Statement.antt =====
-- `Statement` of rwf/src/view/template/language/statement.rs. A list of statements is a type of the
-- same block; a path is its text.
pub mod Parse
pub mod Total
pub mod Evaluate
use rwf.Prelude.{Bool, List, [], ◌∷◌}
use rwf.Prelude.Text.{Text}
use rwf.Template.Expression.{Expression, Term}

mutual
  pub data Statement : Type 0 where
    print : Expression → Statement
    print_raw : Expression → Statement
    print_text : Text → Statement
    if_ : (expression : Expression) (if_body else_body : Statements) (else_if : Bool) → Statement
    else_ : Statement
    end_ : Statement
    for_ : (variable : Term) (list : Expression) (body : Statements) → Statement
    render : Text → Statement

  pub data Statements : Type 0 where
    nil : Statements
    cons : Statement → Statements → Statements

pub statements : List Statement → Statements
statements [] = nil
statements (s ∷ ss) = cons s (statements ss)
