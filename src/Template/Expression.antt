-- ===== src/Template/Expression.antt =====
-- `Term` of rwf/src/view/template/language/term.rs and `Expression` of language/expression.rs. A list
-- of expressions is a type of the same block.
pub mod Parse
pub mod Bounds
pub mod Total
pub mod Formula
pub mod RoundTrip
pub mod Precedence
pub mod Evaluate
use rwf.Prelude.{List, [], ◌∷◌}
use rwf.Prelude.Text.{Text}
use rwf.Template.Value.{Value}
use rwf.Template.Op.{Op}

pub data Term : Type 0 where
  constant : Value → Term
  variable : Text → Term
  function : Text → Term

mutual
  pub data Expression : Type 0 where
    binary : Expression → Op → Expression → Expression
    unary : Op → Expression → Expression
    term : Term → Expression
    list : Expressions → Expression
    function : Expression → Expression → Expressions → Expression
    interpreter : Expression

  pub data Expressions : Type 0 where
    nil : Expressions
    cons : Expression → Expressions → Expressions

pub expressions : List Expression → Expressions
expressions [] = nil
expressions (e ∷ es) = cons e (expressions es)
