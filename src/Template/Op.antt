-- ===== src/Template/Op.antt =====
-- rwf/src/view/template/language/op.rs. A `todo!()` of the source panics.
use rwf.Prelude.{ℕ, Option, none, some, Bool, not, ◌&&◌, ◌||◌, ltb}
use rwf.Prelude.Int.{pos, ◌-ℤ◌}
use rwf.Prelude.Outcome.{ok, panic, ◌>>=◌}
use rwf.Template.Value.{Value, integer, float, boolean, null}
use rwf.Template.Value.Compare.{value_eq, partial_cmp, is_lt, is_le, is_gt, is_ge, truthy}
use rwf.Template.Value.Arith
use rwf.Template.Value.Arith.{checked}
use rwf.Template.Token.{Token, Result}
use rwf.Template.Host.{Host}

pub data Op : Type 0 where
  not_ and_ or_ add sub mult div mod_ : Op
  equals not_equals greater_than greater_equal_than less_than less_equal_than : Op

-- `From<Token> for Option<Op>`: there is none for `Token::Mod`.
unfoldable pub from_token : Token → Option Op
from_token Token.not_ = some not_
from_token Token.and_ = some and_
from_token Token.or_ = some or_
from_token Token.equals = some equals
from_token Token.not_equals = some not_equals
from_token Token.greater_than = some greater_than
from_token Token.greater_equal_than = some greater_equal_than
from_token Token.less_than = some less_than
from_token Token.less_equal_than = some less_equal_than
from_token Token.plus = some add
from_token Token.minus = some sub
from_token Token.mult = some mult
from_token Token.div = some div
from_token _ = none

-- `precendence`; the smaller number binds tighter.
unfoldable pub precedence : Op → Option ℕ
precedence not_ = some 1
precedence and_ = some 11
precedence or_ = some 12
precedence add = some 4
precedence sub = some 4
precedence mult = some 3
precedence div = some 3
precedence mod_ = some 3
precedence equals = some 7
precedence not_equals = some 7
precedence _ = none

-- `second_op < op`, which asks for both precedences.
abbrev lt_of : Option ℕ → Option ℕ → Result Bool
lt_of (some a) (some b) = ok (ltb a b)
lt_of _ _ = panic

unfoldable pub op_lt : Op → Op → Result Bool
unfolding precedence
op_lt a b = lt_of (precedence a) (precedence b)

module _ (h : Host) where
  open h use {f64_neg}

  negate : Value → Result Value
  unfolding checked ◌-ℤ◌
  negate (integer i) = do ok (integer (← checked h (pos 0 -ℤ i)))
  negate (float f) = ok (float (f64_neg f))
  negate _ = ok null

  unfoldable pub evaluate_unary : Op → Value → Result Value
  unfolding negate truthy
  evaluate_unary not_ v = ok (boolean (not (truthy h v)))
  evaluate_unary sub v = negate v
  evaluate_unary add v = ok v
  evaluate_unary _ v = ok null

  unfoldable pub evaluate_binary : Op → Value → Value → Result Value
  unfolding value_eq partial_cmp truthy Arith.add Arith.sub Arith.mul Arith.div
  evaluate_binary equals v w = ok (boolean (value_eq h v w))
  evaluate_binary not_equals v w = ok (boolean (not (value_eq h v w)))
  evaluate_binary less_than v w = ok (boolean (is_lt (partial_cmp h v w)))
  evaluate_binary less_equal_than v w = ok (boolean (is_le (partial_cmp h v w)))
  evaluate_binary greater_than v w = ok (boolean (is_gt (partial_cmp h v w)))
  evaluate_binary greater_equal_than v w = ok (boolean (is_ge (partial_cmp h v w)))
  evaluate_binary and_ v w = ok (boolean (truthy h v && truthy h w))
  evaluate_binary or_ v w = ok (boolean (truthy h v || truthy h w))
  evaluate_binary add v w = Arith.add h v w
  evaluate_binary sub v w = Arith.sub h v w
  evaluate_binary mult v w = Arith.mul h v w
  evaluate_binary div v w = Arith.div h v w
  evaluate_binary _ v w = panic
