-- ===== src/Template/Expression/Total.antt =====
-- How the parser of expressions uses its fuel and the tokens.
use rwf.Prelude.{
  ℕ, zero, suc, ◌+◌, ◌*◌, ◌≤◌, ◌<◌, Option, none, some, List, [], ◌∷◌, ◌++◌, ◌≡◌, ◌≢◌, arith,
  length,
}
use rwf.Prelude.Text.{Text}
use rwf.Prelude.Outcome.{
  ok, err, out_of_fuel, ◌>>=◌, Ensures, holds, failed, Ensures-bind, Ensures-if, Ensures-weaken,
  Ensures-out_of_fuel, Ensures-ok,
}
use rwf.Template.Value.{Value}
use rwf.Template.Token.{
  Token, TokenWithContext, Tokens, expression_syntax, not_, minus, plus, round_bracket_start,
  square_bracket_start, square_bracket_end, comma, dot, block_end, variable, value,
}
use rwf.Template.Op.{Op, from_token}
use rwf.Template.Expression.{Expression, interpreter}
use rwf.Template.Expression.Parse.{
  call_of, combine, close_index, member, after_item, second_operator, first_operator, starts_round,
  parse, parse_term, items, accessor, fuel_for, parse_expression,
}
use rwf.Template.Expression.Bounds.{
  at, Shorter, NoLonger, bracketed-Within, call_of-NoLonger, combine-Ends,
}

-- With this fuel every function of the parser ends, and takes what it reads from the tokens.
record Total (f : ℕ) : Type 0 where
  parses : (ts : Tokens) → 2 * length ts + 2 ≤ f → Ensures (Shorter ts) (parse f ts)
  terms : (ts : Tokens) → 2 * length ts + 1 ≤ f → Ensures (Shorter ts) (parse_term f ts)
  lists :
      (es : List Expression) (ts : Tokens)
      → 2 * length ts + 2 ≤ f
      → Ensures (Shorter ts) (items f es ts)
  accesses :
      (e : Expression) (ts : Tokens)
      → 2 * length ts + 1 ≤ f
      → Ensures (NoLonger ts) (accessor f e ts)

module _ (f : ℕ) (t : Total f) where
  close_index-step :
      (e name : Expression) (k : Token) (l c : ℕ) (ts : Tokens)
      → 2 * length ts + 1 ≤ f
      → Ensures (NoLonger (at k l c ∷ ts)) (close_index (accessor f) e name (at k l c ∷ ts))
  unfolding close_index
  close_index-step e name square_bracket_end l c ts h =
      Ensures-weaken (t.accesses _ ts h) λ r w. omega arith
  close_index-step e name _ l c ts h = failed

  close_index-NoLonger :
      (e name : Expression) (ts : Tokens)
      → 2 * length ts ≤ suc f
      → Ensures (NoLonger ts) (close_index (accessor f) e name ts)
  unfolding close_index
  close_index-NoLonger e name [] h = failed
  close_index-NoLonger e name (n ∷ ts) h =
      close_index-step e name n.token n.line n.column ts (omega arith)

  member-step :
      (e : Expression) (k : Token) (l c : ℕ) (ts : Tokens)
      → 2 * length ts + 3 ≤ f
      → Ensures (NoLonger (at k l c ∷ ts)) (member (parse f) (accessor f) e (at k l c ∷ ts))
  unfolding member
  member-step e (variable name) l c ts h =
      Ensures-bind
        (call_of-NoLonger (parse f) (length ts) (λ ts₁ w. t.parses ts₁ (omega arith)) name e ts
          (omega arith))
        λ (e', rest) w. Ensures-weaken (t.accesses e' rest (omega arith)) λ r w'. omega arith
  member-step e (value (Value.integer i)) l c ts h =
      Ensures-weaken (t.accesses _ ts (omega arith)) λ r w. omega arith
  member-step e (value _) l c ts h = failed
  member-step e _ l c ts h = failed

  accessor-step :
      (e : Expression) (k : Token) (l c : ℕ) (ts : Tokens)
      → 2 * length ts + 2 ≤ f
      → Ensures (NoLonger (at k l c ∷ ts)) (accessor (suc f) e (at k l c ∷ ts))
  unfolding accessor
  accessor-step e dot l c [] h = unfold member in failed
  accessor-step e dot l c (n ∷ ts) h =
      Ensures-weaken (member-step e n.token n.line n.column ts (omega arith)) λ r w. omega arith
  accessor-step e square_bracket_start l c ts h = Ensures-bind (t.parses ts h) λ (name, rest) w.
      Ensures-weaken (close_index-NoLonger e name rest (omega arith)) λ r w'. omega arith
  accessor-step e _ l c ts h = holds (omega arith)

  after_item-step :
      (es : List Expression) (k : Token) (l c : ℕ) (ts : Tokens)
      → 2 * length ts + 2 ≤ f
      → Ensures (Shorter (at k l c ∷ ts)) (after_item (items f) es (at k l c ∷ ts))
  unfolding after_item
  after_item-step es square_bracket_end l c ts h = holds (omega arith)
  after_item-step es comma l c ts h = Ensures-weaken (t.lists es ts h) λ r w. omega arith
  after_item-step es _ l c ts h = failed

  items-step :
      (es : List Expression) (ts : Tokens)
      → 2 * length ts + 1 ≤ f
      → Ensures (Shorter ts) (items (suc f) es ts)
  unfolding items after_item
  items-step es ts h = Ensures-bind (t.terms ts h) λ (e, rest) w. go (es ++ e ∷ []) rest w
    where
      go :
          (es' : List Expression) (rest : Tokens)
          → length rest < length ts
          → Ensures (Shorter ts) (after_item (items f) es' rest)
      go es' [] w = failed
      go es' (n ∷ rest) w =
          Ensures-weaken (after_item-step es' n.token n.line n.column rest (omega arith))
            λ r w'. omega arith

  unary-step :
      (op : Op) (ts : Tokens)
      → 2 * length ts + 1 ≤ f
      → Ensures (NoLonger ts) (parse_term f ts >>= λ (e, rest). ok (Expression.unary op e, rest))
  unary-step op ts h = Ensures-bind (t.terms ts h) λ (e, rest) w. holds (omega arith)

  read_call-step :
      (name : Text) (ts : Tokens)
      → 2 * length ts + 2 ≤ f
      → Ensures
          (NoLonger ts)
          (call_of (parse f) name interpreter ts >>= λ (e, rest). accessor f e rest)
  read_call-step name ts h =
      Ensures-bind
        (call_of-NoLonger (parse f) (length ts) (λ ts₁ w. t.parses ts₁ (omega arith)) name
          interpreter ts (omega arith))
        λ (e, rest) w. Ensures-weaken (t.accesses e rest (omega arith)) λ r w'. omega arith

  term-step :
      (k : Token) (l c : ℕ) (ts : Tokens)
      → 2 * length ts + 2 ≤ f
      → Ensures (NoLonger ts) (parse_term (suc f) (at k l c ∷ ts))
  unfolding parse_term
  term-step not_ l c ts h = unary-step Op.not_ ts (omega arith)
  term-step minus l c ts h = unary-step Op.sub ts (omega arith)
  term-step plus l c ts h = unary-step Op.add ts (omega arith)
  term-step round_bracket_start l c ts h =
      Ensures-bind (bracketed-Within zero [] ts) λ (inner, rest) w.
        Ensures-bind (t.parses inner (omega arith))
          λ (e, _) _. Ensures-weaken (t.accesses e rest (omega arith)) λ r w'. omega arith
  term-step (variable name) l c ts h =
      Ensures-if (starts_round ts) (λ _. read_call-step name ts h)
        (λ _. t.accesses _ ts (omega arith))
  term-step (value v) l c ts h = t.accesses _ ts (omega arith)
  term-step square_bracket_start l c ts h =
      Ensures-bind (t.lists [] ts h)
        λ (es, rest) w. Ensures-weaken (t.accesses _ rest (omega arith)) λ r w'. omega arith
  term-step _ l c ts h = failed

  second_operator-go :
      (left : Expression) (op : Op) (right : Expression) (n : TokenWithContext) (ts : Tokens)
      (o : Option Op)
      → 2 * length ts + 2 ≤ f
      → Ensures (NoLonger (n ∷ ts)) (elim o [
        | none ↦ err (expression_syntax n)
        | some second_op ↦ (do
          (right2, rest) ← parse f ts
          e ← combine left op right second_op right2
          ok (e, rest))
      ])
  second_operator-go left op right n ts none h = failed
  second_operator-go left op right n ts (some second_op) h =
      Ensures-bind (t.parses ts h) λ (right2, rest) w.
        Ensures-bind (combine-Ends left op right second_op right2) λ e _. holds (omega arith)

  second_operator-step :
      (left : Expression) (op : Op) (right : Expression) (k : Token) (l c : ℕ) (ts : Tokens)
      → 2 * length ts + 2 ≤ f
      → Ensures (NoLonger (at k l c ∷ ts)) (second_operator (parse f) left op right (at k l c ∷ ts))
  unfolding second_operator
  second_operator-step left op right block_end l c ts h = holds (omega arith)
  second_operator-step left op right k l c ts h =
      second_operator-go left op right (at k l c) ts (from_token k) h

  second_operator-NoLonger :
      (left : Expression) (op : Op) (right : Expression) (ts : Tokens)
      → 2 * length ts ≤ f
      → Ensures (NoLonger ts) (second_operator (parse f) left op right ts)
  unfolding second_operator
  second_operator-NoLonger left op right [] h = holds (omega arith)
  second_operator-NoLonger left op right (n ∷ ts) h =
      second_operator-step left op right n.token n.line n.column ts (omega arith)

  first_operator-go :
      (left : Expression) (n : TokenWithContext) (ts : Tokens) (o : Option Op)
      → 2 * length ts + 1 ≤ f
      → Ensures (NoLonger (n ∷ ts)) (elim o [
        | none ↦ ok (left, n ∷ ts)
        | some op ↦ (do
          (right, rest) ← parse_term f ts
          second_operator (parse f) left op right rest)
      ])
  first_operator-go left n ts none h = holds (omega arith)
  first_operator-go left n ts (some op) h = Ensures-bind (t.terms ts h) λ (right, rest) w.
      Ensures-weaken (second_operator-NoLonger left op right rest (omega arith)) λ r w'. omega arith

  first_operator-NoLonger :
      (left : Expression) (ts : Tokens)
      → 2 * length ts ≤ suc f
      → Ensures (NoLonger ts) (first_operator (parse f) (parse_term f) left ts)
  unfolding first_operator
  first_operator-NoLonger left [] h = holds (omega arith)
  first_operator-NoLonger left (n ∷ ts) h =
      first_operator-go left n ts (from_token n.token) (omega arith)

  parse-step : (ts : Tokens) → 2 * length ts + 1 ≤ f → Ensures (Shorter ts) (parse (suc f) ts)
  unfolding parse
  parse-step ts h = Ensures-bind (t.terms ts h) λ (left, rest) w.
      Ensures-weaken (first_operator-NoLonger left rest (omega arith)) λ r w'. omega arith

  terms-suc : (ts : Tokens) → 2 * length ts ≤ f → Ensures (Shorter ts) (parse_term (suc f) ts)
  unfolding parse_term
  terms-suc [] h = failed
  terms-suc (n ∷ ts) h =
      Ensures-weaken (term-step n.token n.line n.column ts (omega arith)) λ r w. omega arith

  accesses-suc :
      (e : Expression) (ts : Tokens)
      → 2 * length ts ≤ f
      → Ensures (NoLonger ts) (accessor (suc f) e ts)
  unfolding accessor
  accesses-suc e [] h = holds (omega arith)
  accesses-suc e (n ∷ ts) h = accessor-step e n.token n.line n.column ts (omega arith)

totals : (f : ℕ) → Total f
totals zero = record {
  parses = λ ts h. absurd (omega arith);
  terms = λ ts h. absurd (omega arith);
  lists = λ es ts h. absurd (omega arith);
  accesses = λ e ts h. absurd (omega arith);
}
totals (suc f) = record {
  parses = λ ts h. parse-step f (totals f) ts (omega arith);
  terms = λ ts h. terms-suc f (totals f) ts (omega arith);
  lists = λ es ts h. items-step f (totals f) es ts (omega arith);
  accesses = λ e ts h. accesses-suc f (totals f) e ts (omega arith);
}

pub parse_expression-Shorter : (ts : Tokens) → Ensures (Shorter ts) (parse_expression ts)
unfolding parse_expression
parse_expression-Shorter ts = (totals (fuel_for ts)).parses ts (omega arith)

-- The parser of expressions ends on all tokens: it reads an expression, returns an error or panics.
parse_expression_ends : (ts : Tokens) → parse_expression ts ≢ out_of_fuel
parse_expression_ends ts = Ensures-out_of_fuel (parse_expression-Shorter ts)

-- An expression that the parser reads takes a token at least.
parse_expression_consumes :
    (ts : Tokens) (e : Expression) (rest : Tokens)
    → parse_expression ts ≡ ok (e, rest)
    → length rest < length ts
parse_expression_consumes ts e rest h = Ensures-ok (parse_expression-Shorter ts) h
