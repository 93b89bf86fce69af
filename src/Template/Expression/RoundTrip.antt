-- ===== src/Template/Expression/RoundTrip.antt =====
-- Formulas and the parser of expressions.
use rwf.Prelude.{
  ℕ, zero, suc, ◌+◌, ◌*◌, ◌≤◌, Option, none, some, [], ◌∷◌, Bool, true, false, ◌≡◌, Option-cases,
  inl, inr, ◌&&◌, ◌∙◌, sym, ap, refl, arith, length,
}
use rwf.Prelude.Outcome.{ok}
use rwf.Template.Token.{Token, Tokens, Result, round_bracket_end}
use rwf.Template.Op.{Op, from_token}
use rwf.Template.Expression.{Expression}
use rwf.Template.Expression.Parse.{
  bracketed, second_operator, first_operator, parse, parse_term, starts_round, fuel_for,
  parse_expression,
}
use rwf.Template.Expression.Formula.{
  Formula, constant, variable, negation, minus, plus, binary, meaning, at, onto, stops, onto-append,
  operator-stops, bracketed-operator, accessor-stops, bracketed-onto, bracketed-prefix, length-onto,
}

first-second :
    (p pt : Tokens → Result (Expression × Tokens)) (left right : Expression) (k : Token) {op : Op}
    (ts : Tokens)
    → from_token k ≡ some op
    → pt ts ≡ ok (right, [])
    → first_operator p pt left (at k ∷ ts) ≡ ok (Expression.binary left op right, [])
unfolding first_operator second_operator
first-second p pt left right k ts e r = rw (e, r) refl

stops→no_call : (ts : Tokens) → stops ts ≡ true → starts_round ts ≡ false
stops→no_call [] p = refl
stops→no_call (t ∷ ts) p = ground arith

-- A bracketed operation: what is between the brackets, and the term that it is.
inside-binary :
    (l : Formula) (k : Token) {op : Op} (r : Formula) (ts : Tokens)
    → from_token k ≡ some op
    → bracketed zero [] (onto l (at k ∷ onto r (at round_bracket_end ∷ ts)))
      ≡ ok (onto l (at k ∷ onto r []), ts)
inside-binary l k r ts p =
    bracketed-onto l zero [] (at k ∷ onto r (at round_bracket_end ∷ ts))
    ∙ bracketed-operator k zero (onto l []) (onto r (at round_bracket_end ∷ ts)) p
    ∙ bracketed-prefix r (bracketed-onto r) k zero (onto l []) (at round_bracket_end ∷ ts)
    ∙ (unfold bracketed in
        ap (λ (a : Tokens). ok (a, ts)) (sym (onto-append l [] (at k ∷ onto r []))))

pub parse-binary :
    (f : ℕ) (l : Formula) (k : Token) {op : Op} (r : Formula)
    → from_token k ≡ some op
    → parse_term f (onto l (at k ∷ onto r [])) ≡ ok (meaning l, at k ∷ onto r [])
    → parse_term f (onto r []) ≡ ok (meaning r, [])
    → parse (suc f) (onto l (at k ∷ onto r []))
      ≡ ok (Expression.binary (meaning l) op (meaning r), [])
unfolding parse
parse-binary f l k r p el er =
    rw el (first-second (parse f) (parse_term f) (meaning l) (meaning r) k (onto r []) p er)

-- A term is read from what a formula is written as, with more behind it.
pub parse_term-onto :
    (e : Formula) (f : ℕ) (ts : Tokens)
    → 2 * length (onto e ts) + 1 ≤ f
    → stops ts ≡ true
    → parse_term f (onto e ts) ≡ ok (meaning e, ts)
unfolding parse_term parse meaning onto
parse_term-onto e zero ts h p = absurd (omega arith)
parse_term-onto (constant v) (suc f) ts h p = accessor-stops f _ ts (omega arith) p
parse_term-onto (variable x) (suc f) ts h p =
    rw (stops→no_call ts p) (accessor-stops f _ ts (omega arith) p)
parse_term-onto (negation e) (suc f) ts h p = rw (parse_term-onto e f ts (omega arith) p) refl
parse_term-onto (minus e) (suc f) ts h p = rw (parse_term-onto e f ts (omega arith) p) refl
parse_term-onto (plus e) (suc f) ts h p = rw (parse_term-onto e f ts (omega arith) p) refl
parse_term-onto (binary l k op q r) (suc f) ts h p =
    rw
      (
        inside-binary l k r ts q,
        inner f
            (omega (
              arith,
              length-onto l (at k ∷ onto r (at round_bracket_end ∷ ts)),
              length-onto r (at round_bracket_end ∷ ts),
            ))
            (λ f' h'. parse_term-onto l f' (at k ∷ onto r []) h' (operator-stops k (onto r []) q))
            (λ f' h'. parse_term-onto r f' [] h' refl),
      )
      (accessor-stops f _ ts (omega arith) p)
  where
    inner :
        (f : ℕ)
        → 2 * (length (onto l []) + length (onto r [])) + 4 ≤ f
        → ((f' : ℕ)
            → 2 * length (onto l (at k ∷ onto r [])) + 1 ≤ f'
            → parse_term f' (onto l (at k ∷ onto r [])) ≡ ok (meaning l, at k ∷ onto r []))
        → ((f' : ℕ)
            → 2 * length (onto r []) + 1 ≤ f'
            → parse_term f' (onto r []) ≡ ok (meaning r, []))
        → parse f (onto l (at k ∷ onto r []))
          ≡ ok (Expression.binary (meaning l) op (meaning r), [])
    inner zero h el er = absurd (omega arith)
    inner (suc f') h el er =
        parse-binary f' l k r q (el f' (omega (arith, length-onto l (at k ∷ onto r []))))
          (er f' (omega arith))

-- The tokens behind an expression: none, or one that is no operator and goes on with no term, such
-- as the end of the block.
abbrev no_operator : Option Op → Bool
no_operator none = true
no_operator (some op) = false

abbrev pub ends_expression : Tokens → Bool
ends_expression [] = true
ends_expression (t ∷ ts) = stops (t ∷ ts) && no_operator (from_token t.token)

ends→stops : (ts : Tokens) → ends_expression ts ≡ true → stops ts ≡ true
ends→stops [] p = refl
ends→stops (t ∷ ts) p = ground arith

first_operator-ends :
    (p pt : Tokens → Result (Expression × Tokens)) (left : Expression) (ts : Tokens)
    → ends_expression ts ≡ true
    → first_operator p pt left ts ≡ ok (left, ts)
unfolding first_operator
first_operator-ends p pt left [] h = refl
first_operator-ends p pt left (t ∷ ts) h = elim (Option-cases (from_token t.token)) [
  | inl e ↦ rw (e, first_operator) refl
  | inr (op, e) ↦ absurd (ground (arith, e))
]

pub parse-onto :
    (e : Formula) (f : ℕ) (ts : Tokens)
    → 2 * length (onto e ts) + 2 ≤ f
    → ends_expression ts ≡ true
    → parse f (onto e ts) ≡ ok (meaning e, ts)
unfolding parse
parse-onto e zero ts h p = absurd (omega arith)
parse-onto e (suc f) ts h p =
    rw (parse_term-onto e f ts (omega arith) (ends→stops ts p))
      (first_operator-ends (parse f) (parse_term f) (meaning e) ts p)

-- Every formula over constants, variables, unary and binary operators, written with all its
-- brackets and followed by tokens that end an expression, is read back whole by the parser of
-- expressions, and the tokens behind it are left.
pub parse-formula :
    (e : Formula) (rest : Tokens)
    → ends_expression rest ≡ true
    → parse_expression (onto e rest) ≡ ok (meaning e, rest)
unfolding parse_expression
parse-formula e rest p = parse-onto e (fuel_for (onto e rest)) rest (omega arith) p
