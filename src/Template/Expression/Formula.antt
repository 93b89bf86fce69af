-- ===== src/Template/Expression/Formula.antt =====
-- Expressions written with all their brackets.
use rwf.Prelude.{
  ℕ, zero, suc, ◌+◌, ◌<◌, some, [], ◌∷◌, ◌++◌, Bool, true, false, ◌≡◌, ◌∙◌, ap, refl, arith, length,
  length-append, append_assoc,
}
use rwf.Prelude.Text.{Text}
use rwf.Prelude.Outcome.{ok}
use rwf.Template.Value.{Value}
use rwf.Template.Token.{
  Token, TokenWithContext, Tokens, not_, round_bracket_start, round_bracket_end,
  square_bracket_start, dot, value,
}
use rwf.Template.Op.{Op, from_token}
use rwf.Template.Expression.{Term, Expression, unary, term}
use rwf.Template.Expression.Parse.{bracketed, accessor}

-- A formula over constants and variables. A binary operator is a token that stands for one.
pub data Formula : Type 0 where
  constant : Value → Formula
  variable : Text → Formula
  negation minus plus : Formula → Formula
  binary : Formula → (k : Token) (op : Op) → from_token k ≡ some op → Formula → Formula

-- The expression that a formula stands for
unfoldable pub meaning : Formula → Expression
meaning (constant v) = term (Term.constant v)
meaning (variable x) = term (Term.variable x)
meaning (negation e) = unary Op.not_ (meaning e)
meaning (minus e) = unary Op.sub (meaning e)
meaning (plus e) = unary Op.add (meaning e)
meaning (binary l k op _ r) = Expression.binary (meaning l) op (meaning r)

abbrev pub at : Token → TokenWithContext
at k = record { token = k; line = 1; column = 1 }

-- The tokens of a formula, followed by others. Each binary operation has its brackets.
unfoldable pub onto : Formula → Tokens → Tokens
onto (constant v) ts = at (value v) ∷ ts
onto (variable x) ts = at (Token.variable x) ∷ ts
onto (negation e) ts = at not_ ∷ onto e ts
onto (minus e) ts = at Token.minus ∷ onto e ts
onto (plus e) ts = at Token.plus ∷ onto e ts
onto (binary l k op _ r) ts =
    at round_bracket_start ∷ onto l (at k ∷ onto r (at round_bracket_end ∷ ts))

-- Nothing that goes on with a term: no member, index or argument.
abbrev pub stops : Tokens → Bool
stops [] = true
stops (t ∷ ts) = elim t.token [
  | dot ↦ false
  | square_bracket_start ↦ false
  | round_bracket_start ↦ false
  | _ ↦ true
]

pub onto-append : (e : Formula) (a ts : Tokens) → onto e (a ++ ts) ≡ onto e a ++ ts
unfolding onto
onto-append (constant v) a ts = refl
onto-append (variable x) a ts = refl
onto-append (negation e) a ts = ap (λ (r : Tokens). at not_ ∷ r) (onto-append e a ts)
onto-append (minus e) a ts = ap (λ (r : Tokens). at Token.minus ∷ r) (onto-append e a ts)
onto-append (plus e) a ts = ap (λ (r : Tokens). at Token.plus ∷ r) (onto-append e a ts)
onto-append (binary l k op p r) a ts =
    ap (λ (x : Tokens). at round_bracket_start ∷ onto l (at k ∷ x))
      (onto-append r (at round_bracket_end ∷ a) ts)
    ∙ ap (λ (x : Tokens). at round_bracket_start ∷ x)
        (onto-append l (at k ∷ onto r (at round_bracket_end ∷ a)) ts)

pub operator-stops :
    (k : Token) {op : Op} (ts : Tokens) → from_token k ≡ some op → stops (at k ∷ ts) ≡ true
unfolding from_token
operator-stops dot ts p = cc
operator-stops square_bracket_start ts p = cc
operator-stops round_bracket_start ts p = cc
operator-stops _ ts p = refl

pub bracketed-operator :
    (k : Token) {op : Op} (d : ℕ) (acc ts : Tokens)
    → from_token k ≡ some op
    → bracketed d acc (at k ∷ ts) ≡ bracketed d (acc ++ at k ∷ []) ts
unfolding from_token bracketed
bracketed-operator round_bracket_start d acc ts p = cc
bracketed-operator round_bracket_end d acc ts p = cc
bracketed-operator Token.block_end d acc ts p = cc
bracketed-operator _ d acc ts p = refl

accessor-stop :
    (f : ℕ) (e : Expression) (k : Token) (l c : ℕ) (ts : Tokens)
    → stops (record { token = k; line = l; column = c } ∷ ts) ≡ true
    → accessor (suc f) e (record { token = k; line = l; column = c } ∷ ts)
      ≡ ok (e, record { token = k; line = l; column = c } ∷ ts)
unfolding accessor
accessor-stop f e dot l c ts p = cc
accessor-stop f e square_bracket_start l c ts p = cc
accessor-stop f e _ l c ts p = refl

pub accessor-stops :
    (f : ℕ) (e : Expression) (ts : Tokens) → 0 < f → stops ts ≡ true → accessor f e ts ≡ ok (e, ts)
accessor-stops zero e ts h p = absurd (omega arith)
accessor-stops (suc f) e [] h p = unfold accessor in refl
accessor-stops (suc f) e (t ∷ ts) h p = accessor-stop f e t.token t.line t.column ts p

module _ (e : Formula)
    (h : (d : ℕ) (acc ts : Tokens)
      → bracketed d acc (onto e ts) ≡ bracketed d (acc ++ onto e []) ts) where
  pub bracketed-prefix :
      (k : Token) (d : ℕ) (acc ts : Tokens)
      → bracketed d (acc ++ at k ∷ []) (onto e ts) ≡ bracketed d (acc ++ at k ∷ onto e []) ts
  bracketed-prefix k d acc ts =
      h d (acc ++ at k ∷ []) ts
      ∙ ap (λ (a : Tokens). bracketed d a ts) (append_assoc acc (at k ∷ []) (onto e []))

-- A formula inside of brackets is passed over.
pub bracketed-onto :
    (e : Formula) (d : ℕ) (acc ts : Tokens)
    → bracketed d acc (onto e ts) ≡ bracketed d (acc ++ onto e []) ts
unfolding onto bracketed
bracketed-onto (constant v) d acc ts = refl
bracketed-onto (variable x) d acc ts = refl
bracketed-onto (negation e) d acc ts = bracketed-prefix e (bracketed-onto e) not_ d acc ts
bracketed-onto (minus e) d acc ts = bracketed-prefix e (bracketed-onto e) Token.minus d acc ts
bracketed-onto (plus e) d acc ts = bracketed-prefix e (bracketed-onto e) Token.plus d acc ts
bracketed-onto (binary l k op p r) d acc ts =
    bracketed-prefix l (bracketed-onto l) round_bracket_start (suc d) acc
      (at k ∷ onto r (at round_bracket_end ∷ ts))
    ∙ bracketed-operator k (suc d) (acc ++ at round_bracket_start ∷ onto l [])
        (onto r (at round_bracket_end ∷ ts)) p
    ∙ bracketed-prefix r (bracketed-onto r) k (suc d) (acc ++ at round_bracket_start ∷ onto l [])
        (at round_bracket_end ∷ ts)
    ∙ ap (λ (a : Tokens). bracketed d a ts) regroup
  where
    regroup :
        ((acc ++ at round_bracket_start ∷ onto l []) ++ at k ∷ onto r [])
          ++ at round_bracket_end ∷ []
        ≡ acc ++ at round_bracket_start ∷ onto l (at k ∷ onto r (at round_bracket_end ∷ []))
    regroup =
        rw
          (
            onto-append r [] (at round_bracket_end ∷ []),
            onto-append l [] (at k ∷ (onto r [] ++ at round_bracket_end ∷ [])),
          )
          (simp append_assoc)

-- The length of what is written
pub length-onto : (e : Formula) (ts : Tokens) → length (onto e ts) ≡ length (onto e []) + length ts
length-onto e ts = ap length (onto-append e [] ts) ∙ length-append (onto e []) ts
