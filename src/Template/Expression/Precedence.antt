-- ===== src/Template/Expression/Precedence.antt =====
-- How the parser groups a row of operators between formulas.
use rwf.Prelude.{
  ℕ, zero, suc, ◌+◌, ◌*◌, ◌≤◌, Option, none, some, [], ◌∷◌, true, ◌≡◌, ◌⊎◌, ◌∙◌, refl, arith,
  length, ltb, if◌then◌else◌,
}
use rwf.Prelude.Outcome.{ok, err, panic, ◌>>=◌}
use rwf.Template.Token.{Token, TokenWithContext, Tokens, expression_syntax, block_end}
use rwf.Template.Op.{Op, from_token, precedence, op_lt}
use rwf.Template.Expression.{Expression, binary}
use rwf.Template.Expression.Parse.{
  Parsed, combine, second_operator, first_operator, parse, fuel_for, parse_expression,
}
use rwf.Template.Expression.Formula.{Formula, meaning, onto, at, operator-stops, length-onto}
use rwf.Template.Expression.RoundTrip.{ends_expression, parse-onto, parse_term-onto, parse-binary}

second-op :
    (p : Tokens → Parsed) (left : Expression) (op₁ : Op) (right : Expression) (t : TokenWithContext)
    (o : Option Op) {op₂ : Op} (ts : Tokens)
    → o ≡ some op₂
    → ◌≡◌ {A = Parsed}
        (elim o [
          | none ↦ err (expression_syntax t)
          | some op ↦ (do (right2, rest) ← p ts; e ← combine left op₁ right op right2; ok (e, rest))
        ])
        (p ts >>= λ (right2, rest). combine left op₁ right op₂ right2 >>= λ e. ok (e, rest))
second-op p left op₁ right t none ts e = cc
second-op p left op₁ right t (some op) {op₂} ts e = let same : op ≡ op₂ = cc in rw same refl

second-operator :
    (p : Tokens → Parsed) (left : Expression) (op : Op) (right : Expression) (k : Token) {op₂ : Op}
    (ts : Tokens)
    → from_token k ≡ some op₂
    → second_operator p left op right (at k ∷ ts)
      ≡ (p ts >>= λ (right2, rest). combine left op right op₂ right2 >>= λ e. ok (e, rest))
unfolding second_operator from_token
second-operator p left op right block_end ts e = cc
second-operator p left op right k ts e = second-op p left op right (at k) (from_token k) ts e

parse-pair :
    (l : Formula) (k : Token) {op : Op} (r : Formula)
    → from_token k ≡ some op
    → (f : ℕ) → 2 * length (onto l (at k ∷ onto r [])) + 2 ≤ f
    → parse f (onto l (at k ∷ onto r [])) ≡ ok (binary (meaning l) op (meaning r), [])
parse-pair l k r p zero h = absurd (omega arith)
parse-pair l k r p (suc f) h =
    parse-binary f l k r p
      (parse_term-onto l f (at k ∷ onto r []) (omega arith) (operator-stops k (onto r []) p))
      (parse_term-onto r f [] (omega (arith, length-onto l (at k ∷ onto r []))) refl)

module _ (a : Formula) (k : Token) {op : Op} (b : Formula) (k₂ : Token) {op₂ : Op}
    (p : from_token k ≡ some op) (p₂ : from_token k₂ ≡ some op₂) where
  parse-chain :
      (f : ℕ) (ts : Tokens)
      → 2 * length (onto a (at k ∷ onto b (at k₂ ∷ ts))) + 1 ≤ f
      → parse (suc f) (onto a (at k ∷ onto b (at k₂ ∷ ts))) ≡ (
          parse f ts >>= λ (right2, rest).
          combine (meaning a) op (meaning b) op₂ right2 >>= λ e. ok (e, rest))
  unfolding parse
  parse-chain f ts h =
      rw
        (
          parse_term-onto a f (at k ∷ onto b (at k₂ ∷ ts)) h
              (operator-stops k (onto b (at k₂ ∷ ts)) p),
          first_operator,
          p,
          parse_term-onto b f (at k₂ ∷ ts)
              (omega (arith, length-onto a (at k ∷ onto b (at k₂ ∷ ts)))) (operator-stops k₂ ts p₂),
        )
        (second-operator (parse f) (meaning a) op (meaning b) k₂ ts p₂)

  parse-row :
      (f : ℕ) (ts : Tokens) (c : Expression) (rest : Tokens)
      → 2 * length (onto a (at k ∷ onto b (at k₂ ∷ ts))) + 2 ≤ f
      → ((f : ℕ) → 2 * length ts + 2 ≤ f → parse f ts ≡ ok (c, rest))
      → parse f (onto a (at k ∷ onto b (at k₂ ∷ ts)))
        ≡ (combine (meaning a) op (meaning b) op₂ c >>= λ e. ok (e, rest))
  parse-row zero ts c rest h e = absurd (omega arith)
  parse-row (suc f) ts c rest h e =
      parse-chain f ts (omega arith)
      ∙ rw
          (e f
            (omega (arith, length-onto a (at k ∷ onto b (at k₂ ∷ ts)), length-onto b (at k₂ ∷ ts))))
          refl

  -- Of two operators in a row between formulas, both of which have a precedence, the first takes
  -- its operands first, unless the second has the smaller number of the precedence table: then the
  -- second does.
  pub parse_two_operators :
      (c : Formula) (rest : Tokens) (n n₂ : ℕ)
      → ends_expression rest ≡ true
      → precedence op ≡ some n
      → precedence op₂ ≡ some n₂
      → parse_expression (onto a (at k ∷ onto b (at k₂ ∷ onto c rest)))
        ≡ ok (
          (if ltb n₂ n
              then binary (meaning a) op (binary (meaning b) op₂ (meaning c))
              else binary (binary (meaning a) op (meaning b)) op₂ (meaning c)),
          rest,
        )
  unfolding parse_expression combine op_lt
  parse_two_operators c rest n n₂ ends e e₂ =
      parse-row (fuel_for (onto a (at k ∷ onto b (at k₂ ∷ onto c rest)))) (onto c rest) (meaning c)
        rest (omega arith) (λ f h. parse-onto c f rest h ends)
      ∙ rw (e, e₂) refl

  -- A row with a comparison other than `==` and `!=` among its two operators makes the parser
  -- panic.
  pub parse_comparison_panics :
      (c : Formula) (rest : Tokens)
      → ends_expression rest ≡ true
      → (precedence op ≡ none) ⊎ (precedence op₂ ≡ none)
      → parse_expression (onto a (at k ∷ onto b (at k₂ ∷ onto c rest))) ≡ panic
  unfolding parse_expression combine op_lt
  parse_comparison_panics c rest ends e =
      parse-row (fuel_for (onto a (at k ∷ onto b (at k₂ ∷ onto c rest)))) (onto c rest) (meaning c)
        rest (omega arith) (λ f h. parse-onto c f rest h ends)
      ∙ ground (arith, e)

  -- Three operators in a row, the first two of one level, as in `a - b - c - d`, are read as `(a -
  -- b) - (c - d)`.
  parse_three_operators :
      (c : Formula) (k₃ : Token) {op₃ : Op} (d : Formula) (n : ℕ)
      → from_token k₃ ≡ some op₃
      → precedence op ≡ some n
      → precedence op₂ ≡ some n
      → parse_expression (onto a (at k ∷ onto b (at k₂ ∷ onto c (at k₃ ∷ onto d []))))
        ≡ ok (
          binary (binary (meaning a) op (meaning b)) op₂ (binary (meaning c) op₃ (meaning d)),
          [],
        )
  unfolding parse_expression combine op_lt
  parse_three_operators c k₃ {op₃} d n p₃ e e₂ =
      let ts = onto c (at k₃ ∷ onto d []) in
      parse-row (fuel_for (onto a (at k ∷ onto b (at k₂ ∷ ts)))) ts
        (binary (meaning c) op₃ (meaning d)) [] (omega arith) (parse-pair c k₃ d p₃)
      ∙ ground (arith, e, e₂)
