-- ===== src/Template/Expression/Bounds.antt =====
-- The loops of the parser of expressions that take tokens one by one, and what they leave of them.
use rwf.Prelude.{
  ℕ, zero, suc, ◌+◌, ◌≤◌, ◌<◌, List, [], ◌∷◌, ◌++◌, Bool, ◌≢◌, refl, arith, is_empty, if◌then◌else◌,
  length, length-append,
}
use rwf.Prelude.Text.{Text}
use rwf.Prelude.Outcome.{
  ok, err, panic, out_of_fuel, ◌>>=◌, Outcome, Ensures, holds, failed, panicked, Ensures-bind,
  Ensures-if, Ensures-weaken,
}
use rwf.Template.Token.{
  Token, TokenWithContext, Tokens, Result, round_bracket_start, round_bracket_end, comma, block_end,
}
use rwf.Template.Op.{Op, op_lt}
use rwf.Template.Expression.{Expression}
use rwf.Template.Expression.Parse.{Parsed, bracketed, arguments, call_of, combine}

abbrev pub at : Token → ℕ → ℕ → TokenWithContext
at k l c = record { token = k; line = l; column = c }

-- The rest is shorter than the tokens given; it is no longer.
abbrev pub Shorter {ℓ} : {A : Type ℓ} → Tokens → A × Tokens → Type 0
Shorter ts r = length r.1 < length ts

abbrev pub NoLonger {ℓ} : {A : Type ℓ} → Tokens → A × Tokens → Type 0
NoLonger ts r = length r.1 ≤ length ts

-- The bracketed tokens and the rest are fewer than the tokens given.
abbrev Within : ℕ → Tokens × Tokens → Type 0
Within n r = length r.0 + length r.1 ≤ n

module _ (ts : Tokens)
    (ih : (depth : ℕ) (expr : Tokens)
      → Ensures (Within (length expr + length ts)) (bracketed depth expr ts)) where
  bracketed-longer :
      (depth : ℕ) (expr : Tokens) (t : TokenWithContext)
      → Ensures (Within (length expr + length (t ∷ ts))) (bracketed depth (expr ++ t ∷ []) ts)
  bracketed-longer depth expr t =
      Ensures-weaken (ih depth (expr ++ t ∷ [])) λ r w. omega (arith, length-append expr (t ∷ []))

  bracketed-step :
      (depth : ℕ) (expr : Tokens) (k : Token) (l c : ℕ)
      → Ensures
          (Within (length expr + length (at k l c ∷ ts)))
          (bracketed depth expr (at k l c ∷ ts))
  unfolding bracketed
  bracketed-step depth expr round_bracket_start l c = bracketed-longer (suc depth) expr _
  bracketed-step zero expr round_bracket_end l c = holds (omega arith)
  bracketed-step (suc depth) expr round_bracket_end l c = bracketed-longer depth expr _
  bracketed-step depth expr block_end l c = failed
  bracketed-step depth expr _ l c = bracketed-longer depth expr _

pub bracketed-Within :
    (depth : ℕ) (expr ts : Tokens)
    → Ensures (Within (length expr + length ts)) (bracketed depth expr ts)
bracketed-Within depth expr [] = unfold bracketed in failed
bracketed-Within depth expr (t ∷ ts) =
    bracketed-step ts (λ d e. bracketed-Within d e ts) depth expr t.token t.line t.column

-- A parser that ends on every list of at most `n` tokens.
abbrev Ends : ℕ → (Tokens → Parsed) → Type 0
Ends n p = (ts : Tokens) → length ts ≤ n → Ensures (Shorter ts) (p ts)

module _ (p : Tokens → Parsed) (n : ℕ) (ends : Ends n p) where
  module _ (ts : Tokens)
      (ih : (buffer : Tokens) (args : List Expression)
        → length buffer + length ts ≤ n
        → Ensures (NoLonger ts) (arguments p buffer args ts)) where
    arguments-step :
        (buffer : Tokens) (args : List Expression) (k : Token) (l c : ℕ)
        → length buffer + suc (length ts) ≤ n
        → Ensures (NoLonger (at k l c ∷ ts)) (arguments p buffer args (at k l c ∷ ts))
    unfolding arguments
    arguments-step buffer args round_bracket_end l c h =
        Ensures-if (is_empty buffer) (λ _. holds (omega arith))
          λ _. Ensures-bind (ends buffer (omega arith)) λ _ _. holds (omega arith)
    arguments-step buffer args comma l c h =
        Ensures-bind (ends buffer (omega arith))
          λ (e, _) _. Ensures-weaken (ih [] (args ++ e ∷ []) (omega arith)) λ r w. omega arith
    arguments-step buffer args k l c h =
        Ensures-weaken
          (ih (buffer ++ at k l c ∷ []) args (omega (arith, length-append buffer (at k l c ∷ []))))
          λ r w. omega arith

  arguments-NoLonger :
      (buffer : Tokens) (args : List Expression) (ts : Tokens)
      → length buffer + length ts ≤ n
      → Ensures (NoLonger ts) (arguments p buffer args ts)
  unfolding arguments
  arguments-NoLonger buffer args [] h = holds (omega arith)
  arguments-NoLonger buffer args (t ∷ ts) h =
      arguments-step ts (λ b a. arguments-NoLonger b a ts) buffer args t.token t.line t.column
        (omega arith)

  call_of-step :
      (name : Text) (e : Expression) (k : Token) (l c : ℕ) (ts : Tokens)
      → length ts ≤ n
      → Ensures (NoLonger (at k l c ∷ ts)) (call_of p name e (at k l c ∷ ts))
  unfolding call_of
  call_of-step name e round_bracket_start l c ts h =
      Ensures-bind (arguments-NoLonger [] [] ts (omega arith)) λ r w. holds (omega arith)
  call_of-step name e _ l c ts h = holds (omega arith)

  pub call_of-NoLonger :
      (name : Text) (e : Expression) (ts : Tokens)
      → length ts ≤ n
      → Ensures (NoLonger ts) (call_of p name e ts)
  unfolding call_of
  call_of-NoLonger name e [] h = holds (omega arith)
  call_of-NoLonger name e (t ∷ ts) h = call_of-step name e t.token t.line t.column ts (omega arith)

op_lt-ends : (a b : Op) → op_lt a b ≢ out_of_fuel
unfolding op_lt
op_lt-ends a b e = ground arith

pub combine-Ends :
    (left : Expression) (op : Op) (right : Expression) (second_op : Op) (right2 : Expression)
    → Ensures (λ _. Unit {0}) (combine left op right second_op right2)
unfolding combine
combine-Ends left op right second_op right2 = go (op_lt second_op op) (op_lt-ends second_op op)
  where
    go :
        (r : Result Bool)
        → r ≢ out_of_fuel
        → Ensures
            (λ _. Unit {0})
            (r >>= λ tighter. ok (
              if tighter
              then Expression.binary left op (Expression.binary right second_op right2)
              else Expression.binary (Expression.binary left op right) second_op right2))
    go (ok b) ne = holds tt
    go (err e) ne = failed
    go panic ne = panicked
    go Outcome.out_of_fuel ne = absurd (ne refl)
