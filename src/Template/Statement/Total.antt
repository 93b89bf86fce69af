-- ===== src/Template/Statement/Total.antt =====
-- How the parsers of statements and of programs use their fuel and the tokens.
use rwf.Prelude.{
  ℕ, zero, suc, ◌+◌, ◌*◌, ◌≤◌, ◌<◌, List, [], ◌∷◌, ◌++◌, Bool, true, false, ◌≢◌, arith, length,
}
use rwf.Prelude.Outcome.{
  out_of_fuel, ◌>>=◌, Ensures, holds, failed, Ensures-bind, Ensures-weaken, Ensures-out_of_fuel,
}
use rwf.Template.Value.{Value}
use rwf.Template.Token.{
  Token, TokenWithContext, Tokens, block_end, value, text, in_, block_start, block_start_print,
  block_start_print_raw, block_start_render, else_if,
}
use rwf.Template.Expression.{Expression, Term}
use rwf.Template.Expression.Parse.{parse_expression}
use rwf.Template.Expression.Bounds.{Shorter, NoLonger}
use rwf.Template.Expression.Total.{parse_expression-Shorter}
use rwf.Template.Statement.{Statement, if_, else_, end_}
use rwf.Template.Statement.Parse.{
  Read, expect_block_end, closed_expression, render_path, expect_in, for_rest, for_head, in_if_body,
  in_body, if_else, for_in, parse_statement, if_body, else_body, for_body, program_from,
  parse_program,
}

abbrev at : Token → ℕ → ℕ → TokenWithContext
at k l c = record { token = k; line = l; column = c }

expect_block_end-step :
    (k : Token) (l c : ℕ) (ts : Tokens)
    → Ensures (λ r. length r ≤ length ts) (expect_block_end (at k l c ∷ ts))
unfolding expect_block_end
expect_block_end-step block_end l c ts = holds (omega arith)
expect_block_end-step _ l c ts = failed

expect_block_end-NoLonger :
    (ts : Tokens) → Ensures (λ r. length r ≤ length ts) (expect_block_end ts)
unfolding expect_block_end
expect_block_end-NoLonger [] = holds (omega arith)
expect_block_end-NoLonger (t ∷ ts) =
    Ensures-weaken (expect_block_end-step t.token t.line t.column ts) λ r w. omega arith

closed_expression-Shorter : (ts : Tokens) → Ensures (Shorter ts) (closed_expression ts)
unfolding closed_expression
closed_expression-Shorter ts =
    Ensures-bind (parse_expression-Shorter ts)
      λ (e, ts₁) w. Ensures-bind (expect_block_end-NoLonger ts₁) λ ts₂ w₂. holds (omega arith)

expect_in-step :
    (k : Token) (l c : ℕ) (ts : Tokens)
    → Ensures (λ r. length r ≤ length ts) (expect_in (at k l c ∷ ts))
unfolding expect_in
expect_in-step in_ l c ts = holds (omega arith)
expect_in-step _ l c ts = failed

expect_in-NoLonger : (ts : Tokens) → Ensures (λ r. length r ≤ length ts) (expect_in ts)
unfolding expect_in
expect_in-NoLonger [] = failed
expect_in-NoLonger (t ∷ ts) =
    Ensures-weaken (expect_in-step t.token t.line t.column ts) λ r w. omega arith

render_path-step :
    (k : Token) (l c : ℕ) (ts : Tokens) → Ensures (NoLonger ts) (render_path (at k l c ∷ ts))
unfolding render_path
render_path-step (value (Value.string path)) l c ts =
    Ensures-bind (expect_block_end-NoLonger ts) λ rest w. holds w
render_path-step (value _) l c ts = Ensures-bind (expect_block_end-NoLonger ts) λ rest w. failed
render_path-step _ l c ts = Ensures-bind (expect_block_end-NoLonger ts) λ rest w. failed

render_path-NoLonger : (ts : Tokens) → Ensures (NoLonger ts) (render_path ts)
unfolding render_path
render_path-NoLonger [] = failed
render_path-NoLonger (t ∷ ts) =
    Ensures-weaken (render_path-step t.token t.line t.column ts) λ r w. omega arith

for_rest-Shorter :
    (t : TokenWithContext) (e : Expression) (ts : Tokens)
    → Ensures (λ r. length r.2 < length ts) (for_rest t e ts)
unfolding for_rest
for_rest-Shorter t (Expression.term v) ts =
    Ensures-bind (expect_in-NoLonger ts)
      λ ts₁ w₁. Ensures-bind (closed_expression-Shorter ts₁) λ (e, ts₂) w₂. holds (omega arith)
for_rest-Shorter t _ ts = failed

for_head-Shorter :
    (t : TokenWithContext) (ts : Tokens) → Ensures (λ r. length r.2 < length ts) (for_head t ts)
unfolding for_head
for_head-Shorter t ts =
    Ensures-bind (parse_expression-Shorter ts)
      λ (e, ts₁) w. Ensures-weaken (for_rest-Shorter t e ts₁) λ r w'. omega arith

-- With this fuel every loop of the parser ends, and takes what it reads from the tokens.
record Total (f : ℕ) : Type 0 where
  reads : (ts : Tokens) → 2 * length ts + 1 ≤ f → Ensures (Shorter ts) (parse_statement f ts)
  ifs :
      (e : Expression) (elsif : Bool) (body : List Statement) (ts : Tokens)
      → 2 * length ts + 2 ≤ f
      → Ensures (Shorter ts) (if_body f e elsif body ts)
  elses :
      (e : Expression) (elsif : Bool) (body other : List Statement) (ts : Tokens)
      → 2 * length ts + 2 ≤ f
      → Ensures (Shorter ts) (else_body f e elsif body other ts)
  fors :
      (v : Term) (e : Expression) (body : List Statement) (ts : Tokens)
      → 2 * length ts + 2 ≤ f
      → Ensures (Shorter ts) (for_body f v e body ts)

module _ (f : ℕ) (t : Total f) where
  if_of :
      (elsif : Bool) (ts : Tokens)
      → 2 * length ts + 2 ≤ f
      → Ensures (NoLonger ts) (parse_expression ts >>= λ (e, rest). if_body f e elsif [] rest)
  if_of elsif ts h =
      Ensures-bind (parse_expression-Shorter ts)
        λ (e, rest) w. Ensures-weaken (t.ifs e elsif [] rest (omega arith)) λ r w'. omega arith

  read-step :
      (k : Token) (l c : ℕ) (ts : Tokens)
      → 2 * length ts + 2 ≤ f
      → Ensures (NoLonger ts) (parse_statement (suc f) (at k l c ∷ ts))
  unfolding parse_statement
  read-step Token.end_ l c ts h = Ensures-bind (expect_block_end-NoLonger ts) λ rest w. holds w
  read-step (text s) l c ts h = holds (omega arith)
  read-step block_start l c ts h = Ensures-weaken (t.reads ts (omega arith)) λ r w. omega arith
  read-step block_end l c ts h = Ensures-weaken (t.reads ts (omega arith)) λ r w. omega arith
  read-step block_start_print l c ts h =
      Ensures-bind (closed_expression-Shorter ts) λ (e, rest) w. holds (omega arith)
  read-step block_start_print_raw l c ts h =
      Ensures-bind (closed_expression-Shorter ts) λ (e, rest) w. holds (omega arith)
  read-step block_start_render l c ts h = render_path-NoLonger ts
  read-step Token.else_ l c ts h = Ensures-bind (expect_block_end-NoLonger ts) λ rest w. holds w
  read-step Token.if_ l c ts h = if_of false ts h
  read-step else_if l c ts h = if_of true ts h
  read-step Token.for_ l c ts h =
      Ensures-bind (for_head-Shorter (at Token.for_ l c) ts)
        λ (v, e, rest) w. Ensures-weaken (t.fors v e [] rest (omega arith)) λ r w'. omega arith
  read-step _ l c ts h = failed

  reads-suc : (ts : Tokens) → 2 * length ts ≤ f → Ensures (Shorter ts) (parse_statement (suc f) ts)
  unfolding parse_statement
  reads-suc [] h = failed
  reads-suc (n ∷ ts) h =
      Ensures-weaken (read-step n.token n.line n.column ts (omega arith)) λ r w. omega arith

  in_if_body-NoLonger :
      (e : Expression) (elsif : Bool) (body : List Statement) (s : Statement) (ts : Tokens)
      → 2 * length ts + 2 ≤ f
      → Ensures
          (NoLonger ts)
          (in_if_body (if_body f e elsif) (else_body f e elsif body) e elsif body s ts)
  unfolding in_if_body
  in_if_body-NoLonger e elsif body end_ ts h = holds (omega arith)
  in_if_body-NoLonger e elsif body else_ ts h =
      Ensures-weaken (t.elses e elsif body [] ts h) λ r w. omega arith
  in_if_body-NoLonger e elsif body (if_ e₂ b₂ o₂ true) ts h = holds (omega arith)
  in_if_body-NoLonger e elsif body s ts h =
      Ensures-weaken (t.ifs e elsif (body ++ s ∷ []) ts h) λ r w. omega arith

  in_body-NoLonger :
      (more : List Statement → Tokens → Read) (close : List Statement → Statement)
      (body : List Statement) (s : Statement) (ts : Tokens)
      → ((body : List Statement) → Ensures (Shorter ts) (more body ts))
      → Ensures (NoLonger ts) (in_body more close body s ts)
  unfolding in_body
  in_body-NoLonger more close body end_ ts m = holds (omega arith)
  in_body-NoLonger more close body s ts m = Ensures-weaken (m (body ++ s ∷ [])) λ r w. omega arith

  suc-Total : Total (suc f)
  unfolding if_body else_body for_body
  suc-Total = record {
    reads = λ ts h. reads-suc ts (omega arith);
    ifs = λ e elsif body ts h. Ensures-bind (t.reads ts (omega arith)) λ (s, rest) w.
        Ensures-weaken (in_if_body-NoLonger e elsif body s rest (omega arith)) λ r w'. omega arith;
    elses = λ e elsif body other ts h. Ensures-bind (t.reads ts (omega arith)) λ (s, rest) w.
        Ensures-weaken
          (in_body-NoLonger (else_body f e elsif body) (if_else e elsif body) other s rest
            λ o. t.elses e elsif body o rest (omega arith))
          λ r w'. omega arith;
    fors = λ v e body ts h. Ensures-bind (t.reads ts (omega arith)) λ (s, rest) w.
        Ensures-weaken
          (in_body-NoLonger (for_body f v e) (for_in v e) body s rest
            λ b. t.fors v e b rest (omega arith))
          λ r w'. omega arith;
  }

totals : (f : ℕ) → Total f
totals zero = record {
  reads = λ ts h. absurd (omega arith);
  ifs = λ e elsif body ts h. absurd (omega arith);
  elses = λ e elsif body other ts h. absurd (omega arith);
  fors = λ v e body ts h. absurd (omega arith);
}
totals (suc f) = suc-Total f (totals f)

program_from-ends :
    (f : ℕ) (ss : List Statement) (ts : Tokens)
    → 2 * length ts + 2 ≤ f
    → Ensures (λ _. Unit {0}) (program_from f ss ts)
unfolding program_from
program_from-ends zero ss ts h = absurd (omega arith)
program_from-ends (suc f) ss [] h = holds tt
program_from-ends (suc f) ss (n ∷ ts) h =
    Ensures-bind ((totals f).reads (n ∷ ts) (omega arith))
      λ (s, rest) w. program_from-ends f (ss ++ s ∷ []) rest (omega arith)

-- The parser of programs ends on all tokens: it reads a program, returns an error or panics.
pub parse_program_ends : (ts : Tokens) → parse_program ts ≢ out_of_fuel
unfolding parse_program
parse_program_ends ts =
    Ensures-out_of_fuel {P = λ _. Unit {0}}
      (Ensures-bind (program_from-ends (2 * length ts + 2) [] ts (omega arith)) λ ss _. holds tt)
