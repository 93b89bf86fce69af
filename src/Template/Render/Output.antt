-- ===== src/Template/Render/Output.antt =====
-- What a template prints, for plain text and for the values of expressions.
use rwf.Prelude.{ℕ, suc, [], ◌∷◌, ◌≡◌, ◌⊎◌, inl, inr, refl, ap, true, append-nil}
use rwf.Prelude.Text.{Text}
use rwf.Prelude.Outcome.{ok, ◌>>=◌}
use rwf.Strings.Escaping.{has_no_tags, safe_html-has_no_tags}
use rwf.Template.Value.{Value}
use rwf.Template.Value.Show.{to_string}
use rwf.Template.Value.Call.{Context, Renderer}
use rwf.Template.Token.{Tokens, Result}
use rwf.Template.Host.{Host}
use rwf.Template.Lexer.Loop.{tokens}
use rwf.Template.Lexer.Plain.{is_plain, tokens-plain}
use rwf.Template.Expression.{Expression}
use rwf.Template.Expression.Evaluate.{evaluate}
use rwf.Template.Statement.{print}
use rwf.Template.Statement.Parse.{parse_program}
use rwf.Template.Statement.Evaluate.{escaped, evaluate_statement, evaluate_statements}
use rwf.Template.Render.{renderer, render_text}

module _ (h : Host) where
  run_tokens : ℕ → Context → Tokens → Result Text
  run_tokens depth context ts = do
    program ← parse_program ts
    evaluate_statements h (renderer h depth) program context

  -- A template in which no code block starts, without a carriage return and not ending in `<`,
  -- renders to its own text in every context.
  pub render_text-plain :
      (depth : ℕ) (source : Text) (context : Context)
      → is_plain source ≡ true
      → render_text h (suc depth) source context ≡ ok source
  unfolding render_text parse_program
  render_text-plain depth [] context p = unfold tokens in refl
  render_text-plain depth (c ∷ rest) context p =
      let (l, k, e) = tokens-plain h (c ∷ rest) p (cc) in rw e (ap ok (append-nil (c ∷ rest)))

  escaped-cases :
      (v : Value)
      → ((s : Text) × (v ≡ Value.safe_string s) × (escaped h v ≡ s))
        ⊎ (has_no_tags (escaped h v) ≡ true)
  unfolding escaped
  escaped-cases (Value.safe_string s) = inl (s, refl, refl)
  escaped-cases v = inr (safe_html-has_no_tags (to_string h v))

  -- Where the expression evaluates to a value, what `<%= e %>` prints has no angle bracket, unless
  -- the value is a safe string, which is printed as it is.
  pub print_escapes :
      (render : Renderer) (e : Expression) (context : Context) (v : Value)
      → evaluate h render e context ≡ ok v
      → (out : Text) × (evaluate_statement h render (print e) context ≡ ok out)
        × (((s : Text) × (v ≡ Value.safe_string s) × (out ≡ s)) ⊎ (has_no_tags out ≡ true))
  unfolding evaluate_statement
  print_escapes render e context v h₁ = (escaped h v, rw h₁ refl, escaped-cases v)
