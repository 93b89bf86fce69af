-- ===== src/Template/Render.antt =====
-- `Template` of rwf/src/view/template/mod.rs: a template is compiled from its text, and rendered in a
-- context. A template may render others; fuel bounds how deep.
pub mod Output
pub mod Cache
use rwf.Prelude.{ℕ, zero, suc}
use rwf.Prelude.Text.{Text}
use rwf.Prelude.Outcome.{Outcome, ok, err, panic, out_of_fuel, or_err, ◌>>=◌}
use rwf.Template.Token.{Error, Result, template_does_not_exist}
use rwf.Template.Host.{Host}
use rwf.Template.Lexer.Loop.{tokens}
use rwf.Template.Value.Call.{Context, Renderer}
use rwf.Template.Statement.{Statements}
use rwf.Template.Statement.Parse.{parse_program}
use rwf.Template.Statement.Evaluate.{evaluate_statements}

-- `err.pretty_from_path(path)` on the errors of a run
map_err : {A : Type 0} → (Error → Error) → Result A → Result A
map_err f (ok a) = ok a
map_err f (err e) = err (f e)
map_err f panic = panic
map_err f Outcome.out_of_fuel = Outcome.out_of_fuel

module _ (h : Host) where
  open h use {read_file, pretty_from_path}

  -- `Program::from_str`
  compile : Text → Result Statements
  unfolding tokens parse_program
  compile source = do ts ← tokens h source; parse_program ts

  -- `Template::load`, without the cache: what is cached is what the file held when it was read.
  load : Text → Result Statements
  unfolding compile map_err
  load path =
      map_err (pretty_from_path path)
        (do source ← or_err (read_file path) (template_does_not_exist path); compile source)

  pub renderer : ℕ → Renderer
  unfolding compile load map_err evaluate_statements
  renderer zero = record {
    at_path = λ path context. out_of_fuel;
    of_source = λ source context. out_of_fuel;
  }
  renderer (suc depth) = record {
    at_path = λ path context. do
      program ← load path
      map_err (pretty_from_path path) (evaluate_statements h (renderer depth) program context);
    of_source = λ source context. do
      program ← compile source
      evaluate_statements h (renderer depth) program context;
  }

  -- `Template::from_str(source)?.render(context)`
  unfoldable pub render_text : ℕ → Text → Context → Result Text
  unfolding renderer
  render_text depth source context = (renderer depth).of_source source context
