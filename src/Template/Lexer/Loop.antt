-- ===== src/Template/Lexer/Loop.antt =====
-- The loop of `Lexer::tokens`.
use rwf.Prelude.{ℕ, zero, suc, [], ◌∷◌, length}
use rwf.Prelude.Text.{Text}
use rwf.Prelude.Outcome.{ok, out_of_fuel, ◌>>=◌}
use rwf.Template.Token.{Tokens, Result, space}
use rwf.Template.Host.{Host}
use rwf.Template.Lexer.Buffer.{Lexer, new, drain_buffer}
use rwf.Template.Lexer.Arms.{step}

unfoldable pub drop_spaces : Tokens → Tokens
drop_spaces [] = []
drop_spaces (t ∷ ts) = let rest = drop_spaces ts in elim t.token [ space ↦ rest | _ ↦ t ∷ rest ]

module _ (h : Host) where
  -- The loop, with fuel for one round of it a unit.
  unfoldable pub lex : ℕ → Lexer → Text → Result Lexer
  unfolding step
  lex fuel s [] = ok s
  lex zero s (c ∷ rest) = out_of_fuel
  lex (suc fuel) s (c ∷ rest) = do (s', rest') ← step h c s rest; lex fuel s' rest'

  -- `Lexer::new(source).tokens()`, with fuel for a round per character.
  unfoldable pub tokens : Text → Result Tokens
  unfolding lex drain_buffer drop_spaces
  tokens source = do s ← lex (length source) new source; ok (drop_spaces (drain_buffer h s).tokens)
