-- ===== src/Template/Lexer/Total.antt =====
-- How the loop of `Lexer::tokens` uses its fuel and the characters.
use rwf.Prelude.{ℕ, zero, suc, ◌+◌, ◌≤◌, [], ◌∷◌, ◌++◌, ◌≢◌, arith, length, ◌==◌}
use rwf.Prelude.Text.{Text}
use rwf.Prelude.Outcome.{
  Ensures, holds, failed, Ensures-bind, Ensures-out_of_fuel, Ensures-if, out_of_fuel,
}
use rwf.Template.Host.{Host}
use rwf.Template.Lexer.Buffer.{Lexer}
use rwf.Template.Lexer.Buffer.{drain_buffer, new}
use rwf.Template.Lexer.Loop.{lex, tokens}
use rwf.Template.Lexer.Arms.{
  Step, block_open, less, dot_number, dot_, bang_code, bang, percent, quoted, quote, dispatch, step,
}

-- No more characters are left than were given.
abbrev pub Within : Text → Step → Type 0
Within rest r = length r.1 ≤ length rest

module _ (h : Host) where
  less-Within : (s : Lexer) (rest : Text) → Within rest (less h s rest)
  unfolding less block_open
  less-Within s [] = omega arith
  less-Within s (c ∷ []) = ground arith
  less-Within s (c ∷ d ∷ rest) = ground arith

  dot_-Within : (s : Lexer) (rest : Text) → Within rest (dot_ h s rest)
  unfolding dot_ dot_number
  dot_-Within s [] = ground arith
  dot_-Within s (c ∷ rest) = ground arith

  percent-Within : (s : Lexer) (rest : Text) → Within rest (percent h s rest)
  unfolding percent
  percent-Within s [] = ground arith
  percent-Within s (c ∷ rest) = ground arith

  quoted-Within : (s : Lexer) (str rest : Text) → Within rest (quoted h s str rest)
  unfolding quoted
  quoted-Within s str [] = omega arith
  quoted-Within s str (c ∷ rest) = ground (arith, quoted-Within s (str ++ c ∷ []) rest)

  quote-Within : (s : Lexer) (rest : Text) → Within rest (quote h s rest)
  unfolding quote
  quote-Within s rest = ground (arith, quoted-Within (drain_buffer h s) [] rest)

  bang-Within : (s : Lexer) (rest : Text) → Ensures (Within rest) (bang h s rest)
  unfolding bang bang_code
  bang-Within s [] = Ensures-if s.code_block (λ _. failed) (λ _. holds (omega arith))
  bang-Within s (c ∷ rest) =
      Ensures-if s.code_block
        (λ _.
          Ensures-if (c == b'=') (λ _. holds (omega arith))
            λ _. Ensures-if (c == b' ') (λ _. holds (omega arith)) (λ _. holds (omega arith)))
        (λ _. holds (omega arith))

  pub dispatch-Within :
      (c : ℕ) (s : Lexer) (rest : Text) → Ensures (Within rest) (dispatch h c s rest)
  unfolding dispatch
  dispatch-Within c s rest =
      search
        (
          Ensures-if, holds, arith, less-Within, dot_-Within, bang-Within, percent-Within,
          quote-Within,
        )
        depth 40

  lex-Ensures :
      (fuel : ℕ) (s : Lexer) (source : Text)
      → length source ≤ fuel
      → Ensures (λ _. Unit {0}) (lex h fuel s source)
  unfolding lex step
  lex-Ensures zero s [] le = holds tt
  lex-Ensures (suc fuel) s [] le = holds tt
  lex-Ensures zero s (c ∷ rest) le = absurd (omega arith)
  lex-Ensures (suc fuel) s (c ∷ rest) le =
      Ensures-bind (dispatch-Within c (record s { column = s.column + 1 }) rest)
        λ (s', rest') within. lex-Ensures fuel s' rest' (omega arith)

  -- The lexer ends on every source: the fuel of `tokens` is never used up.
  tokens_ends : (source : Text) → tokens h source ≢ out_of_fuel
  unfolding tokens
  tokens_ends source =
      Ensures-out_of_fuel {P = λ _. Unit {0}}
        (Ensures-bind (lex-Ensures (length source) new source (omega arith)) λ s _. holds tt)
