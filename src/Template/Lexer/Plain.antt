-- ===== src/Template/Lexer/Plain.antt =====
-- Text outside of code blocks.
use rwf.Prelude.{
  ℕ, zero, suc, ◌+◌, ◌-◌, ◌≤◌, [], ◌∷◌, ◌++◌, ◌≡◌, ◌∙◌, ◌≢◌, ==→eq, subst, sym, inl, inr, refl,
  Bool, true, false, not, ◌&&◌, ◌||◌, arith, length, ◌==◌, append_assoc, append-nil, if◌then◌else◌,
  Bool-cases, ap,
}
use rwf.Prelude.Text.{Text}
use rwf.Prelude.Outcome.{ok, Ensures-ok}
use rwf.Template.Token.{text, Result}
use rwf.Template.Host.{Host}
use rwf.Template.Lexer.Loop.{lex, tokens, drop_spaces}
use rwf.Template.Lexer.Total.{Within, dispatch-Within}
use rwf.Template.Lexer.Buffer.{Lexer, push, new, drain_buffer}
use rwf.Template.Lexer.Loop.{tokens}
use rwf.Template.Lexer.Arms.{less, percent, dispatch, Step, step}

-- No code block starts in the text, it has no carriage return, and its last character is no `<`.
unfoldable pub is_plain : Text → Bool
is_plain [] = true
is_plain (c ∷ []) = not (c == b'<' || c == b'\r')
is_plain (c ∷ d ∷ s) = not (c == b'\r' || (c == b'<' && d == b'%')) && is_plain (d ∷ s)

-- Outside a code block the step moved `taken`, the front of the characters, to the buffer.
record Copies (s : Lexer) (source : Text) (r : Step) : Type 0 where
  taken : Text
  split : source ≡ taken ++ r.1
  buffer : r.0.buffer ≡ s.buffer ++ taken
  tokens : r.0.tokens ≡ s.tokens
  outside : r.0.code_block ≡ false
  plain : is_plain r.1 ≡ true

abbrev Stepped : Lexer → Text → Result Step → Type 0
Stepped s source r = (x : Step) × (r ≡ ok x) × Copies s source x

is_plain-tail : (c : ℕ) (s : Text) → is_plain (c ∷ s) ≡ true → is_plain s ≡ true
unfolding is_plain
is_plain-tail c [] p = refl
is_plain-tail c (d ∷ s) p = ground arith

is_plain_no_return : (c : ℕ) (s : Text) → is_plain (c ∷ s) ≡ true → (c == b'\r') ≢ true
unfolding is_plain
is_plain_no_return c [] p e = ground arith
is_plain_no_return c (d ∷ s) p e = ground arith

at : (c : ℕ) {d : ℕ} → c ≡ d → (P : ℕ → Type 0) → P d → P c
at c e P x = subst P (sym e) x

module _ (h : Host) (s : Lexer) (outside : s.code_block ≡ false) where
  one :
      (c : ℕ) (t : Lexer) (rest : Text)
      → t.buffer ≡ s.buffer
      → t.tokens ≡ s.tokens
      → t.code_block ≡ false
      → is_plain (c ∷ rest) ≡ true
      → Copies s (c ∷ rest) (push c t, rest)
  unfolding push
  one c t rest e e' o p = record {
    taken = c ∷ [];
    split = refl;
    buffer = cc;
    tokens = e';
    outside = o;
    plain = is_plain-tail c rest p;
  }

  dispatch_outside :
      (c : ℕ) (rest : Text)
      → dispatch h c s rest ≡ (
          if c == b'\n'
          then ok (push c (record s { line = s.line + 1; column = 1 }), rest)
          else if c == b'\r'
          then ok (record s { column = s.column - 1 }, rest)
          else if c == b'<'
          then ok (less h s rest)
          else if c == b'%'
          then ok (percent h s rest)
          else ok (push c s, rest))
  unfolding dispatch
  dispatch_outside c rest = ground arith

  two :
      (c d : ℕ) (rest : Text)
      → is_plain (c ∷ d ∷ rest) ≡ true
      → Copies s (c ∷ d ∷ rest) (push d (push c s), rest)
  unfolding push
  two c d rest p = record {
    taken = c ∷ d ∷ [];
    split = refl;
    buffer = append_assoc s.buffer (c ∷ []) (d ∷ []);
    tokens = refl;
    outside = outside;
    plain = is_plain-tail d rest (is_plain-tail c (d ∷ rest) p);
  }

  less-Copies :
      (rest : Text) → is_plain (b'<' ∷ rest) ≡ true → Copies s (b'<' ∷ rest) (less h s rest)
  unfolding less
  less-Copies [] p = absurd (unfold is_plain in ground arith)
  less-Copies (c ∷ rest) p = elim (Bool-cases (c == b'%')) [
    | inl e ↦ absurd (unfold is_plain in ground (arith, e))
    | inr e ↦ rw e (two b'<' c rest p)
  ]

  percent_outside :
      (rest : Text)
      → percent h s rest
        ≡ elim rest [ [] ↦ (push b'%' s, []) | c ∷ more ↦ (push c (push b'%' s), more) ]
  unfolding percent
  percent_outside [] = ground arith
  percent_outside (c ∷ rest) = ground arith

  percent-Copies :
      (rest : Text) → is_plain (b'%' ∷ rest) ≡ true → Copies s (b'%' ∷ rest) (percent h s rest)
  percent-Copies [] p = rw percent_outside (one b'%' s [] refl refl outside p)
  percent-Copies (c ∷ rest) p = rw percent_outside (two b'%' c rest p)

  dispatch-Copies :
      (c : ℕ) (rest : Text)
      → is_plain (c ∷ rest) ≡ true
      → Stepped s (c ∷ rest) (dispatch h c s rest)
  dispatch-Copies c rest p =
      rw dispatch_outside
        (go c p (c == b'\n') (c == b'\r') (c == b'<') (c == b'%') refl refl refl refl)
    where
      go :
          (c : ℕ)
          → is_plain (c ∷ rest) ≡ true
          → (n r l q : Bool) → (c == b'\n') ≡ n
          → (c == b'\r') ≡ r
          → (c == b'<') ≡ l
          → (c == b'%') ≡ q
          → Stepped s (c ∷ rest) (
              if n
              then ok (push c (record s { line = s.line + 1; column = 1 }), rest)
              else if r
              then ok (record s { column = s.column - 1 }, rest)
              else if l
              then ok (less h s rest)
              else if q
              then ok (percent h s rest)
              else ok (push c s, rest))
      go c p true _ _ _ e _ _ _ = (_, refl, one c _ rest refl refl outside p)
      go c p false true _ _ _ e _ _ = absurd (is_plain_no_return c rest p e)
      go c p false false true _ _ _ e _ = (
        _,
        refl,
        at c (==→eq c b'<' e)
            (λ d. is_plain (d ∷ rest) ≡ true → Copies s (d ∷ rest) (less h s rest))
            (less-Copies rest) p,
      )
      go c p false false false true _ _ _ e = (
        _,
        refl,
        at c (==→eq c b'%' e)
            (λ d. is_plain (d ∷ rest) ≡ true → Copies s (d ∷ rest) (percent h s rest))
            (percent-Copies rest) p,
      )
      go c p false false false false _ _ _ _ = (_, refl, one c _ rest refl refl outside p)

-- A run that moved the whole source to the buffer and stayed outside code blocks.
abbrev Copied : Lexer → Text → Result Lexer → Type 0
Copied s source r =
    (s' : Lexer) × (r ≡ ok s')
    × (s'.buffer ≡ s.buffer ++ source)
    × (s'.tokens ≡ s.tokens)
    × (s'.code_block ≡ false)

module _ (h : Host) where
  lex-Copied :
      (fuel : ℕ) (s : Lexer) (source : Text)
      → length source ≤ fuel
      → s.code_block ≡ false
      → is_plain source ≡ true
      → Copied s source (lex h fuel s source)
  unfolding lex step
  lex-Copied zero s [] le o p = (s, refl, sym (append-nil s.buffer), refl, o)
  lex-Copied (suc fuel) s [] le o p = (s, refl, sym (append-nil s.buffer), refl, o)
  lex-Copied zero s (c ∷ rest) le o p = absurd (omega arith)
  lex-Copied (suc fuel) s (c ∷ rest) le o p =
      let s₀ = record s { column = s.column + 1 } in
      let ((s₁, rest₁), e₁, cp) = dispatch-Copies h s₀ o c rest p in
      let within : Within rest (s₁, rest₁) = Ensures-ok (dispatch-Within h c s₀ rest) e₁ in
      let (s₂, e₂, buf, toks, out) = lex-Copied fuel s₁ rest₁ (omega arith) cp.outside cp.plain in
      (
        s₂,
        rw e₁ e₂,
        cc (buf, cp.buffer, cp.split, append_assoc s.buffer cp.taken rest₁),
        toks ∙ cp.tokens,
        out,
      )

  drained :
      {c : ℕ} {rest : Text} (s : Lexer)
      → s.buffer ≡ c ∷ rest
      → s.tokens ≡ []
      → s.code_block ≡ false
      → drop_spaces (drain_buffer h s).tokens
        ≡ record { token = text (c ∷ rest); line = s.line; column = s.column } ∷ []
  unfolding drain_buffer drop_spaces
  drained s buf toks out = ground (arith, buf, toks, out)

  -- Text, not empty, in which no code block starts, without a carriage return and not ending in
  -- `<`, is one text token, character for character.
  pub tokens-plain :
      (source : Text)
      → is_plain source ≡ true
      → source ≢ []
      → (line column : ℕ) × (tokens h source
          ≡ ok (record { token = text source; line = line; column = column } ∷ []))
  unfolding tokens
  tokens-plain [] p ne = absurd (ne refl)
  tokens-plain (c ∷ rest) p ne =
      let (s, e, buf, toks, out) =
        lex-Copied (length (c ∷ rest)) new (c ∷ rest) (omega arith) refl p in
      (s.line, s.column, rw e (ap ok (drained s buf toks out)))
