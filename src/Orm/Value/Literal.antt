-- ===== src/Orm/Value/Literal.antt =====
-- An escaped text between quotes, as a SQL server reads it.
use rwf.Prelude.{
  ℕ, Option, none, some, [], ◌∷◌, ◌++◌, ◌≡◌, Bool-cases, inl, inr, ==→eq, refl, Bool, true, false,
  not, arith, ◌==◌, if◌then◌else◌,
}
use rwf.Prelude.Text.{Text, codes, replace_char}
use rwf.Orm.Value.{escape}

-- The text up to the quote `q` that closes it, two quotes standing for one, and what follows; `none`
-- if it is not closed. `open_quote` says that the character before was a quote still to be judged.
pub read_quoted : ℕ → Bool → Text → Option (Text × Text)
read_quoted q true [] = some ([], [])
read_quoted q false [] = none
read_quoted q true (c ∷ s) =
    let more = read_quoted q false s in
    if c == q then (elim more [ none ↦ none | some (t, r) ↦ some (q ∷ t, r) ]) else some ([], c ∷ s)
read_quoted q false (c ∷ s) =
    let closing = read_quoted q true s in
    let more = read_quoted q false s in
    if c == q then closing else (elim more [ none ↦ none | some (t, r) ↦ some (c ∷ t, r) ])

-- A text that goes on after a quoted one without a quote
abbrev no_quote : ℕ → Text → Bool
no_quote q [] = true
no_quote q (c ∷ s) = not (c == q)

-- A SQL string literal around an escaped text, followed by no single quote, ends at its own closing
-- quote, whatever the text is; what the server reads is the text with every double quote doubled.
pub escape-literal :
    (s rest : Text)
    → no_quote b'\'' rest ≡ true
    → read_quoted b'\'' false (escape s ++ b'\'' ∷ rest)
      ≡ some (replace_char b'"' (codes "\"\"") s, rest)
unfolding read_quoted escape replace_char
escape-literal [] [] h = refl
escape-literal [] (c ∷ rest) h = ground arith
escape-literal (c ∷ s) rest h = elim (Bool-cases (c == b'"')) [
  | inl e ↦ let same : c ≡ b'"' = ==→eq c b'"' e in rw same (rw (escape-literal s rest h) refl)
  | inr e ↦ elim (Bool-cases (c == b'\'')) [
    | inl e' ↦
        let same : c ≡ b'\'' = ==→eq c b'\'' e' in rw same (rw (escape-literal s rest h) refl)
    | inr e' ↦ ground (arith, e, e', escape-literal s rest h)
  ]
]

-- A quoted identifier around an escaped name, followed by no double quote, ends at its own closing
-- quote, whatever the name is; what the server reads is the name with every single quote doubled.
escape-identifier :
    (s rest : Text)
    → no_quote b'"' rest ≡ true
    → read_quoted b'"' false (escape s ++ b'"' ∷ rest)
      ≡ some (replace_char b'\'' (codes "''") s, rest)
unfolding read_quoted escape replace_char
escape-identifier [] [] h = refl
escape-identifier [] (c ∷ rest) h = ground arith
escape-identifier (c ∷ s) rest h = elim (Bool-cases (c == b'"')) [
  | inl e ↦ let same : c ≡ b'"' = ==→eq c b'"' e in rw same (rw (escape-identifier s rest h) refl)
  | inr e ↦ elim (Bool-cases (c == b'\'')) [
    | inl e' ↦
        let same : c ≡ b'\'' = ==→eq c b'\'' e' in rw same (rw (escape-identifier s rest h) refl)
    | inr e' ↦ ground (arith, e, e', escape-identifier s rest h)
  ]
]
