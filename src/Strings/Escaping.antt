-- ===== src/Strings/Escaping.antt =====
-- What `safe_html` makes of a text.
use rwf.Prelude.{[], ◌∷◌, ◌≡◌, refl, Bool, true, not, ◌||◌, ◌==◌, arith, all}
use rwf.Prelude.Text.{Text, replace_char}
use rwf.Strings.{safe_html}

-- No character of the text opens or closes a tag.
abbrev pub has_no_tags : Text → Bool
has_no_tags = all (λ c. not (c == b'<' || c == b'>'))

-- An escaped text has no angle bracket.
pub safe_html-has_no_tags : (s : Text) → has_no_tags (safe_html s) ≡ true
unfolding safe_html replace_char
safe_html-has_no_tags [] = refl
safe_html-has_no_tags (c ∷ s) = ground (arith, safe_html-has_no_tags s)

-- A text without angle brackets is left alone by `safe_html`.
safe_html_of_no_tags : (s : Text) → has_no_tags s ≡ true → safe_html s ≡ s
unfolding safe_html replace_char
safe_html_of_no_tags [] p = refl
safe_html_of_no_tags (c ∷ s) p = ground (arith, safe_html_of_no_tags s)
