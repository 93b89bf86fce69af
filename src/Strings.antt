-- ===== src/Strings.antt =====
-- The text helpers at the root of the library, rwf/src/lib.rs. `char_upper` is the Unicode mapping
-- `char::to_uppercase`.
pub mod Escaping
mod Tests
use rwf.Prelude.{ℕ, [], ◌∷◌, ◌++◌, Bool, true, false, ◌&&◌, leb, ◌==◌, map, if◌then◌else◌}
use rwf.Prelude.Text.{Text, codes, join, split, replace_char, to_ascii_lowercase}

is_ascii_uppercase : ℕ → Bool
is_ascii_uppercase c = leb b'A' c && leb c b'Z'

-- The loop of `snake_case`; `first` says that no character came before.
snake_from : Bool → Text → Text
unfolding is_ascii_uppercase to_ascii_lowercase
snake_from first [] = []
snake_from first (c ∷ s) =
    (if is_ascii_uppercase c && (if first then false else true)
      then b'_' ∷ to_ascii_lowercase c ∷ []
      else if c == b'-'
      then b'_' ∷ []
      else to_ascii_lowercase c ∷ [])
    ++ snake_from false s

unfoldable pub snake_case : Text → Text
unfolding snake_from
snake_case s = snake_from true s

module _ (char_upper : ℕ → Text) where
  unfoldable pub capitalize : Text → Text
  capitalize [] = []
  capitalize (c ∷ s) = char_upper c ++ s

  unfoldable pub title_case : Text → Text
  unfolding capitalize split join
  title_case s = join (codes " ") (map capitalize (split b' ' s))

  unfoldable pub pascal_case : Text → Text
  unfolding capitalize split join
  pascal_case s = join [] (map capitalize (split b'_' s))

unfoldable pub safe_html : Text → Text
unfolding replace_char
safe_html s = replace_char b'>' (codes "&gt;") (replace_char b'<' (codes "&lt;") s)
