-- ===== src/Http/Form/Lines.antt =====
-- The lines of a multipart body.
use rwf.Prelude.{ℕ, ◌≤◌, ◌<◌, [], ◌∷◌, ◌++◌, true, false, ◌==◌, length, ◌≡◌, refl, ap, arith}
use rwf.Prelude.Text.Splits.{lacks}
use rwf.Http.Form.{Bytes, read_line, keep}

pub read_line-line :
    (line rest : Bytes) → lacks 13 line ≡ true → read_line (line ++ 13 ∷ 10 ∷ rest) ≡ (line, rest)
unfolding read_line
read_line-line [] rest h = refl
read_line-line (c ∷ line) rest h =
    let miss : (c == 13) ≡ false = ground arith in
    rw miss (ap (keep c) (read_line-line line rest (ground arith)))

-- A line leaves no more bytes than there were, and fewer where there were any.
pub read_line-le : (bs : Bytes) → length (read_line bs).1 ≤ length bs
unfolding read_line
read_line-le [] = omega arith
read_line-le (c ∷ []) = ground arith
read_line-le (c ∷ d ∷ bs) = ground (arith, read_line-le (d ∷ bs))

pub read_line-lt : (c : ℕ) (bs : Bytes) → length (read_line (c ∷ bs)).1 < length (c ∷ bs)
unfolding read_line
read_line-lt c [] = ground arith
read_line-lt c (d ∷ bs) = ground (arith, read_line-le (d ∷ bs))
