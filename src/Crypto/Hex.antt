-- ===== src/Crypto/Hex.antt =====
-- The hexadecimal text of bytes, cut into groups and read back.
use rwf.Prelude.{
  ℕ, zero, suc, ◌+◌, ◌*◌, ◌/◌, ◌%◌, ◌<◌, some, List, [], ◌∷◌, ◌++◌, true, false, not, ◌&&◌, ◌==◌,
  ==→eq, All, map, length, take, drop, ltb, ◌≡◌, refl, sym, ap, ◌∙◌, arith, append_assoc,
  append-nil,
}
use rwf.Prelude.Ranges.{passes, passes-below}
use rwf.Prelude.Text.{Text, codes, join, replace_char, utf8_len}
use rwf.Prelude.Text.Splits.{lacks, all-append}
use rwf.Crypto.{Bytes, hex, hex_digit, flatten, slice, print_id, byte_of, pairs}

abbrev pub IsByte : ℕ → Type 0
IsByte b = b < 256

abbrev hex_text : Bytes → Text
hex_text bytes = flatten (map hex bytes)

flatten-append : (xs ys : List Text) → flatten (xs ++ ys) ≡ flatten xs ++ flatten ys
unfolding flatten
flatten-append [] ys = refl
flatten-append (x ∷ xs) ys =
    ap (λ t. x ++ t) (flatten-append xs ys) ∙ sym (append_assoc x (flatten xs) (flatten ys))

take-drop : (n : ℕ) (xs : List Text) → take n xs ++ drop n xs ≡ xs
take-drop zero xs = refl
take-drop (suc n) [] = refl
take-drop (suc n) (x ∷ xs) = ap (λ ys. x ∷ ys) (take-drop n xs)

drop-drop : (a b : ℕ) (xs : List Text) → drop b (drop a xs) ≡ drop (a + b) xs
drop-drop zero b xs = let same : 0 + b ≡ b = omega arith in rw same refl
drop-drop (suc a) zero [] = let same : suc a + zero ≡ suc (a + zero) = omega arith in rw same refl
drop-drop (suc a) (suc b) [] =
    let same : suc a + suc b ≡ suc (a + suc b) = omega arith in rw same refl
drop-drop (suc a) b (x ∷ xs) =
    let same : suc a + b ≡ suc (a + b) = omega arith in rw same (drop-drop a b xs)

drop_all : (n : ℕ) (xs : List Text) → length xs ≡ n → drop n xs ≡ []
drop_all zero [] h = refl
drop_all zero (x ∷ xs) h = absurd (omega (arith, h))
drop_all (suc n) [] h = refl
drop_all (suc n) (x ∷ xs) h = drop_all n xs (omega (arith, h))

-- The parts from a group on
abbrev from : ℕ → List Text → ℕ → Text
from n xs i = flatten (drop (i * n) xs)

slice-from : (n : ℕ) (xs : List Text) (i : ℕ) → slice n xs i ++ from n xs (i + 1) ≡ from n xs i
slice-from n xs i =
    let next : (i + 1) * n ≡ i * n + n = grind arith in
    rw (next, sym (drop-drop (i * n) n xs))
      (sym (flatten-append (take n (drop (i * n) xs)) (drop n (drop (i * n) xs)))
        ∙ ap flatten (take-drop n (drop (i * n) xs)))

-- Four groups of the same size are all of it.
slices :
    (n : ℕ) (xs : List Text)
    → length xs ≡ 4 * n
    → slice n xs 0 ++ (slice n xs 1 ++ (slice n xs 2 ++ slice n xs 3)) ≡ flatten xs
slices n xs h =
    let last : from n xs 4 ≡ [] = rw (drop_all (4 * n) xs h) (unfold flatten in refl) in
    let start : 0 * n ≡ 0 = omega arith in
    let third : slice n xs 3 ≡ from n xs 3 =
      sym (append-nil (slice n xs 3))
      ∙ ap (λ t. slice n xs 3 ++ t) (sym last)
      ∙ slice-from n xs 3 in
    let second = ap (λ t. slice n xs 2 ++ t) third ∙ slice-from n xs 2 in
    let first = ap (λ t. slice n xs 1 ++ t) second ∙ slice-from n xs 1 in
    ap (λ t. slice n xs 0 ++ t) first ∙ slice-from n xs 0 ∙ ap (λ k. flatten (drop k xs)) start

-- No hexadecimal digit is a dash.
hex-lacks : (b : ℕ) → lacks b'-' (hex b) ≡ true
hex-lacks b = ground arith

abbrev HasNoDash : Text → Type 0
HasNoDash t = lacks b'-' t ≡ true

All-take : (n : ℕ) (xs : List Text) → All HasNoDash xs → All HasNoDash (take n xs)
All-take zero xs h = tt
All-take (suc n) [] h = tt
All-take (suc n) (x ∷ xs) (p, h) = (p, All-take n xs h)

All-drop : (n : ℕ) (xs : List Text) → All HasNoDash xs → All HasNoDash (drop n xs)
All-drop zero xs h = h
All-drop (suc n) [] h = tt
All-drop (suc n) (x ∷ xs) (p, h) = All-drop n xs h

hexes-HasNoDash : (bytes : Bytes) → All HasNoDash (map hex bytes)
hexes-HasNoDash [] = tt
hexes-HasNoDash (b ∷ bytes) = (hex-lacks b, hexes-HasNoDash bytes)

flatten-HasNoDash : (ts : List Text) → All HasNoDash ts → HasNoDash (flatten ts)
unfolding flatten
flatten-HasNoDash [] h = refl
flatten-HasNoDash (t ∷ ts) (p, h) =
    all-append (λ c. not (c == b'-')) t (flatten ts) p (flatten-HasNoDash ts h)

replace-append :
    (s t : Text) → HasNoDash s → replace_char b'-' [] (s ++ t) ≡ s ++ replace_char b'-' [] t
unfolding replace_char
replace-append [] t h = refl
replace-append (c ∷ s) t h =
    let miss : (c == b'-') ≡ false = ground arith in
    rw miss (ap (λ u. c ∷ u) (replace-append s t (ground arith)))

replace_dash :
    (s t : Text)
    → HasNoDash s
    → replace_char b'-' [] (s ++ codes "-" ++ t) ≡ s ++ replace_char b'-' [] t
replace_dash s t h =
    rw (append_assoc s (codes "-") t)
      (replace-append s (codes "-" ++ t) h ∙ unfold replace_char in refl)

replace_none : (s : Text) → HasNoDash s → replace_char b'-' [] s ≡ s
replace_none s h =
    ap (replace_char b'-' []) (sym (append-nil s))
    ∙ replace-append s [] h
    ∙ unfold replace_char in append-nil s

replace_dashes :
    (a b c d : Text)
    → HasNoDash a
    → HasNoDash b
    → HasNoDash c
    → HasNoDash d
    → replace_char b'-' [] (join (codes "-") (a ∷ b ∷ c ∷ d ∷ [])) ≡ a ++ (b ++ (c ++ d))
unfolding join
replace_dashes a b c d ha hb hc hd =
    rw (replace_dash a _ ha, replace_dash b _ hb, replace_dash c d hc, replace_none d hd) refl

slice-HasNoDash : (n : ℕ) (bytes : Bytes) (i : ℕ) → HasNoDash (slice n (map hex bytes) i)
slice-HasNoDash n bytes i =
    flatten-HasNoDash (take n (drop (i * n) (map hex bytes)))
      (All-take n _ (All-drop (i * n) _ (hexes-HasNoDash bytes)))

length-hexes : (bytes : Bytes) → length (map hex bytes) ≡ length bytes
length-hexes [] = refl
length-hexes (b ∷ bytes) = ap (λ n. suc n) (length-hexes bytes)

-- Without its dashes an id is the hexadecimal text of the bytes, if they can be put into four groups.
pub replace-print_id :
    (bytes : Bytes) → length bytes % 4 ≡ 0 → replace_char b'-' [] (print_id bytes) ≡ hex_text bytes
unfolding print_id
replace-print_id bytes h =
    let n = length (map hex bytes) / 4 in
    let whole : length (map hex bytes) ≡ 4 * n = omega (arith, h, length-hexes bytes) in
    replace_dashes _ _ _ _ (slice-HasNoDash n bytes 0) (slice-HasNoDash n bytes 1)
      (slice-HasNoDash n bytes 2) (slice-HasNoDash n bytes 3)
    ∙ slices n (map hex bytes) whole

byte_table :
    passes
      (λ b.
        byte_of (hex_digit (b / 16)) (hex_digit (b % 16)) == b
        && (ltb (hex_digit (b / 16)) 0x80 && ltb (hex_digit (b % 16)) 0x80))
      0
      256
    ≡ true
unfolding passes byte_of
byte_table = refl

abbrev IsRead : ℕ → Type 0
IsRead b =
    (byte_of (hex_digit (b / 16)) (hex_digit (b % 16)) ≡ b)
    × (ltb (hex_digit (b / 16)) 0x80 ≡ true)
    × (ltb (hex_digit (b % 16)) 0x80 ≡ true)

hex-IsRead : (b : ℕ) → b < 256 → IsRead b
hex-IsRead b h =
    let t = passes-below _ 256 b byte_table h in
    let same : (byte_of (hex_digit (b / 16)) (hex_digit (b % 16)) == b) ≡ true =
      ground (arith, t) in
    (==→eq _ b same, ground (arith, t), ground (arith, t))

pub pairs-hex_text : (bytes : Bytes) → All IsByte bytes → pairs (hex_text bytes) ≡ some bytes
unfolding pairs flatten
pairs-hex_text [] h = refl
pairs-hex_text (b ∷ bytes) (hb, h) =
    let (value, high, low) = hex-IsRead b hb in rw (high, low, value, pairs-hex_text bytes h) refl

pub utf8_len-hex_text : (bytes : Bytes) → All IsByte bytes → utf8_len (hex_text bytes) % 2 ≡ 0
unfolding utf8_len flatten
utf8_len-hex_text [] h = refl
utf8_len-hex_text (b ∷ bytes) (hb, h) =
    let (value, high, low) = hex-IsRead b hb in
    rw (high, low) (omega (arith, utf8_len-hex_text bytes h))
