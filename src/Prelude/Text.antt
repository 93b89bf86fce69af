-- ===== src/Prelude/Text.antt =====
-- Text as the list of its characters' code points, with the functions of `str` and `char` that
-- the program calls.
pub mod Digits
pub mod Splits
use Prim.Native.Char.{code}
use Prim.Native.Nat.{ℕ, zero, suc, ◌+◌, ◌-◌, ◌*◌, ◌/◌, ◌%◌, compare, Ordering}
use Prim.Native.String.{String}
use mathlib.Core.Path.{◌≡◌, refl}
use mathlib.Core.Bool.{Bool, true, false, ◌&&◌, ◌||◌}
use mathlib.Core.Option.{Option, none, some}
use mathlib.Core.List.{List, [], ◌∷◌, ◌++◌, reverse}
use native.Mathlib.Omega.{arith}
use rwf.Prelude.Tests.{ltb, leb, ◌==◌, ==_refl, if◌then◌else◌}
use rwf.Prelude.Lists.{length, is_empty}
use rwf.Prelude.Int.{ℤ, pos, negsuc, sub_ℕ, fits_i64}

abbrev pub Text : Type 0
Text = List ℕ

abbrev pub codes : String → Text
codes String.[] = []
codes (String.◌∷◌ c s) = code c ∷ codes s

-- `==` on strings
unfoldable pub text_eq : Text → Text → Bool
text_eq [] [] = true
text_eq (c ∷ s) (d ∷ t) = c == d && text_eq s t
text_eq _ _ = false

pub text_eq_refl : (s : Text) → text_eq s s ≡ true
unfolding text_eq
text_eq_refl [] = refl
text_eq_refl (c ∷ s) = ground (arith, ==_refl c, text_eq_refl s)

pub text_eq→eq : (s t : Text) → text_eq s t ≡ true → s ≡ t
unfolding text_eq
text_eq→eq [] [] h = refl
text_eq→eq (c ∷ s) (d ∷ t) h = ground (arith, text_eq→eq s t)
text_eq→eq _ _ h = ground arith

-- `char::is_whitespace`
is_whitespace : ℕ → Bool
is_whitespace c =
    c == 32
    || (leb 9 c && leb c 13)
    || c == 0x85
    || c == 0xA0
    || c == 0x1680
    || (leb 0x2000 c && leb c 0x200A)
    || c == 0x2028
    || c == 0x2029
    || c == 0x202F
    || c == 0x205F
    || c == 0x3000

trim_start : Text → Text
trim_start [] = []
trim_start (c ∷ s) = let rest = trim_start s in if is_whitespace c then rest else c ∷ s

-- `str::trim`
unfoldable pub trim : Text → Text
unfolding trim_start is_whitespace
trim s = reverse (trim_start (reverse (trim_start s)))

unfoldable pub is_digit : ℕ → Bool
is_digit c = leb b'0' c && leb c b'9'

digits_from : ℕ → Text → Option ℕ
digits_from n [] = some n
digits_from n (c ∷ s) =
    let rest = digits_from (n * 10 + (c - b'0')) s in if is_digit c then rest else none

-- The digits of a number, at least one.
parse_nat : Text → Option ℕ
unfolding digits_from is_digit
parse_nat [] = none
parse_nat (c ∷ s) = digits_from 0 (c ∷ s)

abbrev in_range : ℤ → Option ℤ
in_range z = if fits_i64 z then some z else none

abbrev positive : Option ℕ → Option ℤ
positive none = none
positive (some n) = in_range (pos n)

abbrev negative : Option ℕ → Option ℤ
negative none = none
negative (some n) = in_range (sub_ℕ 0 n)

-- `str::parse::<i64>`: an optional sign, then digits, within the bounds.
unfoldable pub parse_i64 : Text → Option ℤ
unfolding parse_nat
parse_i64 [] = none
parse_i64 (c ∷ s) =
    if c == b'-'
    then negative (parse_nat s)
    else if c == b'+'
    then positive (parse_nat s)
    else positive (parse_nat (c ∷ s))

-- The decimal digits of a number, with fuel: `n + 1` rounds are enough for `n`.
print_nat_from : ℕ → ℕ → Text → Text
print_nat_from zero n out = out
print_nat_from (suc f) n out =
    let more = print_nat_from f (n / 10) ((b'0' + n % 10) ∷ out) in
    if ltb n 10 then (b'0' + n) ∷ out else more

unfoldable pub print_nat : ℕ → Text
unfolding print_nat_from
print_nat n = print_nat_from (suc n) n []

-- `i64::to_string`
unfoldable pub print_i64 : ℤ → Text
unfolding print_nat
print_i64 (pos n) = print_nat n
print_i64 (negsuc n) = b'-' ∷ print_nat (suc n)

-- `str::starts_with`
unfoldable pub starts_with : Text → Text → Bool
starts_with s [] = true
starts_with [] (d ∷ t) = false
starts_with (c ∷ s) (d ∷ t) = c == d && starts_with s t

-- `Vec<String>::join`
unfoldable pub join : Text → List Text → Text
join sep [] = []
join sep (s ∷ []) = s
join sep (s ∷ t ∷ ts) = s ++ sep ++ join sep (t ∷ ts)

-- `str::replace`: leftmost matches that do not overlap. `skip` counts the characters of a match that
-- are still to be passed over; the empty pattern matches before each character and at the end.
replace_from : Text → Text → ℕ → Text → Text
replace_from pat r skip [] = if starts_with [] pat then r else []
replace_from pat r (suc skip) (c ∷ s) = replace_from pat r skip s
replace_from pat r zero (c ∷ s) =
    let hit = r ++ replace_from pat r (length pat - 1) s in
    let kept = c ∷ replace_from pat r zero s in
    if is_empty pat then r ++ kept else if starts_with (c ∷ s) pat then hit else kept

unfoldable pub replace : Text → Text → Text → Text
unfolding replace_from starts_with
replace pat r s = replace_from pat r zero s

-- The number of bytes of the UTF-8 encoding, `str::len`
abbrev pub utf8_width : ℕ → ℕ
utf8_width c = if ltb c 0x80 then 1 else if ltb c 0x800 then 2 else if ltb c 0x10000 then 3 else 4

unfoldable pub utf8_len : Text → ℕ
utf8_len [] = 0
utf8_len (c ∷ s) = utf8_width c + utf8_len s

-- `str::cmp`: the order of UTF-8 is that of the code points.
unfoldable pub text_cmp : Text → Text → Ordering
text_cmp [] [] = Ordering.eq
text_cmp [] (d ∷ t) = Ordering.lt
text_cmp (c ∷ s) [] = Ordering.gt
text_cmp (c ∷ s) (d ∷ t) = elim (compare c d) [
  | Ordering.eq ↦ text_cmp s t
  | Ordering.lt ↦ Ordering.lt
  | Ordering.gt ↦ Ordering.gt
]

-- `str::repeat`
unfoldable pub repeat : ℕ → Text → Text
repeat zero s = []
repeat (suc n) s = s ++ repeat n s

-- `str::replace` with a pattern of one character
unfoldable pub replace_char : ℕ → Text → Text → Text
replace_char c r [] = []
replace_char c r (d ∷ s) = (if d == c then r else d ∷ []) ++ replace_char c r s

-- `str::split` at a character
split_from : ℕ → Text → Text → List Text
split_from sep cur [] = cur ∷ []
split_from sep cur (c ∷ s) =
    let closed = cur ∷ split_from sep [] s in
    let longer = split_from sep (cur ++ c ∷ []) s in if c == sep then closed else longer

unfoldable pub split : ℕ → Text → List Text
unfolding split_from
split sep s = split_from sep [] s

-- `char::to_ascii_lowercase`, `char::to_ascii_uppercase`
unfoldable pub to_ascii_lowercase : ℕ → ℕ
to_ascii_lowercase c = if leb b'A' c && leb c b'Z' then c + 32 else c

unfoldable pub to_ascii_uppercase : ℕ → ℕ
to_ascii_uppercase c = if leb b'a' c && leb c b'z' then c - 32 else c

parse_minus : parse_i64 (codes "-120") ≡ some (negsuc 119)
unfolding parse_i64
parse_minus = refl

print_sample : print_i64 (negsuc 1203) ≡ codes "-1204"
unfolding print_i64
print_sample = refl

trim_sample : trim (codes " a b\n") ≡ codes "a b"
unfolding trim
trim_sample = refl

replace_sample : replace (codes "aa") (codes "b") (codes "aaaxaa") ≡ codes "baxb"
unfolding replace
replace_sample = refl
