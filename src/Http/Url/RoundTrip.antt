-- ===== src/Http/Url/RoundTrip.antt =====
-- `urldecode` on what `urlencode` writes.
use rwf.Prelude.{
  ℕ, none, some, [], ◌∷◌, ◌++◌, ◌≡◌, refl, ap, Bool, true, false, not, ◌&&◌, ◌||◌, ◌==◌, ltb, ◌≤◌,
  sym, append-nil, ◌∙◌, leb, arith, Bool-cases, inl, inr,
}
use rwf.Prelude.Text.{text_eq, text_eq→eq, Text, is_digit, utf8_len}
use rwf.Prelude.Ranges.{passes, passes-below}
use rwf.Http.Url.{is_code_char, takes, replacement, decode, urldecode, encode_char, urlencode}

-- A digit of the codes that `urlencode` writes: 0 to 9, or A to F.
abbrev is_hex : ℕ → Bool
is_hex c = is_digit c || (leb b'A' c && leb c b'F')

-- Whether `e` is a code for `c`, or `c` itself where it has no meaning of its own.
stands_for : ℕ → Text → Bool
unfolding is_digit replacement
stands_for c (d ∷ []) = c == d && (not (c == b'%') && not (c == b'+'))
stands_for c (p ∷ a ∷ b ∷ []) =
    p == b'%' && (is_hex a && (is_hex b && text_eq (replacement (a ∷ b ∷ [])) (c ∷ [])))
stands_for c _ = false

code_parts :
    (c p a b : ℕ)
    → stands_for c (p ∷ a ∷ b ∷ []) ≡ true
    → (p ≡ b'%') × (is_hex a ≡ true) × (is_hex b ≡ true) × (replacement (a ∷ b ∷ []) ≡ c ∷ [])
unfolding stands_for
code_parts c p a b h = ground (arith, text_eq→eq (replacement (a ∷ b ∷ [])) (c ∷ []))

encode_table : passes (λ c. stands_for c (encode_char c)) 0 128 ≡ true
unfolding passes stands_for encode_char
encode_table = refl

pub encode_above : (c : ℕ) → 128 ≤ c → encode_char c ≡ c ∷ []
unfolding encode_char
encode_above c h = ground arith

encode_char-stands_for : (c : ℕ) → stands_for c (encode_char c) ≡ true
encode_char-stands_for c = elim (Bool-cases (ltb c 128)) [
  | inl lt ↦ passes-below (λ d. stands_for d (encode_char d)) 128 c encode_table (ground arith)
  | inr ge ↦ rw (encode_above c (ground arith)) (unfold stands_for in ground arith)
]

module _ (is_numeric : ℕ → Bool)
    (numeric_digits : (c : ℕ) → is_digit c ≡ true → is_numeric c ≡ true) where
  hex-is_code_char : (c : ℕ) → is_hex c ≡ true → is_code_char is_numeric c ≡ true
  unfolding is_code_char
  hex-is_code_char c h = ground (arith, numeric_digits c)

  full : (num : Text) (c : ℕ) → utf8_len num ≡ 2 → takes is_numeric (some num) c ≡ false
  unfolding takes
  full num c two = ground arith

  flush-decode :
      (num s : Text)
      → utf8_len num ≡ 2
      → decode is_numeric (some num) s ≡ replacement num ++ decode is_numeric none s
  unfolding decode
  flush-decode num [] two = sym (append-nil (replacement num))
  flush-decode num (c ∷ s) two = rw (full num c two) refl

  take_first : (a : ℕ) → is_hex a ≡ true → takes is_numeric (some []) a ≡ true
  unfolding takes
  take_first a ha = ground (arith, hex-is_code_char a)

  take_second :
      (a b : ℕ) → is_hex a ≡ true → is_hex b ≡ true → takes is_numeric (some (a ∷ [])) b ≡ true
  unfolding takes is_digit
  take_second a b ha hb = ground (arith, hex-is_code_char b)

  utf8_len-hex : (a b : ℕ) → is_hex a ≡ true → is_hex b ≡ true → utf8_len (a ∷ b ∷ []) ≡ 2
  unfolding utf8_len is_digit
  utf8_len-hex a b ha hb = ground arith

  opened :
      (a b : ℕ) (s : Text)
      → is_hex a ≡ true
      → is_hex b ≡ true
      → decode is_numeric none (b'%' ∷ a ∷ b ∷ s) ≡ decode is_numeric (some (a ∷ b ∷ [])) s
  unfolding decode
  opened a b s ha hb = rw (take_first a ha, take_second a b ha hb) refl

  open_code :
      (a b : ℕ) (s : Text)
      → is_hex a ≡ true
      → is_hex b ≡ true
      → decode is_numeric none (b'%' ∷ a ∷ b ∷ s)
        ≡ replacement (a ∷ b ∷ []) ++ decode is_numeric none s
  open_code a b s ha hb = opened a b s ha hb ∙ flush-decode (a ∷ b ∷ []) s (utf8_len-hex a b ha hb)

  decode-stands_for :
      (c : ℕ) (e s : Text)
      → stands_for c e ≡ true
      → decode is_numeric none (e ++ s) ≡ c ∷ decode is_numeric none s
  decode-stands_for c [] s h = absurd (unfold stands_for in ground arith)
  decode-stands_for c (d ∷ []) s h = unfold stands_for decode in ground arith
  decode-stands_for c (p ∷ a ∷ []) s h = absurd (unfold stands_for in ground arith)
  decode-stands_for c (p ∷ a ∷ b ∷ []) s h =
      let (p%, ha, hb, r) = code_parts c p a b h in rw (p%, open_code a b s ha hb, r)
  decode-stands_for c (p ∷ a ∷ b ∷ d ∷ e) s h = absurd (unfold stands_for in ground arith)

  -- Decoding an encoded text gives the text back, where the ASCII digits are numeric.
  pub urldecode-urlencode : (s : Text) → urldecode is_numeric (urlencode s) ≡ s
  unfolding urldecode urlencode
  urldecode-urlencode [] = refl
  urldecode-urlencode (c ∷ s) =
      decode-stands_for c (encode_char c) (urlencode s) (encode_char-stands_for c)
      ∙ ap (λ (t : Text). c ∷ t) (urldecode-urlencode s)
