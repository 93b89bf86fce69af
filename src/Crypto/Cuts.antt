-- ===== src/Crypto/Cuts.antt =====
-- The slices of two bytes that a text of a secure id is cut into.
use rwf.Prelude.{
  ℕ, ◌+◌, ◌%◌, ◌≤◌, ◌<◌, Option, some, none, [], ◌∷◌, Bool, true, false, ◌||◌, Bool-cases, inl, inr,
  ltb, ◌≡◌, refl, sym, ap, ◌∙◌, arith,
}
use rwf.Prelude.Text.{Text, utf8_len, utf8_width}
use rwf.Crypto.{Bytes, pairs, more, byte_of}

below_test : {a b : ℕ} → a < b → ltb a b ≡ true
below_test h = ground (arith, h)

above_test : {a b : ℕ} → b ≤ a → ltb a b ≡ false
above_test h = ground (arith, h)

-- Whether a character of the text, which begins at this offset, goes over a later offset that is even.
abbrev pub cuts : ℕ → Text → Bool
cuts n [] = false
cuts n (a ∷ s) = let rest = cuts (n + utf8_width a) s in ltb 2 (utf8_width a + n % 2) || rest

abbrev pub is_none : Option Bytes → Bool
is_none none = true
is_none (some bytes) = false

is_none-more : (n : ℕ) (o : Option Bytes) → is_none (more n o) ≡ is_none o
is_none-more n none = refl
is_none-more n (some bytes) = refl

pairs-ascii :
    (a b : ℕ) (s : Text)
    → ltb a 0x80 ≡ true
    → ltb b 0x80 ≡ true
    → is_none (pairs (a ∷ b ∷ s)) ≡ is_none (pairs s)
unfolding pairs
pairs-ascii a b s low low' = rw (low, low') (is_none-more (byte_of a b) (pairs s))

pairs-cut : (a b : ℕ) (s : Text) → ltb a 0x80 ≡ true → ltb b 0x80 ≡ false → pairs (a ∷ b ∷ s) ≡ none
unfolding pairs
pairs-cut a b s low high = rw (low, high) refl

pairs-two :
    (a b : ℕ) (s : Text)
    → ltb a 0x80 ≡ false
    → ltb a 0x800 ≡ true
    → is_none (pairs (a ∷ b ∷ s)) ≡ is_none (pairs (b ∷ s))
unfolding pairs
pairs-two a b s high low = rw (high, low) (is_none-more 0 (pairs (b ∷ s)))

pairs-long :
    (a b : ℕ) (s : Text) → ltb a 0x80 ≡ false → ltb a 0x800 ≡ false → pairs (a ∷ b ∷ s) ≡ none
unfolding pairs
pairs-long a b s high higher = rw (high, higher) refl

-- The number of bytes of a character
width-ascii : (a : ℕ) → ltb a 0x80 ≡ true → utf8_width a ≡ 1
width-ascii a low = rw low refl

width-two : (a : ℕ) → ltb a 0x80 ≡ false → ltb a 0x800 ≡ true → utf8_width a ≡ 2
width-two a high low = rw (high, low) refl

width-other : (a : ℕ) → ltb a 0x80 ≡ false → 1 < utf8_width a
width-other a high = ground (arith, high)

width-long : (a : ℕ) → ltb a 0x800 ≡ false → 2 < utf8_width a
width-long a high = ground (arith, high)

cuts-stays :
    (n a : ℕ) (s : Text) → utf8_width a + n % 2 ≤ 2 → cuts n (a ∷ s) ≡ cuts (n + utf8_width a) s
cuts-stays n a s h = let no : ltb 2 (utf8_width a + n % 2) ≡ false = above_test h in rw no refl

cuts-here : (n a : ℕ) (s : Text) → 2 < utf8_width a + n % 2 → cuts n (a ∷ s) ≡ true
cuts-here n a s h = let yes' : ltb 2 (utf8_width a + n % 2) ≡ true = below_test h in rw yes' refl

utf8_len-cons : (a : ℕ) (s : Text) → utf8_len (a ∷ s) ≡ utf8_width a + utf8_len s
unfolding utf8_len
utf8_len-cons a s = refl

pairs-one : (a : ℕ) → ltb a 0x80 ≡ false → ltb a 0x800 ≡ true → is_none (pairs (a ∷ [])) ≡ false
unfolding pairs
pairs-one a high low = rw (high, low) refl

pairs-one_long :
    (a : ℕ) → ltb a 0x80 ≡ false → ltb a 0x800 ≡ false → is_none (pairs (a ∷ [])) ≡ true
unfolding pairs
pairs-one_long a high higher = rw (high, higher) refl

one-pair :
    (a n : ℕ) → n % 2 ≡ 0 → utf8_len (a ∷ []) % 2 ≡ 0 → is_none (pairs (a ∷ [])) ≡ cuts n (a ∷ [])
unfolding utf8_len
one-pair a n even total = elim (Bool-cases (ltb a 0x80)) [
  | inl low ↦ absurd (omega (arith, width-ascii a low, total))
  | inr high ↦ elim (Bool-cases (ltb a 0x800)) [
    | inl low ↦
        pairs-one a high low ∙ sym (cuts-stays n a [] (omega (arith, width-two a high low, even)))
    | inr higher ↦
        pairs-one_long a high higher ∙ sym (cuts-here n a [] (omega (arith, width-long a higher)))
  ]
]

-- The slices of two bytes of a text of an even length are made unless a character goes over an even
-- offset.
pub is_none-pairs :
    (s : Text) (n : ℕ) → n % 2 ≡ 0 → utf8_len s % 2 ≡ 0 → is_none (pairs s) ≡ cuts n s
is_none-pairs [] n even total = unfold pairs in refl
is_none-pairs (a ∷ []) n even total = one-pair a n even total
is_none-pairs (a ∷ b ∷ s) n even total =
    let parts = utf8_len-cons a (b ∷ s) in
    let more_parts = utf8_len-cons b s in
    elim (Bool-cases (ltb a 0x80)) [
      | inl low ↦
          let w = width-ascii a low in
          let first = cuts-stays n a (b ∷ s) (omega (arith, w, even)) in
          elim (Bool-cases (ltb b 0x80)) [
            | inl low' ↦
                let w' = width-ascii b low' in
                let second = cuts-stays (n + utf8_width a) b s (omega (arith, w, w', even)) in
                pairs-ascii a b s low low'
                ∙ is_none-pairs s (n + utf8_width a + utf8_width b) (omega (arith, w, w', even))
                    (omega (arith, parts, more_parts, w, w', total))
                ∙ sym second
                ∙ sym first
            | inr high ↦
                let second =
                  cuts-here (n + utf8_width a) b s (omega (arith, w, width-other b high, even)) in
                ap is_none (pairs-cut a b s low high) ∙ sym second ∙ sym first
          ]
      | inr high ↦ elim (Bool-cases (ltb a 0x800)) [
        | inl low ↦
            let w = width-two a high low in
            pairs-two a b s high low
            ∙ is_none-pairs (b ∷ s) (n + utf8_width a) (omega (arith, w, even))
                (omega (arith, parts, w, total))
            ∙ sym (cuts-stays n a (b ∷ s) (omega (arith, w, even)))
        | inr higher ↦
            ap is_none (pairs-long a b s high higher)
            ∙ sym (cuts-here n a (b ∷ s) (omega (arith, width-long a higher)))
      ]
    ]
