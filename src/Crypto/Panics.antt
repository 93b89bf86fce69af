-- ===== src/Crypto/Panics.antt =====
-- On which texts, that come from a client, decryption panics.
use rwf.Prelude.{
  ℕ, ◌-◌, ◌%◌, ◌≤◌, ◌≢◌, Option, some, none, List, [], ◌∷◌, Bool, true, false, ◌==◌, ==→eq,
  Bool-cases, inl, inr, length, take, drop, zero, suc, ltb, ◌↔◌, ◌≡◌, refl, sym, ap, ◌∙◌, arith,
}
use rwf.Prelude.Int.{ℤ}
use rwf.Prelude.Text.{Text, replace_char, utf8_len}
use rwf.Prelude.Outcome.{Outcome, ok, err, panic, out_of_fuel, ◌>>=◌}
use rwf.Crypto.{
  Bytes, Error, aes_error, encoding_error, incorrect_secure_id, Cipher, Encoding, from_slice,
  or_error, or_panic, decrypt, csrf_token_validate, verdict, pairs, opened, unsealed,
  decrypt_number,
}
use rwf.Crypto.Cuts.{cuts, is_none, is_none-pairs}

-- A text that is decoded to a nonce of another length than 12 bytes
abbrev pub BadNonce : Encoding → Text → Type 0
BadNonce e token =
    (sealed : Bytes) × (nonce : Bytes) × (e.from_base64 token ≡ some (sealed, nonce))
    × (length nonce ≢ 12)

or_error-panic : {A : Type 0} (f : Error) (o : Option A) → or_error f o ≢ panic
or_error-panic f none = cc
or_error-panic f (some a) = cc

or_error-out_of_fuel : {A : Type 0} (f : Error) (o : Option A) → or_error f o ≢ out_of_fuel
or_error-out_of_fuel f none = cc
or_error-out_of_fuel f (some a) = cc

from_slice_twelve : (nonce : Bytes) → length nonce ≡ 12 → from_slice nonce ≡ ok nonce
from_slice_twelve nonce n = let hit : (length nonce == 12) ≡ true = rw n refl in rw hit refl

from_slice_other : (nonce : Bytes) → length nonce ≢ 12 → from_slice nonce ≡ panic
from_slice_other nonce n = elim (Bool-cases (length nonce == 12)) [
  | inl hit ↦ absurd (n (==→eq _ _ hit))
  | inr miss ↦ rw miss refl
]

module _ (c : Cipher) (e : Encoding) where
  decrypt-some :
      (token : Text) (sealed nonce : Bytes)
      → e.from_base64 token ≡ some (sealed, nonce)
      → decrypt c e token ≡ (from_slice nonce >>= λ n. or_error aes_error (c.unseal n sealed))
  unfolding decrypt
  decrypt-some token sealed nonce d = rw d refl

  opened-panic :
      (sealed nonce : Bytes)
      → (from_slice nonce >>= λ n. or_error aes_error (c.unseal n sealed)) ≡ panic
      → length nonce ≢ 12
  opened-panic sealed nonce h n = or_error-panic aes_error (c.unseal nonce sealed) (
      sym (ap (λ r. r >>= λ n. or_error aes_error (c.unseal n sealed)) (from_slice_twelve nonce n))
      ∙ h)

  decoded-BadNonce :
      (token : Text) (d : Option (Bytes × Bytes))
      → e.from_base64 token ≡ d
      → decrypt c e token ≡ panic
      → BadNonce e token
  unfolding decrypt
  decoded-BadNonce token none d p =
      let failed : decrypt c e token ≡ err encoding_error = rw d refl in absurd (cc (failed, p))
  decoded-BadNonce token (some (sealed, nonce)) d p =
      (sealed, nonce, d, opened-panic sealed nonce (sym (decrypt-some token sealed nonce d) ∙ p))

  bad-panic : (token : Text) → BadNonce e token → decrypt c e token ≡ panic
  bad-panic token (sealed, nonce, d, n) =
      decrypt-some token sealed nonce d
      ∙ ap (λ r. r >>= λ n. or_error aes_error (c.unseal n sealed)) (from_slice_other nonce n)

  decoded-out_of_fuel :
      (token : Text) (d : Option (Bytes × Bytes))
      → e.from_base64 token ≡ d
      → decrypt c e token ≢ out_of_fuel
  unfolding decrypt
  decoded-out_of_fuel token none d h =
      let failed : decrypt c e token ≡ err encoding_error = rw d refl in cc (failed, h)
  decoded-out_of_fuel token (some (sealed, nonce)) d h = elim (Bool-cases (length nonce == 12)) [
    | inl hit ↦
        let made : decrypt c e token ≡ or_error aes_error (c.unseal nonce sealed) =
          rw (d, hit) refl in
        or_error-out_of_fuel aes_error (c.unseal nonce sealed) (sym made ∙ h)
    | inr miss ↦ let made : decrypt c e token ≡ panic = rw (d, miss) refl in cc (made, h)
  ]

  module _ (as_bytes : Text → Bytes) (from_utf8_lossy : Bytes → Text) (timestamp : ℤ → Bool)
      (session_duration : ℕ) where
    abbrev judged : ℕ → Text → Outcome Error Bytes → Outcome Error Bool
    judged = verdict c e as_bytes from_utf8_lossy timestamp session_duration

    judged-panic :
        (now : ℕ) (token session_id : Text) (r : Outcome Error Bytes)
        → decrypt c e token ≡ r
        → judged now session_id r ≡ panic
        → r ≡ panic
    judged-panic now token session_id (ok plain) d h = cc
    judged-panic now token session_id (err f) d h = cc
    judged-panic now token session_id panic d h = refl
    judged-panic now token session_id out_of_fuel d h =
        absurd (decoded-out_of_fuel token (e.from_base64 token) refl d)

    -- The validation of a token panics exactly when the token is decoded to a nonce of another
    -- length than 12 bytes: nothing else that a token holds makes it panic.
    pub csrf_token_validate_panics :
        (now : ℕ) (token session_id : Text)
        → csrf_token_validate c e as_bytes from_utf8_lossy timestamp session_duration now token
              session_id
            ≡ panic
          ↔ BadNonce e token
    unfolding csrf_token_validate
    csrf_token_validate_panics now token session_id = (
      λ h.
          decoded-BadNonce token (e.from_base64 token) refl
            (judged-panic now token session_id (decrypt c e token) refl h),
      λ b. ap (judged now session_id) (bad-panic token b),
    )

length-drop : {A : Type 0} (k : ℕ) (xs : List A) → length (drop k xs) ≡ length xs - k
length-drop zero xs = omega arith
length-drop (suc k) [] = omega arith
length-drop (suc k) (x ∷ xs) = omega (arith, length-drop k xs)

drop-twelve : (bytes : Bytes) → 12 ≤ length bytes → length (drop (length bytes - 12) bytes) ≡ 12
drop-twelve bytes h = omega (arith, length-drop (length bytes - 12) bytes)

module _ (c : Cipher) where
  opened-number : (plain : Bytes) → opened c plain ≢ panic
  opened-number plain = elim (Bool-cases (length plain == 8)) [
    | inl hit ↦ rw hit (cc)
    | inr miss ↦ rw miss (cc)
  ]

  opened-bytes : (o : Option Bytes) → (or_error aes_error o >>= opened c) ≢ panic
  opened-bytes none = cc
  opened-bytes (some plain) = opened-number plain

  unsealed-panic : (bytes : Bytes) → unsealed c bytes ≢ panic
  unsealed-panic bytes = elim (Bool-cases (ltb (length bytes) 12)) [
    | inl short ↦ rw short (cc)
    | inr long ↦
        let n = drop-twelve bytes (ground (arith, long)) in
        rw (long, from_slice_twelve _ n)
          (opened-bytes
            (c.unseal (drop (length bytes - 12) bytes) (take (length bytes - 12) bytes)))
  ]

  number-panic : (o : Option Bytes) → (or_panic o >>= unsealed c) ≡ panic → is_none o ≡ true
  number-panic none h = refl
  number-panic (some bytes) h = absurd (unsealed-panic bytes h)

  panic-number : (o : Option Bytes) → is_none o ≡ true → (or_panic o >>= unsealed c) ≡ panic
  panic-number none h = refl
  panic-number (some bytes) h = cc

  abbrev number : Text → Outcome Error ℤ
  number text = or_panic (pairs text) >>= unsealed c

  decrypt_number-even :
      (s : Text)
      → utf8_len (replace_char b'-' [] s) % 2 ≡ 0
      → decrypt_number c s ≡ number (replace_char b'-' [] s)
  unfolding decrypt_number
  decrypt_number-even s even = rw even refl

  decrypt_number-odd :
      (s : Text)
      → (utf8_len (replace_char b'-' [] s) % 2 == 0) ≡ false
      → decrypt_number c s ≡ err incorrect_secure_id
  unfolding decrypt_number
  decrypt_number-odd s odd = rw odd refl

  -- The decryption of a secure id panics exactly when the text without its dashes has an even
  -- number of bytes, and one of its characters goes over a later offset that is even: then a slice
  -- of two bytes cuts it. Nothing else makes it panic, whatever the cipher does.
  pub decrypt_number_panics :
      (s : Text)
      → decrypt_number c s ≡ panic
        ↔ (utf8_len (replace_char b'-' [] s) % 2 ≡ 0) × (cuts 0 (replace_char b'-' [] s) ≡ true)
  decrypt_number_panics s =
      let text = replace_char b'-' [] s in
      (
        λ h. elim (Bool-cases (utf8_len text % 2 == 0)) [
          | inl hit ↦
              let even = ==→eq _ _ hit in
              (
                even,
                sym (is_none-pairs text 0 refl even)
                    ∙ number-panic (pairs text) (sym (decrypt_number-even s even) ∙ h),
              )
          | inr odd ↦ absurd (cc (decrypt_number-odd s odd, h))
        ],
        λ (even, cut).
            decrypt_number-even s even
            ∙ panic-number (pairs text) (is_none-pairs text 0 refl even ∙ cut),
      )
