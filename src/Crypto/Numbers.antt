-- ===== src/Crypto/Numbers.antt =====
-- Secure ids: numbers that are encrypted, written as text, and read again.
use rwf.Prelude.{
  ℕ, ◌+◌, ◌-◌, ◌%◌, ◌^◌, ◌<◌, some, [], ◌∷◌, ◌++◌, true, false, ◌==◌, All, All-append, length,
  length-append, take, drop, ltb, ◌≡◌, refl, ap, ◌∙◌, arith,
}
use rwf.Prelude.Int.{ℤ, pos, negsuc, pos_part, neg_part, fits_i64, wrap_i64}
use rwf.Prelude.Outcome.{ok, ◌>>=◌}
use rwf.Http.WebSocket.{to_be}
use rwf.Http.WebSocket.Fields.{from-to_be_8}
use rwf.Crypto.{Bytes, Cipher, i64_bytes, i64_of, encrypt_number, decrypt_number, unsealed}
use rwf.Crypto.Hex.{IsByte, replace-print_id, pairs-hex_text, utf8_len-hex_text}

-- The residue of a number within an i64
abbrev residue : ℤ → ℕ
residue z = (pos_part z + (2 ^ 64 - neg_part z)) % 2 ^ 64

wrap-residue : (z : ℤ) → fits_i64 z ≡ true → wrap_i64 (pos (residue z)) ≡ z
unfolding wrap_i64
wrap-residue (pos n) h = ground arith
wrap-residue (negsuc n) h = ground arith

residue-lt : (z : ℤ) → residue z < 2 ^ 64
residue-lt z = omega arith

i64_of-bytes : (z : ℤ) → fits_i64 z ≡ true → i64_of (i64_bytes z) ≡ z
unfolding i64_of i64_bytes
i64_of-bytes z h =
    ap (λ n. wrap_i64 (pos n)) (from-to_be_8 (residue z) (residue-lt z)) ∙ wrap-residue z h

take-append : (xs ys : Bytes) → take (length xs) (xs ++ ys) ≡ xs
take-append [] ys = refl
take-append (x ∷ xs) ys = ap (λ zs. x ∷ zs) (take-append xs ys)

drop-append : (xs ys : Bytes) → drop (length xs) (xs ++ ys) ≡ ys
drop-append [] ys = refl
drop-append (x ∷ xs) ys = drop-append xs ys

length-i64_bytes : (z : ℤ) → length (i64_bytes z) ≡ 8
unfolding i64_bytes to_be
length-i64_bytes z = refl

module _ (c : Cipher) (nonce sealed : Bytes) (z : ℤ)
    (seals : c.seal nonce (i64_bytes z) ≡ some sealed) (nonce_length : length nonce ≡ 12) where
  front : length (sealed ++ nonce) - 12 ≡ length sealed
  front = omega (arith, length-append sealed nonce, nonce_length)

  unsealed_lem :
      c.unseal nonce sealed ≡ some (i64_bytes z)
      → fits_i64 z ≡ true
      → unsealed c (sealed ++ nonce) ≡ ok z
  unsealed_lem opens fits =
      let long : ltb (length (sealed ++ nonce)) 12 ≡ false =
        ground (arith, length-append sealed nonce, nonce_length) in
      let twelve : (length nonce == 12) ≡ true = rw nonce_length refl in
      rw
        (
          long,
          front,
          drop-append sealed nonce,
          take-append sealed nonce,
          twelve,
          opens,
          length-i64_bytes z,
          i64_of-bytes z fits,
        )
        refl

  -- An i64 that is encrypted under a nonce of 12 bytes is read back from its text, where the cipher
  -- gives bytes, four at a time, and opens what it has sealed.
  pub decrypt_number-encrypt_number :
      All IsByte sealed
      → All IsByte nonce
      → length sealed % 4 ≡ 0
      → c.unseal nonce sealed ≡ some (i64_bytes z)
      → fits_i64 z ≡ true
      → (encrypt_number c nonce z >>= decrypt_number c) ≡ ok z
  unfolding encrypt_number decrypt_number
  decrypt_number-encrypt_number hs hn groups opens fits =
      let bytes = sealed ++ nonce in
      let twelve : (length nonce == 12) ≡ true = rw nonce_length refl in
      let whole : length bytes % 4 ≡ 0 =
        omega (arith, length-append sealed nonce, nonce_length, groups) in
      let all_bytes = All-append IsByte sealed nonce hs hn in
      rw
        (
          twelve,
          seals,
          replace-print_id bytes whole,
          utf8_len-hex_text bytes all_bytes,
          pairs-hex_text bytes all_bytes,
        )
        (unsealed_lem opens fits)
