-- ===== src/Crypto/Tests.antt =====
-- Encryption at fixed inputs, with a cipher that adds a tag of zeros.
use rwf.Prelude.{
  ℕ, ◌+◌, ◌-◌, ◌*◌, some, [], ◌∷◌, ◌++◌, true, ◌&&◌, ltb, length, take, drop, ◌%◌, ◌↔◌, ◌≡◌, refl,
  arith,
}
use rwf.Prelude.Int.{negsuc}
use rwf.Prelude.Text.{codes, text_eq, print_i64, replace_char, utf8_len}
use rwf.Prelude.Outcome.{ok, err, panic, ◌>>=◌}
use rwf.Crypto.{
  Bytes, incorrect_secure_id, Cipher, Encoding, i64_bytes, print_id, encrypt_number, decrypt_number,
  csrf_token, csrf_token_validate,
}
use rwf.Crypto.Numbers.{decrypt_number-encrypt_number}
use rwf.Crypto.Tokens.{csrf_token_validate-csrf_token}
use rwf.Crypto.Cuts.{cuts}
use rwf.Crypto.Panics.{BadNonce, csrf_token_validate_panics, decrypt_number_panics}

abbrev tag : Bytes
tag = 0 ∷ 0 ∷ 0 ∷ 0 ∷ 0 ∷ 0 ∷ 0 ∷ 0 ∷ 0 ∷ 0 ∷ 0 ∷ 0 ∷ 0 ∷ 0 ∷ 0 ∷ 0 ∷ []

abbrev nonce : Bytes
nonce = 1 ∷ 2 ∷ 3 ∷ 4 ∷ 5 ∷ 6 ∷ 7 ∷ 8 ∷ 9 ∷ 10 ∷ 11 ∷ 255 ∷ []

abbrev tagged : Cipher
tagged = record {
  seal = λ n plain. some (plain ++ tag);
  unseal = λ n sealed. some (take (length sealed - 16) sealed);
}

abbrev plain_text : Encoding
plain_text = record {
  to_base64 = λ sealed n. some (n ++ sealed);
  from_base64 = λ t. some (drop 12 t, take 12 t);
}

print_id_sample :
    print_id (i64_bytes (negsuc 1) ++ (tag ++ nonce))
    ≡ codes "fffffffffffffffe00-000000000000000000-000000000000010203-0405060708090a0bff"
unfolding print_id i64_bytes
print_id_sample = refl

decrypt_number_sample :
    decrypt_number tagged
      (codes "fffffffffffffffe00-000000000000000000-000000000000010203-0405060708090a0bff")
    ≡ ok (negsuc 1)
unfolding decrypt_number
decrypt_number_sample = refl

bad_input_sample : decrypt_number tagged (codes "sdf") ≡ err incorrect_secure_id
unfolding decrypt_number
bad_input_sample = refl

decrypt_number-encrypt_number_example :
    (encrypt_number tagged nonce (negsuc 1) >>= decrypt_number tagged) ≡ ok (negsuc 1)
unfolding i64_bytes
decrypt_number-encrypt_number_example =
    decrypt_number-encrypt_number tagged nonce (i64_bytes (negsuc 1) ++ tag) (negsuc 1) refl refl
      (omega arith) (omega arith) refl refl refl

abbrev month : ℕ
month = 2592000 * 1000000000

abbrev now : ℕ
now = 1700000000 * 1000000000

abbrev sealed : Bytes
sealed = codes "1700000000_guest" ++ tag

csrf_token_validate-csrf_token_example :
    (csrf_token tagged plain_text (λ t. t) (λ t. t) (λ s. true) month nonce now (codes "guest")
      >>= λ t.
          csrf_token_validate tagged plain_text
            (λ t. t)
            (λ t. t)
            (λ s. true)
            month
            (now + 1)
            t
            (codes "guest"))
    ≡ ok
        (text_eq (codes "guest") (codes "guest") && ltb (now + 1) (month + 1700000000 * 1000000000))
csrf_token_validate-csrf_token_example =
    csrf_token_validate-csrf_token tagged plain_text (λ t. t) (λ t. t) (λ s. true) month nonce
      sealed (nonce ++ sealed) now (now + 1) (codes "guest") (codes "guest") refl refl refl
      (omega arith) (λ t. refl) (unfold print_i64 in refl) refl (unfold print_i64 in refl) refl

csrf_token_validate_panics_example :
    csrf_token_validate tagged plain_text
        (λ t. t)
        (λ t. t)
        (λ s. true)
        month
        now
        (codes "short")
        (codes "guest")
      ≡ panic
    ↔ BadNonce plain_text (codes "short")
csrf_token_validate_panics_example =
    csrf_token_validate_panics tagged plain_text (λ t. t) (λ t. t) (λ s. true) month now
      (codes "short") (codes "guest")

decrypt_number_panics_example :
    decrypt_number tagged (codes "1é-2") ≡ panic
    ↔ (utf8_len (replace_char b'-' [] (codes "1é-2")) % 2 ≡ 0)
      × (cuts 0 (replace_char b'-' [] (codes "1é-2")) ≡ true)
decrypt_number_panics_example = decrypt_number_panics tagged (codes "1é-2")

-- The `é` goes over the second byte.
panics_sample : decrypt_number tagged (codes "1é-2") ≡ panic
unfolding decrypt_number
panics_sample = refl
