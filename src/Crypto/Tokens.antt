-- ===== src/Crypto/Tokens.antt =====
-- Tokens against forged requests.
use rwf.Prelude.{
  ℕ, ◌+◌, ◌*◌, ◌/◌, ◌^◌, ◌≤◌, some, ◌∷◌, ◌++◌, Bool, true, ◌&&◌, ◌==◌, length, ltb, ◌≡◌, refl, ap,
  ◌∙◌, arith,
}
use rwf.Prelude.Int.{ℤ, pos, i64_max}
use rwf.Prelude.Text.{Text, text_eq, split, is_digit, print_i64, print_nat}
use rwf.Prelude.Text.Digits.{parse_i64-print_nat, print_nat-lacks}
use rwf.Prelude.Text.Splits.{lacks, split-pair}
use rwf.Prelude.Outcome.{ok, ◌>>=◌}
use rwf.Crypto.{
  Bytes, Cipher, Encoding, encrypt, decrypt, csrf_token, csrf_token_validate, checked, dated,
}

module _ (c : Cipher) (e : Encoding) (as_bytes : Text → Bytes) (from_utf8_lossy : Bytes → Text)
    (timestamp : ℤ → Bool) (session_duration : ℕ) where
  checked_lem :
      (now later : ℕ) (session_id other : Text)
      → lacks b'_' session_id ≡ true
      → timestamp (pos (now / 10 ^ 9)) ≡ true
      → now / 10 ^ 9 ≤ i64_max
      → checked c e as_bytes from_utf8_lossy timestamp session_duration later other
          (split b'_' (print_i64 (pos (now / 10 ^ 9)) ++ b'_' ∷ session_id))
        ≡ (text_eq session_id other && ltb later (session_duration + now / 10 ^ 9 * 10 ^ 9))
  unfolding print_i64
  checked_lem now later session_id other h t fits =
      let seconds = now / 10 ^ 9 in
      let same : later + 0 * 10 ^ 9 ≡ later = omega arith in
      let judge = checked c e as_bytes from_utf8_lossy timestamp session_duration later other in
      let date = dated c e as_bytes from_utf8_lossy timestamp session_duration later other in
      let parts =
        split-pair b'_' (print_nat seconds) session_id
          (print_nat-lacks b'_' seconds (unfold is_digit in refl)) h in
      ap judge parts
      ∙ ap (date (some session_id)) (parse_i64-print_nat seconds fits)
      ∙ (rw (t, same) refl)

  -- A token made for a session without `_` in its name is valid for this session and no other,
  -- until as long has passed since its second as a session lasts: where the second is a timestamp
  -- within an i64, and the cipher, the encoding and the conversions of text give back what they
  -- took.
  pub csrf_token_validate-csrf_token :
      (nonce sealed : Bytes) (token : Text) (now later : ℕ) (session_id other : Text)
      → length nonce ≡ 12
      → lacks b'_' session_id ≡ true
      → timestamp (pos (now / 10 ^ 9)) ≡ true
      → now / 10 ^ 9 ≤ i64_max
      → ((t : Text) → from_utf8_lossy (as_bytes t) ≡ t)
      → c.unseal nonce sealed
        ≡ some (as_bytes (print_i64 (pos (now / 10 ^ 9)) ++ b'_' ∷ session_id))
      → e.from_base64 token ≡ some (sealed, nonce)
      → c.seal nonce (as_bytes (print_i64 (pos (now / 10 ^ 9)) ++ b'_' ∷ session_id)) ≡ some sealed
      → e.to_base64 sealed nonce ≡ some token
      → (csrf_token c e as_bytes from_utf8_lossy timestamp session_duration nonce now session_id
          >>= λ t.
              csrf_token_validate c e as_bytes from_utf8_lossy timestamp session_duration later t
                other)
        ≡ ok (text_eq session_id other && ltb later (session_duration + now / 10 ^ 9 * 10 ^ 9))
  unfolding csrf_token csrf_token_validate encrypt decrypt
  csrf_token_validate-csrf_token nonce sealed token now later session_id other n h t fits lossy
        opens reads seals writes =
      let twelve : (length nonce == 12) ≡ true = rw n refl in
      rw (twelve, seals, writes, reads, twelve, opens, lossy)
        (ap (λ b. ok b) (checked_lem now later session_id other h t fits))
