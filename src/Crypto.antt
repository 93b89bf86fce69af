-- ===== src/Crypto.antt =====
-- Encrypted texts and numbers, and the tokens against forged requests: rwf/src/crypto.rs. The cipher,
-- the encoding of what it gives, random bytes and the clock are parameters.
pub mod Hex
pub mod Numbers
pub mod Tokens
pub mod Cuts
pub mod Panics
mod Tests
use rwf.Prelude.{
  ℕ, ◌+◌, ◌-◌, ◌*◌, ◌/◌, ◌%◌, ◌^◌, Option, none, some, List, [], ◌∷◌, ◌++◌, Bool, false, map,
  length, take, drop, ltb, leb, ◌==◌, ◌&&◌, if◌then◌else◌,
}
use rwf.Prelude.Int.{ℤ, pos, pos_part, neg_part, wrap_i64}
use rwf.Prelude.Text.{
  Text, codes, text_eq, split, join, replace_char, utf8_len, parse_i64, print_i64,
}
use rwf.Prelude.Outcome.{Outcome, ok, err, panic, ◌>>=◌}
use rwf.Http.WebSocket.{to_be, from_be}

abbrev pub Bytes : Type 0
Bytes = List ℕ

pub data Error : Type 0 where
  encoding_error aes_error incorrect_secure_id : Error

-- The cipher under a key, by nonce
pub record Cipher : Type 0 where
  pub seal : (nonce plain : Bytes) → Option Bytes
  pub unseal : (nonce sealed : Bytes) → Option Bytes

-- JSON and base64
pub record Encoding : Type 0 where
  pub to_base64 : (ciphertext nonce : Bytes) → Option Text
  pub from_base64 : Text → Option (Bytes × Bytes)

-- `Nonce::from_slice` panics unless there are 12 bytes.
abbrev pub from_slice : Bytes → Outcome Error Bytes
from_slice nonce = if length nonce == 12 then ok nonce else panic

abbrev pub or_panic : {A : Type 0} → Option A → Outcome Error A
or_panic none = panic
or_panic (some a) = ok a

abbrev pub or_error : {A : Type 0} → Error → Option A → Outcome Error A
or_error e none = err e
or_error e (some a) = ok a

module _ (c : Cipher) (e : Encoding) where
  -- `encrypt`, with its random nonce
  pub encrypt : (nonce : Bytes) → Bytes → Outcome Error Text
  encrypt nonce plain = do
    n ← from_slice nonce
    sealed ← or_panic (c.seal n plain)
    or_error encoding_error (e.to_base64 sealed nonce)

  pub decrypt : Text → Outcome Error Bytes
  decrypt s = do
    (sealed, nonce) ← or_error encoding_error (e.from_base64 s)
    n ← from_slice nonce
    or_error aes_error (c.unseal n sealed)

-- `{:02x?}` of a byte
abbrev pub hex_digit : ℕ → ℕ
hex_digit n = if ltb n 10 then b'0' + n else 87 + n

abbrev pub hex : ℕ → Text
hex b = hex_digit (b / 16) ∷ hex_digit (b % 16) ∷ []

-- `Vec<&str>::join("")`
pub flatten : List Text → Text
flatten [] = []
flatten (t ∷ ts) = t ++ flatten ts

abbrev pub slice : ℕ → List Text → ℕ → Text
slice size parts i = flatten (take size (drop (i * size) parts))

-- The text of a secure id: the bytes in hexadecimal, in four groups
pub print_id : Bytes → Text
unfolding flatten join
print_id bytes =
    let parts = map hex bytes in
    let size = length parts / 4 in join (codes "-") (map (slice size parts) (0 ∷ 1 ∷ 2 ∷ 3 ∷ []))

abbrev digit : ℕ → Option ℕ
digit c =
    if leb b'0' c && leb c b'9'
    then some (c - b'0')
    else if leb b'a' c && leb c b'f'
    then some (c - 87)
    else if leb b'A' c && leb c b'F'
    then some (c - 55)
    else none

abbrev or_zero : Option ℕ → ℕ
or_zero none = 0
or_zero (some n) = n

-- `u8::from_str_radix(…, 16).unwrap_or(0)` of two characters, the first of which may be a sign
pub byte_of : ℕ → ℕ → ℕ
byte_of a b = elim (digit a) [
  | some n ↦ elim (digit b) [ none ↦ 0 | some m ↦ n * 16 + m ]
  | none ↦ if a == b'+' then or_zero (digit b) else 0
]

abbrev pub more : ℕ → Option Bytes → Option Bytes
more n none = none
more n (some ns) = some (n ∷ ns)

-- The bytes of each two of the UTF-8 encoding: a slice that cuts a character panics.
pub pairs : Text → Option Bytes
unfolding byte_of
pairs [] = some []
pairs (a ∷ []) = if ltb a 0x80 then none else if ltb a 0x800 then some (0 ∷ []) else none
pairs (a ∷ b ∷ s) =
    let two = more (byte_of a b) (pairs s) in
    let one = more 0 (pairs (b ∷ s)) in
    if ltb a 0x80 then (if ltb b 0x80 then two else none) else if ltb a 0x800 then one else none

-- `i64::to_be_bytes` and `i64::from_be_bytes`
pub i64_bytes : ℤ → Bytes
unfolding to_be
i64_bytes z = to_be 8 ((pos_part z + (2 ^ 64 - neg_part z)) % 2 ^ 64)

pub i64_of : Bytes → ℤ
unfolding from_be wrap_i64
i64_of bytes = wrap_i64 (pos (from_be 0 bytes))

module _ (c : Cipher) where
  pub encrypt_number : (nonce : Bytes) → ℤ → Outcome Error Text
  unfolding print_id i64_bytes
  encrypt_number nonce z = do
    n ← from_slice nonce
    sealed ← or_panic (c.seal n (i64_bytes z))
    ok (print_id (sealed ++ nonce))

  abbrev pub opened : Bytes → Outcome Error ℤ
  opened plain = if length plain == 8 then ok (i64_of plain) else err incorrect_secure_id

  abbrev pub unsealed : Bytes → Outcome Error ℤ
  unsealed bytes = if ltb (length bytes) 12 then err incorrect_secure_id else (do
    n ← from_slice (drop (length bytes - 12) bytes)
    plain ← or_error aes_error (c.unseal n (take (length bytes - 12) bytes))
    opened plain)

  unfoldable pub decrypt_number : Text → Outcome Error ℤ
  unfolding replace_char utf8_len pairs i64_of
  decrypt_number s =
      let text = replace_char b'-' [] s in
      if utf8_len text % 2 == 0
      then (do bytes ← or_panic (pairs text); unsealed bytes)
      else err incorrect_secure_id

-- The clock gives nanoseconds; `timestamp` says which seconds `OffsetDateTime::from_unix_timestamp` takes.
module _ (c : Cipher) (e : Encoding) (as_bytes : Text → Bytes) (from_utf8_lossy : Bytes → Text)
    (timestamp : ℤ → Bool) (session_duration : ℕ) where
  pub csrf_token : (nonce : Bytes) (now : ℕ) (session_id : Text) → Outcome Error Text
  unfolding encrypt print_i64
  csrf_token nonce now session_id =
      encrypt c e nonce (as_bytes (print_i64 (pos (now / 10 ^ 9)) ++ b'_' ∷ session_id))

  -- Whether less than the duration of a session has passed since the second
  abbrev fresh : ℕ → ℤ → Bool
  fresh now created =
      ltb (now + neg_part created * 10 ^ 9) (session_duration + pos_part created * 10 ^ 9)

  abbrev marked : ℕ → Text → ℤ → Option Text → Bool
  marked now session_id created none = false
  marked now session_id created (some marker) = text_eq marker session_id && fresh now created

  abbrev second : List Text → Option Text
  second [] = none
  second (t ∷ ts) = some t

  abbrev pub dated : ℕ → Text → Option Text → Option ℤ → Bool
  dated now session_id marker none = false
  dated now session_id marker (some created) =
      if timestamp created then marked now session_id created marker else false

  abbrev pub checked : ℕ → Text → List Text → Bool
  checked now session_id [] = false
  checked now session_id (expiration ∷ parts) =
      dated now session_id (second parts) (parse_i64 expiration)

  abbrev pub verdict : ℕ → Text → Outcome Error Bytes → Outcome Error Bool
  verdict now session_id (ok plain) =
      ok (checked now session_id (split b'_' (from_utf8_lossy plain)))
  verdict now session_id (err f) = ok false
  verdict now session_id r = panic

  unfoldable pub csrf_token_validate : (now : ℕ) (token session_id : Text) → Outcome Error Bool
  unfolding decrypt split parse_i64 text_eq
  csrf_token_validate now token session_id = verdict now session_id (decrypt c e token)
