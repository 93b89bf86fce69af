-- ===== src/Http/WebSocket.antt =====
-- WebSocket frames, rwf/src/http/websocket/mod.rs. A stream is the list of its bytes; a read gives what
-- it reads and the bytes behind. The bytes of a text message are those of its UTF-8 encoding;
-- `lossy` is `String::from_utf8_lossy`. A usize has 64 bits.
pub mod Fields
pub mod RoundTrip
pub mod Pong
mod Tests
use Prim.Native.Nat.{bit_and, bit_or, bit_xor}
use rwf.Prelude.{
  ℕ, zero, suc, ◌+◌, ◌*◌, ◌/◌, ◌%◌, ◌^◌, Option, none, some, List, [], ◌∷◌, ◌++◌, Bool, true, ◌==◌,
  ltb, leb, length, if◌then◌else◌,
}
use rwf.Prelude.Outcome.{Outcome, ok, err, ◌>>=◌}

pub data Error : Type 0 where
  eof malformed_request : Error

abbrev pub Bytes : Type 0
Bytes = List ℕ

abbrev Read : Type 0 → Type 0
Read A = Outcome Error (A × Bytes)

pub data OpCode : Type 0 where
  continuation text binary ping pong : OpCode

pub record Header : Type 0 where
  pub fin : Bool
  pub op_code : OpCode

pub record Meta : Type 0 where
  pub len : ℕ
  pub mask : Option (ℕ × ℕ × ℕ × ℕ)

pub data Message : Type 0 where
  text binary : Bytes → Message

pub record DataFrame : Type 0 where
  pub header : Header
  pub meta : Meta
  pub message : Option Message

-- `read_u8`
pub read_u8 : Bytes → Read ℕ
read_u8 [] = err eof
read_u8 (b ∷ bs) = ok (b, bs)

-- `read_exact`
pub read_exact : ℕ → Bytes → Read Bytes
read_exact zero bs = ok ([], bs)
read_exact (suc n) [] = err eof
read_exact (suc n) (b ∷ bs) = do (more, rest) ← read_exact n bs; ok (b ∷ more, rest)

-- `from_be_bytes` and `to_be_bytes`, at a number of bytes
unfoldable pub from_be : ℕ → Bytes → ℕ
from_be n [] = n
from_be n (b ∷ bs) = from_be (n * 256 + b) bs

unfoldable pub to_be : ℕ → ℕ → Bytes
to_be zero n = []
to_be (suc k) n = (n / 256 ^ k % 256) ∷ to_be k n

op_code_of : ℕ → Option OpCode
op_code_of n =
    if n == 0
    then some continuation
    else if n == 1
    then some OpCode.text
    else if n == 2
    then some OpCode.binary
    else if n == 9
    then some ping
    else if n == 0xA
    then some pong
    else none

abbrev header_of : Bool → Option OpCode → Bytes → Read Header
header_of fin none rest = err malformed_request
header_of fin (some op) rest = ok (record { fin = fin; op_code = op }, rest)

-- `Header::read`
pub read_header : Bytes → Read Header
unfolding read_u8 op_code_of
read_header bs = do
  (b, rest) ← read_u8 bs
  header_of (bit_and b 0b1000_0000 == 128) (op_code_of (bit_and b 0b0000_1111)) rest

abbrev code_of : OpCode → ℕ
code_of continuation = 0
code_of OpCode.text = 1
code_of OpCode.binary = 2
code_of ping = 9
code_of pong = 0xA

-- `Header::send`, the bytes that it writes
pub send_header : Header → Bytes
send_header h = (if h.fin then bit_or (code_of h.op_code) 0b1000_0000 else code_of h.op_code) ∷ []

-- The length behind the byte of the mask bit and the short length
pub read_len : ℕ → Bytes → Read ℕ
unfolding read_exact from_be
read_len short bs =
    if leb short 125
    then ok (short, bs)
    else if short == 126
    then (do (b, rest) ← read_exact 2 bs; ok (from_be 0 b, rest))
    else if short == 127
    then (do (b, rest) ← read_exact 8 bs; ok (from_be 0 b, rest))
    else err malformed_request

-- The bytes of the u32 of a mask
abbrev pub mask_of : ℕ → ℕ × ℕ × ℕ × ℕ
mask_of m = (m / 2 ^ 24 % 256, m / 2 ^ 16 % 256, m / 2 ^ 8 % 256, m % 256)

pub read_mask : Bool → Bytes → Read (Option (ℕ × ℕ × ℕ × ℕ))
unfolding read_exact from_be
read_mask masked bs =
    if masked
    then (do (b, rest) ← read_exact 4 bs; ok (some (mask_of (from_be 0 b)), rest))
    else ok (none, bs)

-- `Meta::read`
pub read_meta : Bytes → Read Meta
unfolding read_u8 read_len read_mask
read_meta bs = do
  (b, rest) ← read_u8 bs
  (len, rest₁) ← read_len (bit_and b 0b0111_1111) rest
  (mask, rest₂) ← read_mask (bit_and b 0b1000_0000 == 128) rest₁
  ok (record { len = len; mask = mask }, rest₂)

abbrev mask_bit : Option (ℕ × ℕ × ℕ × ℕ) → ℕ
mask_bit none = 0
mask_bit (some m) = 0b100_0000

abbrev pub mask_bytes : Option (ℕ × ℕ × ℕ × ℕ) → Bytes
mask_bytes none = []
mask_bytes (some (a, b, c, d)) = a ∷ b ∷ c ∷ d ∷ []

-- `Meta::send`
pub send_meta : Meta → Bytes
unfolding to_be
send_meta m =
    (if leb m.len 125
      then bit_or m.len (mask_bit m.mask) ∷ []
      else if ltb m.len 65535
      then bit_or 126 (mask_bit m.mask) ∷ to_be 2 m.len
      else bit_or 127 (mask_bit m.mask) ∷ to_be 8 m.len)
    ++ mask_bytes m.mask

-- `Message::len`
abbrev pub message_bytes : Message → Bytes
message_bytes (Message.text s) = s
message_bytes (Message.binary b) = b

abbrev pub message_code : Message → OpCode
message_code (Message.text s) = OpCode.text
message_code (Message.binary b) = OpCode.binary

abbrev pub mask_byte : ℕ × ℕ × ℕ × ℕ → ℕ → ℕ
mask_byte (a, b, c, d) i = if i == 0 then a else if i == 1 then b else if i == 2 then c else d

-- `msg[i] ^= mask[i % 4]`, from the index `i` on
pub unmask_from : ℕ × ℕ × ℕ × ℕ → ℕ → Bytes → Bytes
unmask_from m i [] = []
unmask_from m i (x ∷ xs) = bit_xor x (mask_byte m (i % 4)) ∷ unmask_from m (i + 1) xs

abbrev pub unmasked : Option (ℕ × ℕ × ℕ × ℕ) → Bytes → Bytes
unmasked none bs = bs
unmasked (some m) bs = unmask_from m 0 bs

-- `Message::send`
pub send_message : Message → Bytes
unfolding send_header send_meta
send_message m =
    send_header (record { fin = true; op_code = message_code m })
    ++ (send_meta (record { len = length (message_bytes m); mask = none }) ++ message_bytes m)

-- `DataFrame::send`
pub send_frame : DataFrame → Bytes
unfolding send_header send_meta send_message
send_frame f =
    send_header f.header
    ++ (send_meta f.meta ++ elim f.message [ none ↦ [] | some m ↦ send_message m ])

abbrev pub message_len : Option Message → ℕ
message_len none = 0
message_len (some m) = length (message_bytes m)

-- `DataFrame::new_pong` and `DataFrame::new_ping`
pub new_pong : DataFrame → DataFrame
new_pong f = record {
  header = record { fin = true; op_code = pong };
  meta = record { len = message_len f.message; mask = none };
  message = f.message;
}

unfoldable new_ping : DataFrame
new_ping = record {
  header = record { fin = true; op_code = ping };
  meta = record { len = 0; mask = none };
  message = none;
}

module _ (lossy : Bytes → Bytes) where
  abbrev pub message_of : OpCode → Bytes → Message
  message_of OpCode.text bs = Message.text (lossy bs)
  message_of op bs = Message.binary bs

  -- `Message::read`. That a buffer of 2^63 bytes or more cannot be allocated is left out.
  pub read_message : Header → Meta → Bytes → Read Message
  unfolding read_exact unmask_from
  read_message h m bs = do
    (b, rest) ← read_exact m.len bs
    ok (message_of h.op_code (unmasked m.mask b), rest)

  -- `DataFrame::read`
  pub read_frame : Bytes → Read DataFrame
  unfolding read_header read_meta read_message
  read_frame bs = do
    (h, rest) ← read_header bs
    (m, rest₁) ← read_meta rest
    (msg, rest₂) ← read_message h m rest₁
    ok (record { header = h; meta = m; message = some msg }, rest₂)
