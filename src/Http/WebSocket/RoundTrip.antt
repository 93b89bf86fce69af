-- ===== src/Http/WebSocket/RoundTrip.antt =====
-- A message that is written is read back, and the frames of a client are read.
use rwf.Prelude.{
  ℕ, ◌+◌, ◌%◌, ◌^◌, ◌<◌, none, some, [], ◌∷◌, ◌++◌, Bool, true, false, ltb, leb, length,
  if◌then◌else◌, ◌≡◌, subst, refl, arith, Bool-cases, inl, inr, All, append_assoc,
}
use rwf.Prelude.Outcome.{ok}
use rwf.Http.WebSocket.{
  Bytes, OpCode, continuation, ping, pong, Header, Meta, Message, DataFrame, read_exact,
  read_header, read_meta, send_meta, send_header, send_message, unmasked, read_message, read_frame,
  unmask_from, mask_byte, mask_bytes, message_bytes, message_code, message_of,
}
use rwf.Http.WebSocket.Fields.{
  short, extra, IsMask, bit_xor_twice, bit_or_zero, read_exact-append, read-send_header,
  read_meta-extra, read_meta-masked,
}

pub send_meta-short :
    (n : ℕ)
    → n < 2 ^ 64
    → send_meta (record { len = n; mask = none }) ≡ short 65535 n ∷ extra 65535 n
unfolding send_meta short extra
send_meta-short n fits = elim (Bool-cases (leb n 125)) [
  | inl small ↦ rw (small, bit_or_zero n (ground arith)) refl
  | inr large ↦ elim (Bool-cases (ltb n 65535)) [
    | inl medium ↦ rw (large, medium) refl
    | inr wide ↦ rw (large, wide) refl
  ]
]

mask_byte-small : (mask : ℕ × ℕ × ℕ × ℕ) (i : ℕ) → IsMask mask → mask_byte mask i < 256
unfolding IsMask
mask_byte-small (a, b, c, d) i h = ground arith

unmask_from-twice :
    (mask : ℕ × ℕ × ℕ × ℕ) (i : ℕ) (bs : Bytes)
    → IsMask mask
    → All (λ b. b < 256) bs
    → unmask_from mask i (unmask_from mask i bs) ≡ bs
unfolding unmask_from
unmask_from-twice mask i [] hm hb = refl
unmask_from-twice mask i (b ∷ bs) hm (h, hb) =
    rw
      (
        bit_xor_twice b (mask_byte mask (i % 4)) h (mask_byte-small mask (i % 4) hm),
        unmask_from-twice mask (i + 1) bs hm hb,
      )
      refl

length-unmask_from :
    (mask : ℕ × ℕ × ℕ × ℕ) (i : ℕ) (bs : Bytes) → length (unmask_from mask i bs) ≡ length bs
unfolding unmask_from
length-unmask_from mask i [] = refl
length-unmask_from mask i (b ∷ bs) = rw (length-unmask_from mask (i + 1) bs) refl

-- The opcodes of RFC 6455
abbrev wire_code : OpCode → ℕ
wire_code continuation = 0x0
wire_code OpCode.text = 0x1
wire_code OpCode.binary = 0x2
wire_code ping = 0x9
wire_code pong = 0xA

-- A frame as RFC 6455 has a client write it: the bit of the last fragment and the opcode, the mask
-- bit and the length, in as few bytes as will do, the mask, and the masked payload.
pub client_frame : Header → ℕ × ℕ × ℕ × ℕ → Bytes → Bytes
client_frame h mask payload =
    (if h.fin then 128 + wire_code h.op_code else wire_code h.op_code)
      ∷ (short 65536 (length payload) + 128)
      ∷ extra 65536 (length payload)
    ++ (mask_bytes (some mask) ++ unmask_from mask 0 payload)

read_header-wire_code :
    (h : Header) (rest : Bytes)
    → read_header ((if h.fin then 128 + wire_code h.op_code else wire_code h.op_code) ∷ rest)
      ≡ ok (h, rest)
unfolding read_header
read_header-wire_code h rest = cases h.fin h.op_code
  where
    cases :
        (fin : Bool) (op : OpCode)
        → read_header ((if fin then 128 + wire_code op else wire_code op) ∷ rest)
          ≡ ok (record { fin = fin; op_code = op }, rest)
    cases true continuation = refl
    cases true OpCode.text = refl
    cases true OpCode.binary = refl
    cases true ping = refl
    cases true pong = refl
    cases false continuation = refl
    cases false OpCode.text = refl
    cases false OpCode.binary = refl
    cases false ping = refl
    cases false pong = refl

abbrev pub frame_of : Header → Meta → Message → DataFrame
frame_of h m msg = record { header = h; meta = m; message = some msg }

module _ (lossy : Bytes → Bytes) where
  message_of-lossy :
      (m : Message)
      → ((s : Bytes) → m ≡ Message.text s → lossy s ≡ s)
      → message_of lossy (message_code m) (message_bytes m) ≡ m
  message_of-lossy (Message.text s) valid = rw (valid s refl) refl
  message_of-lossy (Message.binary s) valid = refl

  pub read_frame-parts :
      (bs r₁ r₂ rest payload : Bytes) (h : Header) (m : Meta)
      → read_header bs ≡ ok (h, r₁)
      → read_meta r₁ ≡ ok (m, r₂)
      → read_exact m.len r₂ ≡ ok (payload, rest)
      → read_frame lossy bs
        ≡ ok (frame_of h m (message_of lossy h.op_code (unmasked m.mask payload)), rest)
  unfolding read_frame read_message
  read_frame-parts bs r₁ r₂ rest payload h m e₁ e₂ e₃ = rw (e₁, e₂, e₃) refl

  -- A message below 2^64 bytes that is sent is read back, and the bytes behind it are left, where
  -- the lossy conversion leaves its text alone.
  pub read_frame-send_message :
      (m : Message) (rest : Bytes)
      → ((s : Bytes) → m ≡ Message.text s → lossy s ≡ s)
      → length (message_bytes m) < 2 ^ 64
      → read_frame lossy (send_message m ++ rest)
        ≡ ok (
          frame_of
              (record { fin = true; op_code = message_code m })
              (record { len = length (message_bytes m); mask = none })
              m,
          rest,
        )
  unfolding send_message
  read_frame-send_message m rest valid fits =
      let n = length (message_bytes m) in
      let h : Header = record { fin = true; op_code = message_code m } in
      let written : send_message m ++ rest
          ≡ send_header h ++ (short 65535 n ∷ extra 65535 n ++ (message_bytes m ++ rest)) =
        rw (send_meta-short n fits, append_assoc (extra 65535 n) (message_bytes m) rest) refl in
      rw
        (
          written,
          read_frame-parts _ _ _ rest (message_bytes m) h _ (read-send_header h _)
              (read_meta-extra 65535 (omega arith) n fits (message_bytes m ++ rest))
              (read_exact-append (message_bytes m) rest),
          message_of-lossy m valid,
        )
        refl

  -- A frame of bytes, below 2^64 of them, as RFC 6455 has a client write it, with its mask, is read
  -- with its header, its length, its mask and its payload, the text of which is converted lossily,
  -- and the bytes behind it are left.
  pub read_frame-client_frame :
      (h : Header) (mask : ℕ × ℕ × ℕ × ℕ) (payload rest : Bytes)
      → IsMask mask
      → All (λ b. b < 256) payload
      → length payload < 2 ^ 64
      → read_frame lossy (client_frame h mask payload ++ rest)
        ≡ ok (
          frame_of h
              (record { len = length payload; mask = some mask })
              (message_of lossy h.op_code payload),
          rest,
        )
  unfolding client_frame
  read_frame-client_frame h mask payload rest hm small fits =
      let masked = unmask_from mask 0 payload in
      let n = length payload in
      let written : client_frame h mask payload ++ rest
          ≡ (if h.fin then 128 + wire_code h.op_code else wire_code h.op_code)
              ∷ (short 65536 n + 128)
              ∷ extra 65536 n
            ++ (mask_bytes (some mask) ++ (masked ++ rest)) =
        rw (append_assoc (extra 65536 n) (mask_bytes (some mask) ++ masked) rest) refl in
      let behind : read_exact n (masked ++ rest) ≡ ok (masked, rest) =
        subst (λ k. read_exact k (masked ++ rest) ≡ ok (masked, rest))
          (length-unmask_from mask 0 payload) (read_exact-append masked rest) in
      rw
        (
          written,
          read_frame-parts _ _ _ rest masked h _ (read_header-wire_code h _)
              (read_meta-masked 65536 (omega arith) n fits mask (masked ++ rest) hm) behind,
          unmask_from-twice mask 0 payload hm small,
        )
        refl
