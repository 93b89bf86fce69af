-- ===== src/Http/WebSocket/Pong.antt =====
-- What a peer reads of a pong.
use rwf.Prelude.{
  ℕ, zero, suc, ◌^◌, ◌≤◌, ◌<◌, some, none, [], ◌∷◌, ◌++◌, true, length, length-append, take, drop,
  ◌≡◌, refl, arith,
}
use rwf.Prelude.Outcome.{ok}
use rwf.Http.WebSocket.{
  Bytes, Header, Message, DataFrame, pong, read_exact, read_frame, send_header, send_message,
  send_meta, send_frame, message_len, message_code, new_pong, message_bytes,
}
use rwf.Http.WebSocket.Fields.{short, extra, read-send_header, read_meta-extra}
use rwf.Http.WebSocket.RoundTrip.{send_meta-short, read_frame-parts, frame_of}

read_exact-take : (n : ℕ) (bs : Bytes) → n ≤ length bs → read_exact n bs ≡ ok (take n bs, drop n bs)
unfolding read_exact
read_exact-take zero bs h = refl
read_exact-take (suc n) [] h = absurd (omega arith)
read_exact-take (suc n) (b ∷ bs) h = rw (read_exact-take n bs (omega arith)) refl

length-last : (a b c : Bytes) → length c ≤ length (a ++ (b ++ c))
length-last a b c = omega (arith, length-append a (b ++ c), length-append b c)

length-send_message : (m : Message) → length (message_bytes m) ≤ length (send_message m)
length-send_message m =
    unfold send_message in
    length-last (send_header (record { fin = true; op_code = message_code m }))
      (send_meta (record { len = length (message_bytes m); mask = none })) (message_bytes m)

send_frame-some :
    (f : DataFrame) (m : Message)
    → f.message ≡ some m
    → send_frame f ≡ send_header f.header ++ (send_meta f.meta ++ send_message m)
send_frame-some f m e = unfold send_frame in rw e refl

-- The pong to a ping with a message below 2^64 bytes is read as a pong of the length of the
-- message, whose payload is the beginning of the frame that sends the message, header and all, and
-- the rest of that frame is left.
pub read_frame-new_pong :
    (lossy : Bytes → Bytes) (f : DataFrame) (m : Message)
    → f.message ≡ some m
    → length (message_bytes m) < 2 ^ 64
    → read_frame lossy (send_frame (new_pong f))
      ≡ ok (
        frame_of
            (record { fin = true; op_code = pong })
            (record { len = length (message_bytes m); mask = none })
            (Message.binary (take (length (message_bytes m)) (send_message m))),
        drop (length (message_bytes m)) (send_message m),
      )
unfolding new_pong
read_frame-new_pong lossy f m e fits =
    let n = length (message_bytes m) in
    let h : Header = record { fin = true; op_code = pong } in
    let len : message_len f.message ≡ n = rw e refl in
    rw (send_frame-some (new_pong f) m e, len, send_meta-short n fits)
      (read_frame-parts lossy (send_header h ++ (short 65535 n ∷ extra 65535 n ++ send_message m))
        (short 65535 n ∷ extra 65535 n ++ send_message m) (send_message m) (drop n (send_message m))
        (take n (send_message m)) h (record { len = n; mask = none })
        (read-send_header h (short 65535 n ∷ extra 65535 n ++ send_message m))
        (read_meta-extra 65535 (omega arith) n fits (send_message m))
        (read_exact-take n (send_message m) (length-send_message m)))
