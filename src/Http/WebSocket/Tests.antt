-- ===== src/Http/WebSocket/Tests.antt =====
-- Frames at fixed bytes.
use rwf.Prelude.{ℕ, ◌≡◌, refl, arith, some, none, true, [], ◌∷◌, ◌++◌, take, drop}
use rwf.Prelude.Outcome.{ok}
use rwf.Http.WebSocket.{
  Bytes, OpCode, Message, DataFrame, pong, ping, read_frame, send_message, send_frame, new_pong,
}
use rwf.Http.WebSocket.Fields.{IsMask}
use rwf.Http.WebSocket.RoundTrip.{
  client_frame, frame_of, read_frame-send_message, read_frame-client_frame,
}
use rwf.Http.WebSocket.Pong.{read_frame-new_pong}

-- The bytes of "Hi"
abbrev hi : Bytes
hi = 72 ∷ 105 ∷ []

abbrev same : Bytes → Bytes
same bs = bs

read_frame-send_message_example :
    read_frame same (send_message (Message.text hi) ++ [])
    ≡ ok (
      frame_of
          (record { fin = true; op_code = OpCode.text })
          (record { len = 2; mask = none })
          (Message.text hi),
      [],
    )
read_frame-send_message_example =
    read_frame-send_message same (Message.text hi) [] (λ s e. refl) (omega arith)

abbrev mask : ℕ × ℕ × ℕ × ℕ
mask = (1, 2, 3, 255)

mask-IsMask : IsMask mask
unfolding IsMask
mask-IsMask = (omega arith, omega arith, omega arith, omega arith)

read_frame-client_frame_example :
    read_frame same (client_frame (record { fin = true; op_code = OpCode.text }) mask hi ++ 7 ∷ [])
    ≡ ok (
      frame_of
          (record { fin = true; op_code = OpCode.text })
          (record { len = 2; mask = some mask })
          (Message.text hi),
      7 ∷ [],
    )
read_frame-client_frame_example =
    read_frame-client_frame same (record { fin = true; op_code = OpCode.text }) mask hi (7 ∷ [])
      mask-IsMask (omega arith, (omega arith, tt)) (omega arith)

abbrev ping_frame : DataFrame
ping_frame =
    frame_of (record { fin = true; op_code = ping }) (record { len = 2; mask = none })
      (Message.binary hi)

-- The pong to a ping of "Hi" carries the bytes 130 and 2, the header of a message.
read_frame-new_pong_example :
    read_frame same (send_frame (new_pong ping_frame))
    ≡ ok (
      frame_of
          (record { fin = true; op_code = pong })
          (record { len = 2; mask = none })
          (Message.binary (take 2 (send_message (Message.binary hi)))),
      drop 2 (send_message (Message.binary hi)),
    )
read_frame-new_pong_example =
    read_frame-new_pong same ping_frame (Message.binary hi) refl (omega arith)

pong_sample : take 2 (send_message (Message.binary hi)) ≡ 130 ∷ 2 ∷ []
unfolding send_message
pong_sample = refl
