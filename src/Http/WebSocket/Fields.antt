-- ===== src/Http/WebSocket/Fields.antt =====
-- The fields of a frame, written and read.
use Prim.Native.Nat.{bit_and, bit_or, bit_xor}
use rwf.Prelude.{
  ℕ, zero, suc, ◌+◌, ◌*◌, ◌/◌, ◌%◌, ◌^◌, ◌≤◌, ◌<◌, none, some, [], ◌∷◌, ◌++◌, Bool, true, false,
  ◌==◌, ==→eq, ltb, leb, length, if◌then◌else◌, ◌≡◌, subst, refl, arith, Bool-cases, inl, inr,
}
use rwf.Prelude.Ranges.{passes, passes-below}
use rwf.Prelude.Outcome.{ok}
use rwf.Http.WebSocket.{
  Bytes, OpCode, continuation, text, binary, ping, pong, Header, read_u8, read_exact, from_be,
  to_be, read_header, send_header, read_len, read_mask, read_meta, mask_bytes, mask_of,
}

pub read_exact-append : (b rest : Bytes) → read_exact (length b) (b ++ rest) ≡ ok (b, rest)
unfolding read_exact
read_exact-append [] rest = refl
read_exact-append (x ∷ b) rest = rw (read_exact-append b rest) refl

-- What is written of a header is read back.
pub read-send_header :
    (h : Header) (rest : Bytes) → read_header (send_header h ++ rest) ≡ ok (h, rest)
unfolding read_header send_header
read-send_header h rest = cases h.fin h.op_code
  where
    cases :
        (fin : Bool) (op : OpCode)
        → read_header (send_header (record { fin = fin; op_code = op }) ++ rest)
          ≡ ok (record { fin = fin; op_code = op }, rest)
    cases true continuation = refl
    cases true text = refl
    cases true binary = refl
    cases true ping = refl
    cases true pong = refl
    cases false continuation = refl
    cases false text = refl
    cases false binary = refl
    cases false ping = refl
    cases false pong = refl

xor_table : passes (λ k. passes (λ x. bit_xor (bit_xor x k) k == x) 0 256) 0 256 ≡ true
unfolding passes
xor_table = refl

pub bit_xor_twice : (x k : ℕ) → x < 256 → k < 256 → bit_xor (bit_xor x k) k ≡ x
bit_xor_twice x k hx hk = ==→eq (bit_xor (bit_xor x k) k) x (
    passes-below (λ y. bit_xor (bit_xor y k) k == y) 256 x
      (passes-below (λ j. passes (λ y. bit_xor (bit_xor y j) j == y) 0 256) 256 k xor_table hk) hx)

from-to_be_2 : (n : ℕ) → n < 2 ^ 16 → from_be 0 (to_be 2 n) ≡ n
unfolding from_be to_be
from-to_be_2 n h = omega arith

pub from-to_be_8 : (n : ℕ) → n < 2 ^ 64 → from_be 0 (to_be 8 n) ≡ n
unfolding from_be to_be
from-to_be_8 n h = omega arith

-- The short length of a byte, and the bytes behind it; two bytes serve below the limit.
unfoldable pub short : ℕ → ℕ → ℕ
short limit n = if leb n 125 then n else if ltb n limit then 126 else 127

unfoldable pub extra : ℕ → ℕ → Bytes
extra limit n = if leb n 125 then [] else if ltb n limit then to_be 2 n else to_be 8 n

length-to_be : (k n : ℕ) → length (to_be k n) ≡ k
unfolding to_be
length-to_be zero n = refl
length-to_be (suc k) n = rw (length-to_be k n) refl

read_exact-to_be :
    (k n : ℕ) (rest : Bytes) → read_exact k (to_be k n ++ rest) ≡ ok (to_be k n, rest)
read_exact-to_be k n rest =
    subst (λ j. read_exact j (to_be k n ++ rest) ≡ ok (to_be k n, rest)) (length-to_be k n)
      (read_exact-append (to_be k n) rest)

-- A test that holds of the numbers below 128
low : (test : ℕ → Bool) → passes test 0 128 ≡ true → (n : ℕ) → n < 128 → test n ≡ true
low test table n h = passes-below test 128 n table h

module _ (n : ℕ) (h : n < 128) where
  pub bit_or_zero : bit_or n 0 ≡ n
  bit_or_zero = ==→eq (bit_or n 0) n (low (λ k. bit_or k 0 == k) (unfold passes in refl) n h)

  low_bits : bit_and n 0b0111_1111 ≡ n
  low_bits = ==→eq (bit_and n 127) n (low (λ k. bit_and k 127 == k) (unfold passes in refl) n h)

  no_high_bit : (bit_and n 0b1000_0000 == 128) ≡ false
  no_high_bit =
      let zero_bit : bit_and n 128 ≡ 0 =
        ==→eq (bit_and n 128) 0 (low (λ k. bit_and k 128 == 0) (unfold passes in refl) n h) in
      rw zero_bit refl

  low_bits_masked : bit_and (n + 128) 0b0111_1111 ≡ n
  low_bits_masked =
      ==→eq (bit_and (n + 128) 127) n
        (low (λ k. bit_and (k + 128) 127 == k) (unfold passes in refl) n h)

  high_bit : (bit_and (n + 128) 0b1000_0000 == 128) ≡ true
  high_bit = low (λ k. bit_and (k + 128) 128 == 128) (unfold passes in refl) n h

unfoldable pub IsMask : ℕ × ℕ × ℕ × ℕ → Type 0
IsMask (a, b, c, d) = a < 256 × b < 256 × c < 256 × d < 256

mask_of-from_be :
    (mask : ℕ × ℕ × ℕ × ℕ) → IsMask mask → mask_of (from_be 0 (mask_bytes (some mask))) ≡ mask
unfolding from_be IsMask
mask_of-from_be (a, b, c, d) (ha, hb, hc, hd) =
    let e₁ : ((((0 + a) * 256 + b) * 256 + c) * 256 + d) / 2 ^ 24 % 256 ≡ a = omega arith in
    let e₂ : ((((0 + a) * 256 + b) * 256 + c) * 256 + d) / 2 ^ 16 % 256 ≡ b = omega arith in
    let e₃ : ((((0 + a) * 256 + b) * 256 + c) * 256 + d) / 2 ^ 8 % 256 ≡ c = omega arith in
    let e₄ : ((((0 + a) * 256 + b) * 256 + c) * 256 + d) % 256 ≡ d = omega arith in
    rw (e₁, e₂, e₃, e₄) refl

module _ (limit : ℕ) (within : limit ≤ 2 ^ 16) (n : ℕ) (fits : n < 2 ^ 64) where
  read_len-extra : (rest : Bytes) → read_len (short limit n) (extra limit n ++ rest) ≡ ok (n, rest)
  unfolding read_len short extra
  read_len-extra rest = elim (Bool-cases (leb n 125)) [
    | inl small ↦ rw (small, small) refl
    | inr large ↦ elim (Bool-cases (ltb n limit)) [
      | inl medium ↦
          rw (large, medium, read_exact-to_be 2 n rest, from-to_be_2 n (ground arith)) refl
      | inr wide ↦ rw (large, wide, read_exact-to_be 8 n rest, from-to_be_8 n fits) refl
    ]
  ]

  short-small : short limit n < 128
  unfolding short
  short-small = ground arith

  pub read_meta-extra :
      (rest : Bytes)
      → read_meta (short limit n ∷ extra limit n ++ rest)
        ≡ ok (record { len = n; mask = none }, rest)
  unfolding read_meta read_u8 read_mask
  read_meta-extra rest =
      rw
        (
          low_bits (short limit n) short-small,
          read_len-extra rest,
          no_high_bit (short limit n) short-small,
        )
        refl

  pub read_meta-masked :
      (mask : ℕ × ℕ × ℕ × ℕ) (rest : Bytes)
      → IsMask mask
      → read_meta ((short limit n + 128) ∷ extra limit n ++ (mask_bytes (some mask) ++ rest))
        ≡ ok (record { len = n; mask = some mask }, rest)
  unfolding read_meta read_u8 read_mask read_exact
  read_meta-masked mask rest h =
      rw
        (
          low_bits_masked (short limit n) short-small,
          read_len-extra (mask_bytes (some mask) ++ rest),
          high_bit (short limit n) short-small,
          mask_of-from_be mask h,
        )
        refl
