-- ===== src/Middleware/SecureId/Tests.antt =====
-- Requests with identifiers, under a cipher that leaves the bytes as they are.
use rwf.Prelude.{some, [], true, ◌≡◌, refl, take}
use rwf.Prelude.Text.{codes, is_digit}
use rwf.Prelude.Outcome.{ok, panic}
use rwf.Crypto.{Cipher}
use rwf.Http.Path.{HttpPath, from_parts}
use rwf.Middleware.{forward, stop}
use rwf.Middleware.SecureId.{not_found, handle_request}

abbrev clear : Cipher
clear = record { seal = λ n plain. some plain; unseal = λ n sealed. some (take 8 sealed) }

abbrev users : HttpPath
users = from_parts (codes "/users/0000000000-0000050000-0102030405-0607080bff") []

decrypted_sample :
    handle_request is_digit clear true
      (some (codes "0000000000-0000050000-0102030405-0607080bff"))
      users
    ≡ ok (forward (from_parts (codes "/users/5") []))
unfolding handle_request is_digit
decrypted_sample = refl

numeric_sample :
    handle_request is_digit clear true (some (codes "5")) (from_parts (codes "/users/5") [])
    ≡ ok (stop (from_parts (codes "/users/5") []) not_found)
unfolding handle_request is_digit
numeric_sample = refl

-- An identifier in which a slice of two bytes cuts a character
panic_sample :
    handle_request is_digit clear true (some (codes "1é2")) (from_parts (codes "/users/1é2") [])
    ≡ panic
unfolding handle_request is_digit
panic_sample = refl
