-- ===== src/Middleware/SecureId.antt =====
-- The middleware for encrypted identifiers, rwf/src/controller/middleware/secure_id.rs.
mod Tests
use rwf.Prelude.{ℕ, Option, none, some, Bool, ◌&&◌, all, if◌then◌else◌}
use rwf.Prelude.Int.{ℤ}
use rwf.Prelude.Text.{Text, replace, print_i64}
use rwf.Prelude.Outcome.{Outcome, ok, err, panic, out_of_fuel}
use rwf.Crypto.{Error, Cipher, decrypt_number}
use rwf.Http.Path.{HttpPath, from_parts}
use rwf.Middleware.{Decision, forward, stop}

-- `Response::not_found`
pub data Response : Type 0 where
  not_found : Response

-- Every occurrence of the identifier is replaced.
abbrev with_id : Text → ℤ → HttpPath → HttpPath
with_id id n path = from_parts (replace id (print_i64 n) path.base) path.query

abbrev decided : Text → HttpPath → Outcome Error ℤ → Outcome Error (Decision HttpPath Response)
decided id path (ok n) = ok (forward (with_id id n path))
decided id path (err e) = ok (stop path not_found)
decided id path panic = panic
decided id path out_of_fuel = out_of_fuel

-- `SecureId::handle_request`, of a request by its parameter `id` and its path
module _ (is_numeric : ℕ → Bool) (c : Cipher) (block_unencrypted : Bool) where
  unfoldable pub handle_request :
      Option Text → HttpPath → Outcome Error (Decision HttpPath Response)
  unfolding decrypt_number replace print_i64
  handle_request none path = ok (forward path)
  handle_request (some id) path =
      if block_unencrypted && all is_numeric id
      then ok (stop path not_found)
      else decided id path (decrypt_number c id)
