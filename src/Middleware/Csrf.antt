-- ===== src/Middleware/Csrf.antt =====
-- The middleware against forged requests, rwf/src/controller/middleware/csrf.rs.
pub mod Issued
mod Tests
use rwf.Prelude.{ℕ, Option, none, some, Bool, true, false, not, if◌then◌else◌}
use rwf.Prelude.Int.{ℤ}
use rwf.Prelude.Text.{Text, codes}
use rwf.Prelude.Outcome.{Outcome, ok, err, panic, out_of_fuel, ◌>>=◌}
use rwf.Crypto.{Bytes, Error, Cipher, Encoding, csrf_token_validate}
use rwf.Http.Head.{Method, put, post, patch, Headers, header}
use rwf.Http.Form
use rwf.Http.Form.Submitted.{FormData, from_request, get}
use rwf.Middleware.{Decision, forward, stop}

-- What the middleware reads of a request
pub record Request : Type 0 where
  pub skip_csrf : Bool
  pub method : Method
  pub headers : Headers
  pub body : Bytes
  pub session_id : Text

-- `Response::csrf_error`
pub data Response : Type 0 where
  csrf_error : Response

-- `PUT`, `POST` and `PATCH`
pub is_checked : Method → Bool
is_checked put = true
is_checked post = true
is_checked patch = true
is_checked _ = false

-- The functions of Rust's texts, and the clock
pub record Host : Type 0 where
  pub as_bytes : Text → Bytes
  pub from_utf8 : Bytes → Option Text
  pub from_utf8_lossy : Bytes → Text
  pub to_lowercase : Text → Text
  pub to_uppercase : Text → Text
  pub is_numeric : ℕ → Bool
  pub timestamp : ℤ → Bool
  pub session_duration : ℕ
  pub now : ℕ

module _ (h : Host) (c : Cipher) (e : Encoding) where
  open h use {
    as_bytes, from_utf8, from_utf8_lossy, to_lowercase, to_uppercase, is_numeric, timestamp,
    session_duration, now,
  }

  pub validate : Text → Text → Outcome Error Bool
  unfolding csrf_token_validate
  validate token session_id =
      csrf_token_validate c e as_bytes from_utf8_lossy timestamp session_duration now token
        session_id

  abbrev token_of : Outcome Form.Error FormData → Outcome Error (Option Text)
  token_of (ok form) = ok (
      get as_bytes from_utf8 from_utf8_lossy to_lowercase is_numeric (λ t. some t)
        (codes "rwf_csrf_token") form)
  token_of (err f) = ok none
  token_of panic = panic
  token_of out_of_fuel = out_of_fuel

  pub header_token : Request → Option Text
  unfolding header
  header_token r =
      header from_utf8_lossy to_lowercase to_uppercase is_numeric (codes "X-CSRF-Token") r.headers

  -- The token in the form; a body that is no form has none.
  pub form_token : Request → Outcome Error (Option Text)
  unfolding header from_request get
  form_token r = token_of (
      from_request as_bytes from_utf8 from_utf8_lossy to_lowercase is_numeric
        (header from_utf8_lossy to_lowercase to_uppercase is_numeric (codes "content-type")
          r.headers)
        r.body)

  -- A token that is there and valid lets the request through.
  abbrev pub checked :
      Option Text
      → Request
      → Outcome Error (Decision Request Response)
      → Outcome Error (Decision Request Response)
  checked none r otherwise = otherwise
  checked (some token) r otherwise = do
    valid ← validate token r.session_id
    if valid then ok (forward r) else otherwise

  -- `Csrf::handle_request`
  unfoldable pub handle_request : Request → Outcome Error (Decision Request Response)
  unfolding is_checked header_token form_token validate
  handle_request r =
      if r.skip_csrf
      then ok (forward r)
      else if not (is_checked r.method)
      then ok (forward r)
      else checked (header_token r) r
          (do token ← form_token r; checked token r (ok (stop r csrf_error)))
