-- ===== src/Middleware/Csrf/Tests.antt =====
-- Requests with and without tokens, under a cipher that leaves the text as it is.
use rwf.Prelude.{◌*◌, some, [], ◌∷◌, ◌++◌, map, false, true, ◌⊎◌, take, drop, ◌≡◌, refl}
use rwf.Prelude.Text.{Text, codes, is_digit, to_ascii_lowercase, to_ascii_uppercase}
use rwf.Prelude.Outcome.{ok}
use rwf.Crypto.{Cipher, Encoding}
use rwf.Http.Head.{post, delete}
use rwf.Middleware.{forward, stop}
use rwf.Middleware.Csrf.{
  Request, csrf_error, Host, is_checked, header_token, form_token, handle_request,
}
use rwf.Middleware.Csrf.Issued.{IsIssued, forwarded-IsIssued}

abbrev host : Host
host = record {
  as_bytes = λ t. t;
  from_utf8 = λ bs. some bs;
  from_utf8_lossy = λ bs. bs;
  to_lowercase = map to_ascii_lowercase;
  to_uppercase = map to_ascii_uppercase;
  is_numeric = is_digit;
  timestamp = λ s. true;
  session_duration = 3600 * 1000000000;
  now = 1001 * 1000000000;
}

abbrev clear : Cipher
clear = record { seal = λ n plain. some plain; unseal = λ n sealed. some sealed }

abbrev plain_text : Encoding
plain_text = record {
  to_base64 = λ sealed n. some (n ++ sealed);
  from_base64 = λ t. some (drop 12 t, take 12 t);
}

abbrev token : Text
token = codes "............1000_guest"

abbrev with_header : Request
with_header = record {
  skip_csrf = false;
  method = post;
  headers = (codes "x-csrf-token", token) ∷ [];
  body = [];
  session_id = codes "guest";
}

abbrev with_form : Request
with_form = record with_header {
  headers = (codes "content-type", codes "application/x-www-form-urlencoded") ∷ [];
  body = codes "rwf_csrf_token=............1000_guest";
}

stopped_sample :
    handle_request host clear plain_text (record with_header { session_id = codes "other" })
    ≡ ok (stop (record with_header { session_id = codes "other" }) csrf_error)
unfolding handle_request to_ascii_lowercase to_ascii_uppercase is_digit
stopped_sample = refl

-- A `DELETE` is not checked.
delete_sample :
    handle_request host clear plain_text (record with_header { method = delete; headers = [] })
    ≡ ok (forward (record with_header { method = delete; headers = [] }))
unfolding handle_request to_ascii_lowercase to_ascii_uppercase is_digit
delete_sample = refl

forwarded : handle_request host clear plain_text with_form ≡ ok (forward with_form)
unfolding handle_request to_ascii_lowercase to_ascii_uppercase is_digit
forwarded = refl

forwarded-IsIssued_example :
    (t : Text) × ((header_token host clear plain_text with_form ≡ some t)
      ⊎ (form_token host clear plain_text with_form ≡ ok (some t)))
    × IsIssued host clear plain_text t (codes "guest")
forwarded-IsIssued_example =
    forwarded-IsIssued host clear plain_text with_form with_form refl (unfold is_checked in refl)
      forwarded
