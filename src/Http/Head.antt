-- ===== src/Http/Head.antt =====
-- The head of a request, rwf/src/http/head.rs, with rwf/src/http/headers.rs and rwf/src/http/authorization.rs.
-- A stream is the list of its bytes; a read gives what it reads and the bytes behind.
pub mod Lines
pub mod RoundTrip
pub mod Total
mod Tests
use rwf.Prelude.{
  ℕ, zero, suc, Option, none, some, List, [], ◌∷◌, ◌++◌, Bool, true, false, ◌&&◌, ◌==◌, map, length,
  is_empty, if◌then◌else◌,
}
use rwf.Prelude.Text.{Text, codes, text_eq, split, trim}
use rwf.Prelude.Outcome.{Outcome, ok, err, panic, out_of_fuel, ◌>>=◌}
use rwf.Http.Path.{HttpPath, Query, insert, lookup, parse}

abbrev pub Bytes : Type 0
Bytes = List ℕ

pub data Error : Type 0 where
  eof nl_before_cr malformed_request : Error

pub data Method : Type 0 where
  get post put delete head_method patch : Method
  other : Text → Method

pub data Version : Type 0 where
  http1 http2 unknown : Version

-- The map of `Headers`, by increasing names
abbrev pub Headers : Type 0
Headers = Query

pub record Head : Type 0 where
  pub method : Method
  pub path : HttpPath
  pub version : Version
  pub headers : Headers

-- The loop of `Head::read_line`: the bytes remaining, whether `\r` and `\n` were read, the line so far
pub line_from : ℕ → (cr lf : Bool) → Bytes → Bytes → Outcome Error (Bytes × Bytes)
line_from zero cr lf buf bs = ok (buf, bs)
line_from (suc n) cr lf buf [] = err eof
line_from (suc n) cr lf buf (b ∷ bs) =
    let behind_cr = line_from n true lf buf bs in
    let behind_lf = line_from n cr true buf bs in
    let longer = line_from n cr lf (buf ++ b ∷ []) bs in
    if b == 13
    then (if lf then err nl_before_cr else behind_cr)
    else if b == 10
    then (if cr then ok (buf, bs) else behind_lf)
    else if cr && lf
    then ok (buf ++ b ∷ [], bs)
    else longer

-- `TryFrom<String> for Version`
pub version_of : Text → Version
unfolding text_eq
version_of s =
    if text_eq s (codes "HTTP/1.1")
    then http1
    else if text_eq s (codes "HTTP/2")
    then http2
    else unknown

-- `Display for Method` and `Display for Version`
pub print_method : Method → Text
print_method get = codes "GET"
print_method post = codes "POST"
print_method put = codes "PUT"
print_method delete = codes "DELETE"
print_method head_method = codes "HEAD"
print_method patch = codes "PATCH"
print_method (other s) = s

pub print_version : Version → Text
print_version http1 = codes "HTTP/1.1"
print_version http2 = codes "HTTP/2"
print_version unknown = codes "UNKNOWN"

-- `[T]::get`, with an error where there is nothing
abbrev pub part : ℕ → List Text → Outcome Error Text
part i [] = err malformed_request
part zero (t ∷ ts) = ok t
part (suc i) (t ∷ ts) = part i ts

-- `lossy` is `String::from_utf8_lossy`, `to_lowercase` and `to_uppercase` those of `str`, and `is_numeric` that of
-- `char`.
module _ (lossy : Bytes → Text) (to_lowercase to_uppercase : Text → Text)
    (is_numeric : ℕ → Bool) where
  -- `Head::read_line`
  pub read_line : ℕ → Bytes → Outcome Error (Text × Bytes)
  unfolding line_from
  read_line limit bs = do (line, rest) ← line_from limit false false [] bs; ok (lossy line, rest)

  -- `TryFrom<String> for Method`
  pub method_of : Text → Method
  unfolding text_eq
  method_of s =
      let name = to_uppercase s in
      if text_eq name (codes "GET")
      then get
      else if text_eq name (codes "POST")
      then post
      else if text_eq name (codes "PUT")
      then put
      else if text_eq name (codes "DELETE")
      then delete
      else if text_eq name (codes "HEAD")
      then head_method
      else if text_eq name (codes "PATCH")
      then patch
      else other s

  -- `Headers::insert` and `Headers::get`
  pub insert_header : (name value : Text) → Headers → Headers
  unfolding insert
  insert_header name value headers = insert (to_lowercase name) value headers

  unfoldable pub header : Text → Headers → Option Text
  unfolding lookup
  header name headers = lookup (to_lowercase name) headers

  -- The parts of a line of the headers
  pub add_header : List Text → Headers → Outcome Error Headers
  unfolding insert_header
  add_header parts headers = do
    name ← part 0 parts
    value ← part 1 parts
    ok (insert_header (to_lowercase name) value headers)

  -- The loop of `Head::read` over the headers
  pub read_headers : (fuel : ℕ) → (limit : ℕ) → Headers → Bytes → Outcome Error (Headers × Bytes)
  unfolding read_line add_header split trim
  read_headers zero limit headers bs = out_of_fuel
  read_headers (suc f) limit headers bs = do
    (line, rest) ← read_line limit bs
    if is_empty line then ok (headers, rest) else (do
      more ← add_header (map trim (split b':' line)) headers
      read_headers f limit more rest)

  abbrev pub path_of : Text → Outcome Error HttpPath
  path_of s = elim (parse is_numeric s) [
    | ok p ↦ ok p
    | err e ↦ err malformed_request
    | panic ↦ panic
    | out_of_fuel ↦ out_of_fuel
  ]

  -- The first line of a request
  pub request_line : List Text → Outcome Error (Method × HttpPath × Version)
  unfolding method_of version_of parse
  request_line parts = do
    m ← part 0 parts
    p ← part 1 parts
    path ← path_of p
    v ← part 2 parts
    ok (method_of m, path, version_of v)

  -- `Head::read`; `limit` is the configuration's `header_max_size`.
  pub read_head : ℕ → Bytes → Outcome Error (Head × Bytes)
  unfolding read_line request_line read_headers split
  read_head limit bs = do
    (line, rest) ← read_line limit bs
    (method, path, version) ← request_line (split b' ' line)
    (headers, body) ← read_headers (suc (length rest)) limit [] rest
    ok (record { method = method; path = path; version = version; headers = headers }, body)

pub data Authorization : Type 0 where
  basic : (user password : Text) → Authorization
  token bearer : Text → Authorization

abbrev user_and_password : List Text → Option Authorization
user_and_password (user ∷ password ∷ more) = some (basic user password)
user_and_password _ = none

-- `decode` is that of the standard base64, and then the lossy conversion to UTF-8.
module _ (decode : Text → Option Text) where
  -- `Authorization::basic`
  parse_basic : Text → Option Authorization
  unfolding split
  parse_basic value = elim (decode value) [
    | none ↦ none
    | some t ↦ user_and_password (split b':' t)
  ]

  abbrev of_words : List Text → Option Authorization
  of_words (ident ∷ auth ∷ more) =
      if text_eq ident (codes "Basic")
      then parse_basic auth
      else if text_eq ident (codes "Bearer")
      then some (bearer auth)
      else if text_eq ident (codes "Token")
      then some (token auth)
      else none
  of_words _ = none

  -- `Authorization::parse`
  pub parse_authorization : Text → Option Authorization
  unfolding split text_eq parse_basic
  parse_authorization value = of_words (split b' ' value)
