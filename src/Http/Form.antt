-- ===== src/Http/Form.antt =====
-- Data submitted with a form, rwf/src/http/form_data.rs. A body is the list of its bytes.
pub mod Lines
pub mod Total
pub mod Fields
pub mod Submitted
mod Tests
use Prim.Native.Nat.{Ordering}
use rwf.Prelude.{
  ℕ, zero, suc, Option, none, some, List, [], ◌∷◌, ◌++◌, Bool, map, length, is_empty, ◌==◌,
  if◌then◌else◌,
}
use rwf.Prelude.Text.{
  Text, codes, text_eq, text_cmp, split, trim, starts_with, replace_char, to_ascii_lowercase,
}
use rwf.Prelude.Outcome.{Outcome, ok, err, out_of_fuel, ◌>>=◌}
use rwf.Http.Url.{urldecode}

abbrev pub Bytes : Type 0
Bytes = List ℕ

pub data Error : Type 0 where
  malformed_request missing_parameter utf8_error : Error

-- `ContentDisposition`
pub record Disposition : Type 0 where
  pub name : Text
  pub filename : Option Text

-- `MultipartEntry`
pub record Entry : Type 0 where
  pub content : Bytes
  pub disposition : Disposition
  pub content_type : Option Text

-- The map of `Multipart`, by increasing names
abbrev pub Multipart : Type 0
Multipart = List (Text × Entry)

-- `BTreeMap::insert` and `BTreeMap::get`
pub put : Text → Entry → Multipart → Multipart
unfolding text_cmp
put name e [] = (name, e) ∷ []
put name e ((n, f) ∷ m) = elim (text_cmp name n) [
  | Ordering.lt ↦ (name, e) ∷ (n, f) ∷ m
  | Ordering.eq ↦ (n, e) ∷ m
  | Ordering.gt ↦ (n, f) ∷ put name e m
]

pub entry : Text → Multipart → Option Entry
unfolding text_eq
entry name [] = none
entry name ((n, e) ∷ m) = if text_eq name n then some e else entry name m

abbrev pub keep : ℕ → Bytes × Bytes → Bytes × Bytes
keep c (line, rest) = (c ∷ line, rest)

abbrev behind : Bytes → Bytes
behind [] = []
behind (c ∷ bs) = bs

-- `read_line!`: the bytes up to a `\r`, and those behind it and one more
pub read_line : Bytes → Bytes × Bytes
read_line [] = ([], [])
read_line (c ∷ bs) = let rest = read_line bs in if c == 13 then ([], behind bs) else keep c rest

-- The state of the loop of `Multipart::read`
pub record Reading : Type 0 where
  pub buf : Bytes
  pub disposition : Option Disposition
  pub content_type : Option Text
  pub entries : Multipart

abbrev pub start : Reading
start = record { buf = []; disposition = none; content_type = none; entries = [] }

-- The entry that was read, if there is one, is put among the entries.
abbrev flushed_as : Option Disposition → Reading → Reading
flushed_as none r = r
flushed_as (some d) r = record {
  buf = [];
  disposition = none;
  content_type = none;
  entries =
      put d.name (record { content = r.buf; disposition = d; content_type = r.content_type })
        r.entries;
}

abbrev pub flushed : Reading → Reading
flushed r = flushed_as r.disposition r

pub data Line : Type 0 where
  blank boundary_line last_line content_line : Line

pub line_of : (first last line : Bytes) → Line
unfolding text_eq
line_of first last line =
    if is_empty line
    then blank
    else if text_eq line first
    then boundary_line
    else if text_eq line last
    then last_line
    else content_line

abbrev pub or_error {ℓ} : {A : Type ℓ} → Error → Option A → Outcome Error A
or_error e none = err e
or_error e (some a) = ok a

-- `replace("\"", "")`
abbrev unquoted : Text → Text
unquoted s = replace_char b'"' [] s

abbrev named : Option Text → Option Text → Disposition → Option Disposition
named none filename d = none
named (some name) filename d = some (record { name = name; filename = filename })

-- The value behind a parameter's name
abbrev param : List Text → Option Text × Option Text → Option Text × Option Text
param (name ∷ value ∷ more) (content_name, filename) =
    if text_eq name (codes "name")
    then (some (unquoted value), filename)
    else if text_eq name (codes "filename")
    then (content_name, some (unquoted value))
    else (content_name, filename)
param _ names = names

pub params : List Text → Option Text × Option Text → Option Text × Option Text
unfolding split text_eq replace_char
params [] names = names
params (p ∷ ps) names = params ps (param (split b'=' p) names)

abbrev pub of_names : Option Text × Option Text → Outcome Error Disposition
of_names (none, filename) = err malformed_request
of_names (some name, filename) = ok (record { name = name; filename = filename })

abbrev rest_of : List Text → List Text
rest_of [] = []
rest_of (p ∷ ps) = ps

-- `as_bytes`, `from_utf8`, `from_utf8_lossy`, `to_lowercase` and `is_numeric` are those of Rust's texts.
module _ (as_bytes : Text → Bytes) (from_utf8 : Bytes → Option Text)
    (from_utf8_lossy : Bytes → Text) (to_lowercase : Text → Text) (is_numeric : ℕ → Bool) where
  -- The parameters of a header
  abbrev pub names_of : Text → Option Text × Option Text
  names_of value =
      params (rest_of (map (λ p. urldecode is_numeric (trim p)) (split b';' value))) (none, none)

  abbrev pub header_parts : List Text → Outcome Error Disposition
  header_parts (name ∷ value ∷ more) =
      if text_eq (to_lowercase name) (codes "content-disposition")
      then of_names (names_of value)
      else err malformed_request
  header_parts _ = err malformed_request

  -- `ContentDisposition::parse`
  pub parse_disposition : Text → Outcome Error Disposition
  unfolding split trim text_eq params urldecode
  parse_disposition header = header_parts (map trim (split b':' header))

  abbrev typed : Reading → Disposition → Option Text → Reading
  typed r d t = record r { disposition = some d; content_type = t }

  -- The lines behind the header: of a file the content type, if there is one, and in any case an empty line
  abbrev pub file_lines : Reading → Disposition → Bytes × Bytes → Outcome Error (Reading × Bytes)
  file_lines r d (line, rest) =
      if starts_with (map to_ascii_lowercase line) (codes "content-type")
      then (do
        t ← or_error utf8_error (from_utf8 line)
        ok (typed r d (some t), (read_line rest).1))
      else ok (typed r d r.content_type, rest)

  abbrev pub part_lines :
      Reading → Bytes → Disposition → Option Text → Outcome Error (Reading × Bytes)
  part_lines r rest d none = ok (typed r d r.content_type, (read_line rest).1)
  part_lines r rest d (some filename) = file_lines r d (read_line rest)

  -- A line that starts a part
  pub start_part : Reading → Bytes → Outcome Error (Reading × Bytes)
  unfolding parse_disposition read_line starts_with to_ascii_lowercase
  start_part r bs = do
    header ← or_error utf8_error (from_utf8 (read_line bs).0)
    d ← parse_disposition header
    part_lines r (read_line bs).1 d d.filename

  -- What a line makes of the state, and how the loop goes on with the rest
  abbrev pub after_line :
      (Reading → Bytes → Outcome Error Multipart)
      → Reading
      → Bytes × Bytes
      → Line
      → Outcome Error Multipart
  after_line go_on r (line, rest) blank = ok r.entries
  after_line go_on r (line, rest) boundary_line =
      start_part (flushed r) rest >>= (λ (r', rest'). go_on r' rest')
  after_line go_on r (line, rest) last_line = ok (flushed r).entries
  after_line go_on r (line, rest) content_line = go_on (record r { buf = r.buf ++ line }) rest

  -- The loop of `Multipart::read`
  pub read_parts : ℕ → (first last : Bytes) → Reading → Bytes → Outcome Error Multipart
  unfolding start_part read_line line_of put
  read_parts zero first last r bs = out_of_fuel
  read_parts (suc f) first last r [] = ok r.entries
  read_parts (suc f) first last r (b ∷ bs) =
      after_line (read_parts f first last) r (read_line (b ∷ bs))
        (line_of first last (read_line (b ∷ bs)).0)

  -- `Multipart::read`
  pub read : Bytes → (boundary : Text) → Outcome Error Multipart
  unfolding read_parts
  read body boundary =
      read_parts (suc (length body)) (as_bytes (codes "--" ++ boundary))
        (as_bytes (codes "--" ++ (boundary ++ codes "--"))) start body
