-- ===== src/Http/Form/Submitted.antt =====
-- `FormData` of rwf/src/http/form_data.rs: what a request submits with a form.
use rwf.Prelude.{ℕ, Option, none, some, List, [], ◌∷◌, Bool, ◌||◌, if◌then◌else◌}
use rwf.Prelude.Text.{Text, codes, split, trim, starts_with}
use rwf.Prelude.Outcome.{Outcome, ok, err, ◌>>=◌}
use rwf.Http.Path
use rwf.Http.Path.{Query, parse_query, insert}
use rwf.Http.Form.{
  Bytes, Error, malformed_request, missing_parameter, Entry, Multipart, entry, or_error, read,
}

pub data FormData : Type 0 where
  url_encoded : Query → FormData
  multipart : Multipart → FormData

-- `str::contains`
contains : Text → Text → Bool
unfolding starts_with
contains pat [] = starts_with [] pat
contains pat (c ∷ s) = starts_with (c ∷ s) pat || contains pat s

abbrev last : List Text → Text
last [] = []
last (t ∷ []) = t
last (t ∷ u ∷ ts) = last (u ∷ ts)

-- `MultipartEntry::content_type`
content_type : Entry → Option Text
unfolding split trim
content_type e = elim (e.content_type) [ none ↦ none | some t ↦ some (trim (last (split b':' t))) ]

pub record File : Type 0 where
  pub body : Bytes
  pub name : Text
  pub content_type : Option Text

abbrev or_empty : Option Text → Text
or_empty none = []
or_empty (some t) = t

-- `File::content_type`
abbrev type_of : File → Text
type_of f = elim (f.content_type) [ none ↦ codes "application/octet-stream" | some t ↦ t ]

unfoldable file : Text → FormData → Option File
unfolding entry content_type
file name (url_encoded q) = none
file name (multipart m) = elim (entry name m) [
  | none ↦ none
  | some e ↦ some (record {
    body = e.content;
    name = or_empty e.disposition.filename;
    content_type = content_type e;
  })
]

module _ (as_bytes : Text → Bytes) (from_utf8 : Bytes → Option Text)
    (from_utf8_lossy : Bytes → Text) (to_lowercase : Text → Text) (is_numeric : ℕ → Bool) where
  abbrev read_multipart : Bytes → Text → Outcome Error FormData
  read_multipart body boundary = do
    m ← read as_bytes from_utf8 from_utf8_lossy to_lowercase is_numeric body boundary
    ok (multipart m)

  abbrev of_type : Text → Bytes → Outcome Error FormData
  of_type t body =
      if contains (codes "application/x-www-form-urlencoded") t
      then ok (url_encoded (parse_query is_numeric (from_utf8_lossy body)))
      else if contains (codes "multipart/form-data") t
      then read_multipart body (trim (last (split b'=' (last (split b';' t)))))
      else err malformed_request

  -- `FormData::from_request`, of the header `Content-Type` and the body
  unfoldable pub from_request : Option Text → Bytes → Outcome Error FormData
  unfolding contains parse_query split trim read
  from_request header body = do t ← or_error malformed_request header; of_type t body

  -- The text of an entry that is no file
  abbrev text_of : Entry → Option Text
  text_of e = elim (e.disposition.filename) [ none ↦ from_utf8 e.content | some filename ↦ none ]

  abbrev parsed {ℓ} : {T : Type ℓ} → (Text → Option T) → Option Text → Option T
  parsed from_str none = none
  parsed from_str (some t) = from_str t

  abbrev text_or_none : Option Entry → Option Text
  text_or_none none = none
  text_or_none (some e) = text_of e

  -- `FormData::get`, where `from_str` is that of the type asked for
  unfoldable pub get {ℓ} : {T : Type ℓ} → (from_str : Text → Option T) → Text → FormData → Option T
  unfolding Path.get entry
  get from_str name (url_encoded q) = Path.get is_numeric from_str name q
  get from_str name (multipart m) = parsed from_str (text_or_none (entry name m))

  unfoldable get_required {ℓ} :
      {T : Type ℓ} → (from_str : Text → Option T) → Text → FormData → Outcome Error T
  unfolding get
  get_required from_str name form = or_error missing_parameter (get from_str name form)

  abbrev no_file : Text × Entry → Query → Query
  no_file (name, e) q = elim (e.disposition.filename) [
    | none ↦ insert name (or_empty (from_utf8 e.content)) q
    | some filename ↦ q
  ]

  texts : Multipart → Query → Query
  unfolding insert
  texts [] q = q
  texts (e ∷ m) q = texts m (no_file e q)

  -- `FormData::into_iter`
  unfoldable into_iter : FormData → Query
  unfolding texts
  into_iter (url_encoded q) = q
  into_iter (multipart m) = texts m []
