-- ===== src/Http/Head/RoundTrip.antt =====
-- A head that is written and read again.
use rwf.Prelude.{
  ℕ, zero, suc, ◌+◌, ◌≤◌, ◌<◌, [], ◌∷◌, ◌++◌, Bool, true, false, ◌&&◌, ltb, all, map, length,
  length-append, is_empty, append-nil, append_assoc, ◌≡◌, refl, ap, ◌∙◌, arith, All,
}
use rwf.Prelude.Text.{Text, codes, split, trim, starts_with, is_digit, join}
use rwf.Prelude.Text.Splits.{lacks, split-pair, split-join}
use rwf.Prelude.Outcome.{ok}
use rwf.Http.Path.{HttpPath, insert, parse, to_string}
use rwf.Http.Path.RoundTrip.{
  IsSorted, IsAbove, every_next, every_none, insert-above, parse-to_string,
}
use rwf.Http.Head.{
  Bytes, Head, Headers, Version, http1, http2, unknown, path_of, read_line, add_header,
  read_headers, request_line, read_head, method_of, version_of, print_method, print_version,
  insert_header,
}
use rwf.Http.Head.Lines.{is_plain, line_from-plain}

-- ASCII without a line break
abbrev is_text : ℕ → Bool
is_text c = ltb c 128 && is_plain c

abbrev pub crlf : Text
crlf = 13 ∷ 10 ∷ []

abbrev header_line : Text × Text → Text
header_line (name, value) = name ++ b':' ∷ b' ' ∷ value

-- The lines of some headers, and the empty line
unfoldable pub print_headers : Headers → Text
print_headers [] = crlf
print_headers (h ∷ hs) = header_line h ++ 13 ∷ 10 ∷ print_headers hs

unfoldable pub first_line : Head → Text
first_line h =
    join (codes " ") (print_method h.method ∷ to_string h.path ∷ print_version h.version ∷ [])

unfoldable pub print_head : Head → Text
print_head h = first_line h ++ 13 ∷ 10 ∷ print_headers h.headers

some_line : (h : Text × Text) → is_empty h.0 ≡ false → is_empty (header_line h) ≡ false
some_line ([], value) e = cc
some_line (c ∷ name, value) e = refl

version-lacks : (v : Version) → lacks b' ' (print_version v) ≡ true
unfolding print_version
version-lacks http1 = refl
version-lacks http2 = refl
version-lacks unknown = refl

-- A header takes a byte at least.
length-print_headers : (hs : Headers) (body : Bytes) → length hs ≤ length (print_headers hs ++ body)
unfolding print_headers
length-print_headers [] body = omega arith
length-print_headers (h ∷ hs) body = omega (
  arith,
  length-print_headers hs body,
  length-append (header_line h ++ 13 ∷ 10 ∷ print_headers hs) body,
  length-append (header_line h) (13 ∷ 10 ∷ print_headers hs),
  length-append (print_headers hs) body,
)

module _ (lossy : Bytes → Text) (to_lowercase to_uppercase : Text → Text) (is_numeric : ℕ → Bool)
    (lossy_ascii : (s : Text) → all is_text s ≡ true → lossy s ≡ s) where
  -- A line within the limit
  pub record IsLine (limit : ℕ) (s : Text) : Type 0 where
    pub plain : all is_text s ≡ true
    pub within : length s + 2 ≤ limit

  -- A name in lower case and a value, neither with a colon or with spaces around it
  pub record IsHeader (limit : ℕ) (h : Text × Text) : Type 0 where
    pub line : IsLine limit (header_line h)
    pub some_name : is_empty h.0 ≡ false
    pub name_lacks : lacks b':' h.0 ≡ true
    pub value_lacks : lacks b':' h.1 ≡ true
    pub name_trimmed : trim h.0 ≡ h.0
    pub value_trimmed : trim (b' ' ∷ h.1) ≡ h.1
    pub lower_case : to_lowercase h.0 ≡ h.0

  text-plain : (s : Text) → all is_text s ≡ true → all is_plain s ≡ true
  text-plain [] h = refl
  text-plain (c ∷ s) h = ground (arith, text-plain s (ground (arith, h)))

  read_line-IsLine :
      (limit : ℕ) (s rest : Bytes)
      → IsLine limit s
      → read_line lossy to_lowercase to_uppercase is_numeric limit (s ++ 13 ∷ 10 ∷ rest)
        ≡ ok (s, rest)
  unfolding read_line
  read_line-IsLine limit s rest h =
      rw (line_from-plain limit [] s rest (text-plain s h.plain) h.within, lossy_ascii s h.plain)
        refl

  add_header-IsHeader :
      (limit : ℕ) (h : Text × Text) (hs : Headers)
      → IsHeader limit h
      → add_header lossy to_lowercase to_uppercase is_numeric
          (map trim (split b':' (header_line h)))
          hs
        ≡ ok (insert h.0 h.1 hs)
  unfolding add_header insert_header
  add_header-IsHeader limit (name, value) hs h =
      rw
        (
          split-pair b':' name (b' ' ∷ value) h.name_lacks h.value_lacks,
          h.name_trimmed,
          h.value_trimmed,
          h.lower_case,
        )
        (rw h.lower_case refl)

  read_headers-print_headers :
      (f limit : ℕ) (acc hs : Headers) (body : Bytes)
      → length hs < f
      → 2 ≤ limit
      → All (IsHeader limit) hs
      → All (λ r. All (IsAbove r.0) acc) hs
      → IsSorted hs
      → read_headers lossy to_lowercase to_uppercase is_numeric f limit acc
          (print_headers hs ++ body)
        ≡ ok (acc ++ hs, body)
  unfolding read_headers print_headers IsSorted
  read_headers-print_headers zero limit acc hs body lt two fit above sorted = absurd (omega arith)
  read_headers-print_headers (suc f) limit acc [] body lt two fit above sorted =
      rw (read_line-IsLine limit [] body (record { plain = refl; within = two }), append-nil acc)
        refl
  read_headers-print_headers (suc f) limit acc (h ∷ hs) body lt two (hfit, fit) (habove, above)
        (first, sorted) =
      let next = every_next acc h hs above first in
      let written : header_line h ++ 13 ∷ 10 ∷ print_headers hs ++ body
          ≡ header_line h ++ 13 ∷ 10 ∷ (print_headers hs ++ body) =
        append_assoc (header_line h) (13 ∷ 10 ∷ print_headers hs) body in
      let added : insert h.0 h.1 acc ≡ acc ++ h ∷ [] = insert-above h.0 h.1 acc habove in
      rw
        (
          written,
          read_line-IsLine limit (header_line h) (print_headers hs ++ body) hfit.line,
          some_line h hfit.some_name,
          add_header-IsHeader limit h acc hfit,
          added,
        )
        (read_headers-print_headers f limit (acc ++ h ∷ []) hs body (omega arith) two fit next
            sorted
          ∙ ap (λ all. ok (all, body)) (append_assoc acc (h ∷ []) hs))

  path_of-ok :
      (s : Text) (p : HttpPath)
      → parse is_numeric s ≡ ok p
      → path_of lossy to_lowercase to_uppercase is_numeric s ≡ ok p
  path_of-ok s p h = rw (h, path_of) refl

  -- A request that can be written
  pub record IsRequest (limit : ℕ) (h : Head) : Type 0 where
    pub line : IsLine limit (first_line h)
    pub method_lacks : lacks b' ' (print_method h.method) ≡ true
    pub method_known :
        method_of lossy to_lowercase to_uppercase is_numeric (print_method h.method) ≡ h.method
    pub path_lacks : lacks b' ' (to_string h.path) ≡ true
    pub path_rooted : starts_with h.path.base (codes "/") ≡ true
    pub path_base : lacks b'?' h.path.base ≡ true
    pub path_sorted : IsSorted h.path.query
    pub version_known : version_of (print_version h.version) ≡ h.version
    pub headers_fit : All (IsHeader limit) h.headers
    pub headers_sorted : IsSorted h.headers

  module _ (numeric_digits : (c : ℕ) → is_digit c ≡ true → is_numeric c ≡ true) where
    request_line-first_line :
        (limit : ℕ) (h : Head)
        → IsRequest limit h
        → request_line lossy to_lowercase to_uppercase is_numeric (split b' ' (first_line h))
          ≡ ok (h.method, h.path, h.version)
    unfolding request_line first_line
    request_line-first_line limit h k =
        let parts =
          split-join b' ' (print_method h.method) (to_string h.path ∷ print_version h.version ∷ [])
            k.method_lacks (k.path_lacks, (version-lacks h.version, tt)) in
        let path : parse is_numeric (to_string h.path) ≡ ok h.path =
          parse-to_string is_numeric numeric_digits h.path.base h.path.query k.path_sorted
            k.path_rooted k.path_base in
        rw (parts, path_of-ok (to_string h.path) h.path path, k.method_known, k.version_known) refl

    -- A request of ASCII lines within the limit, whose method and version are known, whose path has
    -- no space and can be read back, and whose headers are in order, in lower case, trimmed and
    -- without a further colon, is read back from its text, and its body is left, where ASCII text
    -- is valid UTF-8 and the ASCII digits are numeric.
    pub read_head-print_head :
        (limit : ℕ) (h : Head) (body : Bytes)
        → IsRequest limit h
        → read_head lossy to_lowercase to_uppercase is_numeric limit (print_head h ++ body)
          ≡ ok (h, body)
    unfolding read_head print_head
    read_head-print_head limit h body k =
        let rest = print_headers h.headers ++ body in
        let written : first_line h ++ 13 ∷ 10 ∷ print_headers h.headers ++ body
            ≡ first_line h ++ 13 ∷ 10 ∷ rest =
          append_assoc (first_line h) (13 ∷ 10 ∷ print_headers h.headers) body in
        rw
          (
            written,
            read_line-IsLine limit (first_line h) rest k.line,
            request_line-first_line limit h k,
            read_headers-print_headers (suc (length rest)) limit [] h.headers body
                (omega (arith, length-print_headers h.headers body)) (omega (arith, k.line.within))
                k.headers_fit (every_none h.headers) k.headers_sorted,
          )
          refl
