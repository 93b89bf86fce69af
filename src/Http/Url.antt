-- ===== src/Http/Url.antt =====
-- Percent-encoding, rwf/src/http/url.rs.
pub mod RoundTrip
use rwf.Prelude.{
  ℕ, Option, none, some, [], ◌∷◌, ◌++◌, Bool, false, ◌&&◌, ◌||◌, ◌==◌, ltb, leb, map, if◌then◌else◌,
}
use rwf.Prelude.Text.{Text, codes, text_eq, utf8_len, to_ascii_uppercase}

-- The text that the digits behind a `%` stand for; what is no known code stands for itself.
pub replacement : Text → Text
unfolding text_eq to_ascii_uppercase
replacement num =
    let n = map to_ascii_uppercase num in
    if text_eq n (codes "3A")
    then codes ":"
    else if text_eq n (codes "2F")
    then codes "/"
    else if text_eq n (codes "3F")
    then codes "?"
    else if text_eq n (codes "23")
    then codes "#"
    else if text_eq n (codes "5B")
    then codes "["
    else if text_eq n (codes "5D")
    then codes "]"
    else if text_eq n (codes "40")
    then codes "@"
    else if text_eq n (codes "21")
    then codes "!"
    else if text_eq n (codes "24")
    then codes "$"
    else if text_eq n (codes "26")
    then codes "&"
    else if text_eq n (codes "27")
    then codes "'"
    else if text_eq n (codes "28")
    then codes "("
    else if text_eq n (codes "29")
    then codes ")"
    else if text_eq n (codes "2A")
    then codes "*"
    else if text_eq n (codes "2B")
    then codes "+"
    else if text_eq n (codes "2C")
    then codes ","
    else if text_eq n (codes "3B")
    then codes ";"
    else if text_eq n (codes "3D")
    then codes "="
    else if text_eq n (codes "25")
    then codes "%"
    else if text_eq n (codes "20")
    then codes " "
    else if text_eq n (codes "7B")
    then codes "{"
    else if text_eq n (codes "7D")
    then codes "}"
    else if text_eq n (codes "0A")
    then codes "\n"
    else num

-- `is_numeric` is `char::is_numeric`, of the Unicode tables.
module _ (is_numeric : ℕ → Bool) where
  pub is_code_char : ℕ → Bool
  unfolding to_ascii_uppercase
  is_code_char c =
      is_numeric c || (leb b'A' (to_ascii_uppercase c) && leb (to_ascii_uppercase c) b'F')

  -- `none` outside of a code; in a code, the digits read so far.
  pub takes : Option Text → ℕ → Bool
  unfolding is_code_char utf8_len
  takes none c = false
  takes (some num) c = is_code_char c && ltb (utf8_len num) 2

  abbrev digits : Option Text → Text
  digits none = []
  digits (some num) = num

  flush : Option Text → Text
  unfolding replacement
  flush none = []
  flush (some num) = replacement num

  pub decode : Option Text → Text → Text
  unfolding takes flush
  decode num [] = flush num
  decode num (c ∷ s) =
      let longer = decode (some (digits num ++ c ∷ [])) s in
      let opened = decode (some []) s in
      let plain = decode none s in
      if takes num c
      then longer
      else flush num
        ++ (if c == b'%' then opened else if c == b'+' then b' ' ∷ plain else c ∷ plain)

  unfoldable pub urldecode : Text → Text
  unfolding decode
  urldecode s = decode none s

unfoldable pub encode_char : ℕ → Text
encode_char c =
    if c == b':'
    then codes "%3A"
    else if c == b'/'
    then codes "%2F"
    else if c == b'?'
    then codes "%3F"
    else if c == b'#'
    then codes "%23"
    else if c == b'['
    then codes "%5B"
    else if c == b']'
    then codes "%5D"
    else if c == b'@'
    then codes "%40"
    else if c == b'!'
    then codes "%21"
    else if c == b'$'
    then codes "%24"
    else if c == b'&'
    then codes "%26"
    else if c == b'\''
    then codes "%27"
    else if c == b'('
    then codes "%28"
    else if c == b')'
    then codes "%29"
    else if c == b'*'
    then codes "%2A"
    else if c == b'+'
    then codes "%2B"
    else if c == b','
    then codes "%2C"
    else if c == b';'
    then codes "%3B"
    else if c == b'='
    then codes "%3D"
    else if c == b'%'
    then codes "%25"
    else if c == b' '
    then codes "%20"
    else if c == b'\n'
    then codes "%0A"
    else c ∷ []

unfoldable pub urlencode : Text → Text
unfolding encode_char
urlencode [] = []
urlencode (c ∷ s) = encode_char c ++ urlencode s
