-- ===== src/Http/Cookies.antt =====
-- Cookies, rwf/src/http/cookies.rs. The map of cookies is an association list: the order of a HashMap is left open.
pub mod Parts
mod Tests
use rwf.Prelude.{ℕ, Option, none, some, List, [], ◌∷◌, ◌++◌, Bool, true, false, if◌then◌else◌}
use rwf.Prelude.Int.{ℤ}
use rwf.Prelude.Text.{Text, codes, text_eq, split, trim, parse_i64, print_i64}
use rwf.Prelude.Outcome.{Outcome, ok, err}
use rwf.Http.Url.{urldecode}

pub data Error : Type 0 where
  crypto_error utf8_error : Error

-- An instant in seconds, a duration in seconds
pub record Cookie : Type 0 where
  pub name : Text
  pub value : Text
  pub expiration : Option ℤ
  pub max_age : Option ℤ
  pub path : Option Text
  pub domain : Option Text
  pub http_only : Bool
  pub secure : Bool
  pub same_site : Option Text

-- `CookieBuilder::new`
abbrev pub new_cookie : Cookie
new_cookie = record {
  name = [];
  value = [];
  expiration = none;
  max_age = none;
  path = none;
  domain = none;
  http_only = false;
  secure = false;
  same_site = none;
}

abbrev pub Cookies : Type 0
Cookies = List (Text × Cookie)

-- `HashMap::insert` and `HashMap::get`; the cookies stand in the order in which they were put.
pub put : Text → Cookie → Cookies → Cookies
unfolding text_eq
put name c [] = (name, c) ∷ []
put name c ((n, d) ∷ cs) =
    let rest = put name c cs in if text_eq name n then (n, c) ∷ cs else (n, d) ∷ rest

-- `Cookies::get`
get : Text → Cookies → Option Cookie
unfolding text_eq
get name [] = none
get name ((n, c) ∷ cs) = let rest = get name cs in if text_eq name n then some c else rest

-- `Cookies::add`
add : Cookie → Cookies → Cookies
unfolding put
add c cs = put c.name c cs

abbrev pub pair_of : List Text → Option Text × Option Text
pair_of [] = (none, none)
pair_of (key ∷ []) = (some key, none)
pair_of (key ∷ value ∷ more) = (some key, some value)

-- `Cookie::key_value`
pub key_value : Text → Option Text × Option Text
unfolding split
key_value s = pair_of (split b'=' s)

abbrev aged : Option ℤ → Cookie → Cookie
aged none c = c
aged (some n) c = record c { max_age = some n }

-- One attribute
attribute : Option Text × Option Text → Cookie → Cookie
unfolding text_eq trim parse_i64
attribute (none, value) c = c
attribute (some key, value) c =
    if text_eq (trim key) (codes "Domain")
    then (elim value [ none ↦ c | some v ↦ record c { domain = some v } ])
    else if text_eq (trim key) (codes "HttpOnly")
    then record c { http_only = true }
    else if text_eq (trim key) (codes "Secure")
    then record c { secure = true }
    else if text_eq (trim key) (codes "Max-Age")
    then (elim value [ none ↦ c | some v ↦ aged (parse_i64 v) c ])
    else c

pub attributes : List Text → Cookie → Cookie
unfolding key_value attribute
attributes [] c = c
attributes (part ∷ parts) c = attributes parts (attribute (key_value part) c)

-- `Display for Cookie`; `rfc2822` is the format of the time crate, without which `unwrap` panics.
module _ (rfc2822 : ℤ → Option Text) where
  abbrev expires : Option ℤ → Option Text
  expires none = some []
  expires (some t) = elim (rfc2822 t) [
    | none ↦ none
    | some text ↦ some (codes "; Expires=" ++ text)
  ]

  abbrev or_else : Option Text → Text → Text
  or_else none t = t
  or_else (some s) t = s

  abbrev age_text : Option ℤ → Text
  age_text none = []
  age_text (some n) = codes "; Max-Age: " ++ print_i64 n

  abbrev domain_text : Option Text → Text
  domain_text none = []
  domain_text (some d) = codes "; Domain=" ++ d

  pub print_cookie : Cookie → Option Text
  unfolding print_i64
  print_cookie c = elim (expires c.expiration) [
    | none ↦ none
    | some end ↦ some (
        c.name
        ++ codes "="
        ++ c.value
        ++ age_text c.max_age
        ++ (if c.secure then codes "; Secure" else [])
        ++ (if c.http_only then codes "; HttpOnly" else [])
        ++ codes "; Path="
        ++ or_else c.path (codes "/")
        ++ domain_text c.domain
        ++ codes "; SameSite="
        ++ or_else c.same_site (codes "Lax")
        ++ end)
  ]

  -- `Cookies::to_headers`
  pub to_headers : Cookies → Option Text
  unfolding print_cookie
  to_headers [] = some []
  to_headers ((name, c) ∷ cs) =
      let rest = to_headers cs in
      elim (print_cookie c) [
        | none ↦ none
        | some text ↦ elim rest [
          | none ↦ none
          | some more ↦ some (codes "set-cookie: " ++ text ++ 13 ∷ 10 ∷ more)
        ]
      ]

module _ (is_numeric : ℕ → Bool) where
  abbrev pub named : Option Text × Option Text → Option Cookie
  named (some key, some value) =
      some (record new_cookie { name = key; value = urldecode is_numeric value })
  named (some key, none) = some (record new_cookie { name = key })
  named (none, value) = none

  abbrev pub cookie_of : List Text → Option Cookie
  cookie_of [] = none
  cookie_of (part ∷ parts) = elim (named (key_value part)) [
    | none ↦ none
    | some c ↦ some (attributes parts c)
  ]

  -- `Cookie::parse`
  pub parse_cookie : Text → Option Cookie
  unfolding split key_value attributes urldecode
  parse_cookie s = cookie_of (split b';' s)

  abbrev pub put_parsed : Option Cookie → Cookies → Cookies
  put_parsed none cs = cs
  put_parsed (some c) cs = put c.name c cs

  pub parse_parts : List Text → Cookies → Cookies
  unfolding parse_cookie put trim
  parse_parts [] cs = cs
  parse_parts (part ∷ parts) cs = parse_parts parts (put_parsed (parse_cookie (trim part)) cs)

  -- `Cookies::parse`
  pub parse_cookies : Text → Cookies
  unfolding parse_parts split
  parse_cookies s = parse_parts (split b';' s) []

-- `encrypt` and `decrypt` are those of crypto.rs, over texts; `decrypt` gives the bytes, and `utf8` their text.
module _ {Bytes : Type 0} (encrypt : Text → Option Text) (decrypt : Text → Option Bytes)
    (utf8 : Bytes → Option Text) where
  -- `Cookies::add_private`
  unfoldable add_private : Cookie → Cookies → Outcome Error Cookies
  unfolding add
  add_private c cs = elim (encrypt c.value) [
    | none ↦ err crypto_error
    | some v ↦ ok (add (record c { value = v }) cs)
  ]

  abbrev opened : Cookie → Option Bytes → Outcome Error (Option Cookie)
  opened c none = ok none
  opened c (some bytes) = elim (utf8 bytes) [
    | none ↦ err utf8_error
    | some v ↦ ok (some (record c { value = v }))
  ]

  -- `Cookies::get_private`
  unfoldable get_private : Text → Cookies → Outcome Error (Option Cookie)
  unfolding get
  get_private name cs = elim (get name cs) [ none ↦ ok none | some c ↦ opened c (decrypt c.value) ]
