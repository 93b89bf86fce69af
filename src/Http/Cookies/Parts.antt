-- ===== src/Http/Cookies/Parts.antt =====
-- The cookies that a client sends back.
use rwf.Prelude.{
  ℕ, some, List, [], ◌∷◌, ◌++◌, Bool, true, false, not, ◌&&◌, ◌==◌, ltb, map, all, All, All-append,
  append_assoc, append-nil, ◌≡◌, refl, sym, ap, ◌∙◌, arith, Bool-cases, inl, inr,
}
use rwf.Prelude.Ranges.{passes, passes-below}
use rwf.Prelude.Text.{Text, codes, text_eq, split, trim, join, is_digit}
use rwf.Prelude.Text.Splits.{lacks, split-lacks, split-pair, split-join, all-append}
use rwf.Http.Url.{encode_char, urlencode}
use rwf.Http.Url.RoundTrip.{encode_above, urldecode-urlencode}
use rwf.Http.Cookies.{
  Cookie, Cookies, new_cookie, put, key_value, pair_of, attributes, named, cookie_of, parse_cookie,
  put_parsed, parse_parts, parse_cookies,
}

-- Not one of the characters that cookies are split at
is_cookie_char : ℕ → Bool
is_cookie_char c = not (c == b'=') && not (c == b';')

cookie_table : passes (λ c. all is_cookie_char (encode_char c)) 0 128 ≡ true
unfolding passes is_cookie_char encode_char
cookie_table = refl

encode_char-is_cookie_char : (c : ℕ) → all is_cookie_char (encode_char c) ≡ true
encode_char-is_cookie_char c = elim (Bool-cases (ltb c 128)) [
  | inl lt ↦
      passes-below (λ d. all is_cookie_char (encode_char d)) 128 c cookie_table (ground arith)
  | inr ge ↦ rw (encode_above c (ground arith)) (unfold is_cookie_char in ground arith)
]

urlencode-is_cookie_char : (s : Text) → all is_cookie_char (urlencode s) ≡ true
unfolding urlencode
urlencode-is_cookie_char [] = refl
urlencode-is_cookie_char (c ∷ s) =
    all-append is_cookie_char (encode_char c) (urlencode s) (encode_char-is_cookie_char c)
      (urlencode-is_cookie_char s)

cookie_char-lacks_equals : (s : Text) → all is_cookie_char s ≡ true → lacks b'=' s ≡ true
unfolding is_cookie_char
cookie_char-lacks_equals [] h = refl
cookie_char-lacks_equals (c ∷ s) h = ground (arith, cookie_char-lacks_equals s (ground (arith, h)))

cookie_char-lacks_semicolon : (s : Text) → all is_cookie_char s ≡ true → lacks b';' s ≡ true
unfolding is_cookie_char
cookie_char-lacks_semicolon [] h = refl
cookie_char-lacks_semicolon (c ∷ s) h =
    ground (arith, cookie_char-lacks_semicolon s (ground (arith, h)))

-- The text of one cookie, its value encoded
abbrev pair_text : Text × Text → Text
pair_text (name, value) = name ++ b'=' ∷ urlencode value

-- A name without separators, and no spaces around the cookie
pub record IsPair (p : Text × Text) : Type 0 where
  pub name_lacks_equals : lacks b'=' p.0 ≡ true
  pub name_lacks_semicolon : lacks b';' p.0 ≡ true
  pub trimmed : trim (pair_text p) ≡ pair_text p
  pub trimmed_behind : trim (b' ' ∷ pair_text p) ≡ pair_text p

-- No two cookies have the same name.
abbrev IsNew : Text → Text × Text → Type 0
IsNew name p = text_eq name p.0 ≡ false

unfoldable pub IsDistinct : List (Text × Text) → Type 0
IsDistinct [] = Unit
IsDistinct (p ∷ ps) = All (λ q. IsNew q.0 p) ps × IsDistinct ps

-- The `Cookie` header of some cookies
pub cookie_header : List (Text × Text) → Text
cookie_header ps = join (codes "; ") (map pair_text ps)

abbrev pub sent : Text × Text → Text × Cookie
sent (name, value) = (name, record new_cookie { name = name; value = value })

pair_text-lacks : (p : Text × Text) → IsPair p → lacks b';' (pair_text p) ≡ true
pair_text-lacks (name, value) h =
    all-append (λ c. not (c == b';')) name (b'=' ∷ urlencode value) h.name_lacks_semicolon
      (cookie_char-lacks_semicolon (urlencode value) (urlencode-is_cookie_char value))

join-cons :
    (c : ℕ) (s : Text) (ts : List Text)
    → join (codes ";") ((c ∷ s) ∷ ts) ≡ c ∷ join (codes ";") (s ∷ ts)
unfolding join
join-cons c s [] = refl
join-cons c s (t ∷ ts) = refl

-- A separator and a space
join-spaced :
    (t : Text) (ts : List Text)
    → join (codes "; ") (t ∷ ts) ≡ join (codes ";") (t ∷ map (λ s. b' ' ∷ s) ts)
unfolding join
join-spaced t [] = refl
join-spaced t (s ∷ ts) =
    let later = join (codes ";") (s ∷ map (λ u. b' ' ∷ u) ts) in
    append_assoc t (codes "; ") (join (codes "; ") (s ∷ ts))
    ∙ ap (λ u. t ++ b';' ∷ b' ' ∷ u) (join-spaced s ts)
    ∙ sym (append_assoc t (codes ";") (b' ' ∷ later))
    ∙ ap (λ u. (t ++ codes ";") ++ u) (sym (join-cons b' ' s (map (λ u. b' ' ∷ u) ts)))

put-new :
    (name : Text) (c : Cookie) (ps : List (Text × Text))
    → All (IsNew name) ps
    → put name c (map sent ps) ≡ map sent ps ++ (name, c) ∷ []
unfolding put
put-new name c [] h = refl
put-new name c (p ∷ ps) (hp, h) = rw hp (ap (λ cs. sent p ∷ cs) (put-new name c ps h))

key_value-pair_text :
    (p : Text × Text) → IsPair p → key_value (pair_text p) ≡ (some p.0, some (urlencode p.1))
unfolding key_value
key_value-pair_text (name, value) h = ap pair_of (
    split-pair b'=' name (urlencode value) h.name_lacks_equals
      (cookie_char-lacks_equals (urlencode value) (urlencode-is_cookie_char value)))

lack :
    (ps : List (Text × Text))
    → All IsPair ps
    → All (λ t. lacks b';' t ≡ true) (map (λ s. b' ' ∷ s) (map pair_text ps))
lack [] h = tt
lack (p ∷ ps) (hp, h) = (pair_text-lacks p hp, lack ps h)

map-sent :
    (ps : List (Text × Text)) (p : Text × Text)
    → map sent (ps ++ p ∷ []) ≡ map sent ps ++ sent p ∷ []
map-sent [] p = refl
map-sent (q ∷ ps) p = ap (λ cs. sent q ∷ cs) (map-sent ps p)

every_none : (ps : List (Text × Text)) → All (λ q. All (IsNew q.0) []) ps
every_none [] = tt
every_none (p ∷ ps) = (tt, every_none ps)

every_next :
    (before : List (Text × Text)) (p : Text × Text) (ps : List (Text × Text))
    → All (λ q. All (IsNew q.0) before) ps
    → All (λ q. IsNew q.0 p) ps
    → All (λ q. All (IsNew q.0) (before ++ p ∷ [])) ps
every_next before p [] h k = tt
every_next before p (q ∷ ps) (hq, h) (kq, k) =
    (All-append (IsNew q.0) before (p ∷ []) hq (kq, tt), every_next before p ps h k)

module _ (is_numeric : ℕ → Bool)
    (numeric_digits : (c : ℕ) → is_digit c ≡ true → is_numeric c ≡ true) where
  named-pair_text :
      (p : Text × Text) → IsPair p → named is_numeric (key_value (pair_text p)) ≡ some ((sent p).1)
  named-pair_text (name, value) h =
      ap (named is_numeric) (key_value-pair_text (name, value) h)
      ∙ ap (λ v. some (record new_cookie { name = name; value = v }))
          (urldecode-urlencode is_numeric numeric_digits value)

  parse_cookie-pair_text :
      (p : Text × Text) → IsPair p → parse_cookie is_numeric (pair_text p) ≡ some ((sent p).1)
  unfolding parse_cookie attributes
  parse_cookie-pair_text p h =
      ap (cookie_of is_numeric) (split-lacks b';' (pair_text p) (pair_text-lacks p h))
      ∙ (rw (named-pair_text p h, cookie_of) refl)

  put_parsed_lem :
      (p : Text × Text) (t : Text) (cs : Cookies)
      → IsPair p
      → trim t ≡ pair_text p
      → put_parsed is_numeric (parse_cookie is_numeric (trim t)) cs ≡ put p.0 (sent p).1 cs
  put_parsed_lem p t cs h e =
      ap (λ c. put_parsed is_numeric c cs)
        (ap (parse_cookie is_numeric) e ∙ parse_cookie-pair_text p h)

  parse_parts-pairs :
      (before ps : List (Text × Text))
      → All IsPair ps
      → All (λ q. All (IsNew q.0) before) ps
      → IsDistinct ps
      → parse_parts is_numeric (map (λ s. b' ' ∷ s) (map pair_text ps)) (map sent before)
        ≡ map sent (before ++ ps)
  unfolding parse_parts IsDistinct
  parse_parts-pairs before [] fit new distinct = rw (append-nil before) refl
  parse_parts-pairs before (p ∷ ps) (hp, fit) (hn, new) (apart, distinct) =
      let put_p = put_parsed_lem p (b' ' ∷ pair_text p) (map sent before) hp hp.trimmed_behind in
      ap (parse_parts is_numeric (map (λ s. b' ' ∷ s) (map pair_text ps)))
        (put_p ∙ put-new p.0 (sent p).1 before hn ∙ sym (map-sent before p))
      ∙ parse_parts-pairs (before ++ p ∷ []) ps fit (every_next before p ps new apart) distinct
      ∙ ap (map sent) (append_assoc before (p ∷ []) ps)

  -- The `Cookie` header of some cookies, their values encoded, is parsed to the map of these
  -- cookies by their names, which the model keeps in the order of insertion, where the names differ
  -- and hold no `=` and no `;`, the text of a cookie has no spaces around it, and the ASCII digits
  -- are numeric.
  pub parse_cookies-cookie_header :
      (p : Text × Text) (ps : List (Text × Text))
      → All IsPair (p ∷ ps)
      → IsDistinct (p ∷ ps)
      → parse_cookies is_numeric (cookie_header (p ∷ ps)) ≡ map sent (p ∷ ps)
  unfolding parse_cookies parse_parts IsDistinct cookie_header
  parse_cookies-cookie_header p ps (hp, fit) (apart, distinct) =
      ap (λ t. parse_parts is_numeric (split b';' t) [])
        (join-spaced (pair_text p) (map pair_text ps))
      ∙ ap (λ ts. parse_parts is_numeric ts [])
          (split-join b';' (pair_text p) (map (λ s. b' ' ∷ s) (map pair_text ps))
            (pair_text-lacks p hp) (lack ps fit))
      ∙ ap (parse_parts is_numeric (map (λ s. b' ' ∷ s) (map pair_text ps)))
          (put_parsed_lem p (pair_text p) [] hp hp.trimmed)
      ∙ parse_parts-pairs (p ∷ []) ps fit (every_next [] p ps (every_none ps) apart) distinct
