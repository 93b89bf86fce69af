-- ===== src/Http/Cookies/Tests.antt =====
-- Cookies at fixed texts.
use rwf.Prelude.{none, some, [], ◌∷◌, true, ◌≡◌, refl}
use rwf.Prelude.Int.{pos}
use rwf.Prelude.Text.{Text, codes, is_digit, text_eq, trim}
use rwf.Http.Url.{urlencode}
use rwf.Http.Cookies.{Cookie, new_cookie, print_cookie, to_headers, parse_cookie, parse_cookies}
use rwf.Http.Cookies.Parts.{IsPair, IsDistinct, sent, cookie_header, parse_cookies-cookie_header}

abbrev aged : Cookie
aged = record new_cookie { name = codes "hello"; value = codes "a+b"; max_age = some (pos 60) }

-- `Max-Age` is written with a colon.
print_sample :
    print_cookie (λ t. none) aged ≡ some (codes "hello=a+b; Max-Age: 60; Path=/; SameSite=Lax")
unfolding print_cookie
print_sample = refl

-- and is not read again; the value is decoded, though it was not encoded.
parse_sample :
    parse_cookie is_digit (codes "hello=a+b; Max-Age: 60; HttpOnly")
    ≡ some (record new_cookie { name = codes "hello"; value = codes "a b"; http_only = true })
unfolding parse_cookie is_digit
parse_sample = refl

max_age_sample :
    parse_cookie is_digit (codes "hello=a; Max-Age=60")
    ≡ some (record new_cookie { name = codes "hello"; value = codes "a"; max_age = some (pos 60) })
unfolding parse_cookie is_digit
max_age_sample = refl

-- A value is cut at its second `=`.
equals_sample :
    parse_cookies is_digit (codes "token=abc==; token=d")
    ≡ (codes "token", record new_cookie { name = codes "token"; value = codes "d" }) ∷ []
unfolding parse_cookies is_digit
equals_sample = refl

-- The time of `Expires` that cannot be written: `unwrap` panics.
expires_sample :
    to_headers (λ t. none) ((codes "a", record new_cookie { expiration = some (pos 0) }) ∷ [])
    ≡ none
unfolding to_headers
expires_sample = refl

abbrev first : Text × Text
first = (codes "hello", codes "a+b = c;")

abbrev second : Text × Text
second = (codes "token", codes "abc==")

first-IsPair : IsPair first
unfolding trim urlencode
first-IsPair = record {
  name_lacks_equals = refl;
  name_lacks_semicolon = refl;
  trimmed = refl;
  trimmed_behind = refl;
}

second-IsPair : IsPair second
unfolding trim urlencode
second-IsPair = record {
  name_lacks_equals = refl;
  name_lacks_semicolon = refl;
  trimmed = refl;
  trimmed_behind = refl;
}

both-IsDistinct : IsDistinct (first ∷ second ∷ [])
unfolding IsDistinct text_eq
both-IsDistinct = ((refl, tt), (tt, tt))

parse_cookies-cookie_header_example :
    parse_cookies is_digit (cookie_header (first ∷ second ∷ [])) ≡ sent first ∷ sent second ∷ []
parse_cookies-cookie_header_example =
    parse_cookies-cookie_header is_digit (λ c h. h) first (second ∷ [])
      (first-IsPair, (second-IsPair, tt)) both-IsDistinct
