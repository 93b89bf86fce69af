-- ===== src/Http/Path/Tests.antt =====
-- Paths and queries at fixed texts.
use rwf.Prelude.{[], ◌∷◌, some, ◌≡◌, refl}
use rwf.Prelude.Text.{codes, is_digit, text_cmp, starts_with}
use rwf.Prelude.Outcome.{ok, err}
use rwf.Http.Path.{
  Query, malformed_request, from_parts, parse, parse_query, to_string, get, pop_base,
}
use rwf.Http.Path.RoundTrip.{IsSorted, parse-to_string}

abbrev query : Query
query = (codes "foo", codes "bar") ∷ (codes "hello=world", []) ∷ []

parse_sample :
    parse is_digit (codes "/hello?hello%3Dworld&foo=bar&a=b=c")
    ≡ ok (from_parts (codes "/hello") query)
unfolding parse is_digit
parse_sample = refl

print_sample : to_string (from_parts (codes "/hello") query) ≡ codes "/hello?foo=bar&hello%3Dworld="
unfolding to_string
print_sample = refl

two_queries_sample : parse is_digit (codes "/a?b?c") ≡ err malformed_request
unfolding parse is_digit
two_queries_sample = refl

-- An empty query has a parameter of the empty name.
empty_sample : parse_query is_digit [] ≡ ([], []) ∷ []
unfolding parse_query is_digit
empty_sample = refl

-- A parameter is decoded when the query is parsed, and again when it is asked for.
get_sample :
    get is_digit (λ s. some s) (codes "p") (parse_query is_digit (codes "p=%252F"))
    ≡ some (codes "/")
unfolding get parse_query is_digit
get_sample = refl

-- A base that the path does not begin with takes away the characters that agree.
pop_base_sample : pop_base (codes "/in/on") (codes "/an") ≡ codes "i/on"
unfolding pop_base
pop_base_sample = refl

query-IsSorted : IsSorted query
unfolding IsSorted text_cmp
query-IsSorted = ((refl, tt), (tt, tt))

parse-to_string_example :
    parse is_digit (to_string (from_parts (codes "/hello") query))
    ≡ ok (from_parts (codes "/hello") query)
unfolding starts_with
parse-to_string_example =
    parse-to_string is_digit (λ c h. h) (codes "/hello") query query-IsSorted refl refl
