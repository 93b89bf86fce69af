-- ===== src/Http/Head/Tests.antt =====
-- Requests at fixed bytes.
use rwf.Prelude.{[], ◌∷◌, ◌++◌, some, map, ◌≡◌, refl, arith}
use rwf.Prelude.Text.{
  Text, codes, is_digit, to_ascii_lowercase, to_ascii_uppercase, text_cmp, trim, starts_with,
}
use rwf.Prelude.Outcome.{ok, err}
use rwf.Http.Path.{from_parts, to_string}
use rwf.Http.Path.RoundTrip.{IsSorted}
use rwf.Http.Head.{
  Bytes, Head, nl_before_cr, get, http1, read_head, read_headers, method_of, version_of,
  print_method, print_version, basic, parse_authorization,
}
use rwf.Http.Head.RoundTrip.{
  IsRequest, crlf, print_head, first_line, print_headers, read_head-print_head,
}

abbrev same : Bytes → Text
same bs = bs

abbrev lower : Text → Text
lower s = map to_ascii_lowercase s

abbrev upper : Text → Text
upper s = map to_ascii_uppercase s

abbrev request : Head
request = record {
  method = get;
  path = from_parts (codes "/users") ((codes "page", codes "2") ∷ []);
  version = http1;
  headers = (codes "accept", codes "*/*") ∷ (codes "host", codes "localhost") ∷ [];
}

print_sample :
    print_head request
    ≡ codes "GET /users?page=2 HTTP/1.1"
      ++ crlf
      ++ codes "accept: */*"
      ++ crlf
      ++ codes "host: localhost"
      ++ crlf
      ++ crlf
unfolding print_head first_line print_method print_version print_headers to_string
print_sample = refl

-- A value ends at its first colon.
port_sample :
    read_headers same lower upper is_digit 5 100 [] (codes "Host: localhost:8000" ++ crlf ++ crlf)
    ≡ ok ((codes "host", codes "localhost") ∷ [], [])
unfolding read_headers to_ascii_lowercase is_digit
port_sample = refl

break_sample :
    read_head same lower upper is_digit 100 (codes "GET / HTTP/1.1\n" ++ 13 ∷ []) ≡ err nl_before_cr
unfolding read_head
break_sample = refl

authorization_sample :
    parse_authorization
      (λ s. some (codes "alice:wonder:land"))
      (codes "Basic YWxpY2U6d29uZGVybGFuZA==")
    ≡ some (basic (codes "alice") (codes "wonder"))
unfolding parse_authorization
authorization_sample = refl

request-IsRequest : IsRequest same lower upper is_digit (λ s h. refl) 100 request
unfolding IsSorted text_cmp print_method print_version method_of version_of to_string first_line
    to_ascii_uppercase to_ascii_lowercase trim starts_with
request-IsRequest = record {
  line = record { plain = refl; within = omega arith };
  method_lacks = refl;
  method_known = refl;
  path_lacks = refl;
  path_rooted = refl;
  path_base = refl;
  path_sorted = (tt, tt);
  version_known = refl;
  headers_fit = (
    record {
      line = record { plain = refl; within = omega arith };
      some_name = refl;
      name_lacks = refl;
      value_lacks = refl;
      name_trimmed = refl;
      value_trimmed = refl;
      lower_case = refl;
    },
    (
      record {
        line = record { plain = refl; within = omega arith };
        some_name = refl;
        name_lacks = refl;
        value_lacks = refl;
        name_trimmed = refl;
        value_trimmed = refl;
        lower_case = refl;
      },
      tt,
    ),
  );
  headers_sorted = ((refl, tt), (tt, tt));
}

read_head-print_head_example :
    read_head same lower upper is_digit 100 (print_head request ++ codes "hello")
    ≡ ok (request, codes "hello")
read_head-print_head_example =
    read_head-print_head same lower upper is_digit (λ s h. refl) (λ c h. h) 100 request
      (codes "hello") request-IsRequest
