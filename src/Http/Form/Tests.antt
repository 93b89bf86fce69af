-- ===== src/Http/Form/Tests.antt =====
-- Forms at fixed inputs, of ASCII text.
use rwf.Prelude.{◌≢◌, Option, some, List, [], ◌∷◌, ◌++◌, map, ◌≡◌, refl}
use rwf.Prelude.Text.{Text, codes, is_digit, to_ascii_lowercase}
use rwf.Prelude.Outcome.{Outcome, ok, out_of_fuel}
use rwf.Http.Form.{Bytes, Error, Multipart, parse_disposition, line_of, read}
use rwf.Http.Form.Total.{read_ends}
use rwf.Http.Form.Fields.{
  IsName, AreBoundaries, IsField, entries_of, print_fields, print_field, read-print_fields,
  read-empty_field,
}
use rwf.Http.Form.Submitted.{FormData, multipart, url_encoded, from_request, get}

abbrev same : Text → Text
same t = t

abbrev valid : Bytes → Option Text
valid bs = some bs

abbrev lower : Text → Text
lower = map to_ascii_lowercase

-- The test of the source
file_sample :
    parse_disposition same valid same lower is_digit
      (codes "Content-Disposition: form-data; name=\"myFile\"; filename=\"foo.txt\"")
    ≡ ok (record { name = codes "myFile"; filename = some (codes "foo.txt") })
unfolding parse_disposition to_ascii_lowercase is_digit
file_sample = refl

-- What is behind a colon or a semicolon is lost, and `+` is a space.
filename_sample :
    parse_disposition same valid same lower is_digit
      (codes "Content-Disposition: form-data; name=\"a\"; filename=\"a+b;c.txt\"")
    ≡ ok (record { name = codes "a"; filename = some (codes "a b") })
unfolding parse_disposition to_ascii_lowercase is_digit
filename_sample = refl

abbrev crlf : Text
crlf = 13 ∷ 10 ∷ []

abbrev or_form : Outcome Error Multipart → FormData
or_form (ok m) = multipart m
or_form _ = multipart []

-- The line breaks of a value are lost.
lines_sample :
    get same valid same lower is_digit
      (λ t. some t)
      (codes "a")
      (or_form (
        read same valid same lower is_digit
          (codes "--B"
            ++ (crlf
                ++ (codes "Content-Disposition: form-data; name=\"a\""
                    ++ (crlf
                        ++ (crlf
                            ++ (codes "one"
                                ++ (crlf ++ (codes "two" ++ (crlf ++ codes "--B--")))))))))
          (codes "B")))
    ≡ some (codes "onetwo")
unfolding get read to_ascii_lowercase is_digit
lines_sample = refl

url_sample :
    from_request same valid same lower is_digit
      (some (codes "application/x-www-form-urlencoded"))
      (codes "a=b")
    ≡ ok (url_encoded ((codes "a", codes "b") ∷ []))
unfolding from_request is_digit
url_sample = refl

abbrev fields : List (Text × Bytes)
fields = (codes "a", codes "one") ∷ (codes "b", codes "two words") ∷ []

boundaries : AreBoundaries same valid same lower is_digit (codes "--B") (codes "--B--")
unfolding line_of
boundaries = record { first_one_line = refl; last_one_line = refl; starts = refl; ends = refl }

a-IsName : IsName same valid same lower is_digit (codes "a")
unfolding parse_disposition to_ascii_lowercase is_digit
a-IsName = record { one_line = refl; utf8 = refl; parsed = refl }

b-IsName : IsName same valid same lower is_digit (codes "b")
unfolding parse_disposition to_ascii_lowercase is_digit
b-IsName = record { one_line = refl; utf8 = refl; parsed = refl }

one-IsField :
    IsField same valid same lower is_digit (codes "--B") (codes "--B--") (codes "a", codes "one")
unfolding line_of
one-IsField = record { name = a-IsName; value_one_line = refl; value = refl }

two-IsField :
    IsField same valid same lower is_digit
      (codes "--B")
      (codes "--B--")
      (codes "b", codes "two words")
unfolding line_of
two-IsField = record { name = b-IsName; value_one_line = refl; value = refl }

read-print_fields_example :
    read same valid same lower is_digit
      (print_fields same valid same lower is_digit
        (codes "--B")
        fields
        (codes "--B--" ++ 13 ∷ 10 ∷ []))
      (codes "B")
    ≡ ok (entries_of fields [])
read-print_fields_example =
    read-print_fields same valid same lower is_digit (codes "B") fields [] boundaries
      (one-IsField, (two-IsField, tt))

read-empty_field_example :
    read same valid same lower is_digit
      (print_fields same valid same lower is_digit
        (codes "--B")
        ((codes "a", codes "one") ∷ [])
        (print_field same valid same lower is_digit (codes "--B") (codes "b", []) []))
      (codes "B")
    ≡ ok (entries_of ((codes "a", codes "one") ∷ []) [])
read-empty_field_example =
    read-empty_field same valid same lower is_digit (codes "B") ((codes "a", codes "one") ∷ [])
      (codes "b") [] boundaries (one-IsField, tt) b-IsName

read_ends_example : read same valid same lower is_digit (codes "--B") (codes "B") ≢ out_of_fuel
read_ends_example = read_ends same valid same lower is_digit (codes "--B") (codes "B")
