-- ===== src/Http/Tests.antt =====
-- A run of the percent-encoding at a fixed input, where only the ASCII digits are numeric.
use rwf.Prelude.{◌≡◌}
use rwf.Prelude.Text.{codes, is_digit}
use rwf.Http.Url.{urldecode, urlencode}
use rwf.Http.Url.RoundTrip.{urldecode-urlencode}

urldecode-urlencode_example :
    urldecode is_digit (urlencode (codes "a b/%2F?c=ü")) ≡ codes "a b/%2F?c=ü"
urldecode-urlencode_example = urldecode-urlencode is_digit (λ c h. h) (codes "a b/%2F?c=ü")
