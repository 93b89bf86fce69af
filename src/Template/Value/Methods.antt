-- ===== src/Template/Value/Methods.antt =====
-- The methods that `Value::call` of lexer/value.rs has for numbers, text, lists and hashes.
use rwf.Prelude.{
  ℕ, zero, suc, ◌+◌, Option, none, some, List, [], ◌∷◌, ◌++◌, map, reverse, Bool, false, any,
  is_empty, length, get_elem?, if◌then◌else◌,
}
use rwf.Prelude.Int.{ℤ, pos, negsuc, ltb_ℤ, sub_ℕ, neg_part, pos_part}
use rwf.Prelude.Text.{
  Text, codes, text_eq, print_i64, parse_i64, replace, replace_char, utf8_len, trim,
}
use rwf.Prelude.Outcome.{ok, err, ◌>>=◌}
use rwf.Strings.{safe_html, capitalize, pascal_case, snake_case, title_case}
use rwf.Http.Url.{urlencode, urldecode}
use rwf.Template.Value.{
  Value, Values, Entries, integer, float, string, boolean, list, null, safe_string, nil, cons,
  to_list, of_list, to_entries,
}
use rwf.Template.Token.{Result, unknown_method, runtime}
use rwf.Template.Host.{Host}
use rwf.Template.Value.Compare.{get, value_eq}
use rwf.Template.Value.Arith.{checked}
use rwf.Template.Value.Show.{to_string}

-- Whether the method's name is one of the list.
unfoldable pub named : Text → List Text → Bool
unfolding text_eq
named m names = any (text_eq m) names

-- The values 0, 1, … below `n`, with `i` the first.
range_from : ℕ → ℕ → List Value
range_from i zero = []
range_from i (suc n) = integer (pos i) ∷ range_from (i + 1) n

enumerate_from : ℕ → List Value → List Value
enumerate_from i [] = []
enumerate_from i (v ∷ vs) = list (cons (integer (pos i)) (cons v nil)) ∷ enumerate_from (i + 1) vs

-- `Value::flatten`
unfoldable mutual
  flatten : Value → Value
  flatten (list vs) = list (flatten_values vs)
  flatten v = list (cons v nil)

  flatten_values : Values → Values
  flatten_values nil = nil
  flatten_values (cons v vs) = cons (flatten v) (flatten_values vs)

-- `Value::to_vec`
abbrev to_vec : Value → List Value
unfolding to_list
to_vec (list vs) = to_list vs
to_vec v = v ∷ []

-- The loop of the method `flatten` of a list
flatten_items : List Value → List Value
unfolding flatten to_list
flatten_items [] = []
flatten_items (list vs ∷ rest) = to_vec (flatten (list vs)) ++ flatten_items rest
flatten_items (v ∷ rest) = v ∷ flatten_items rest

unfoldable pub pair : Text × Value → Value
pair (k, v) = list (cons (string k) (cons v nil))

abbrev or_null : Option Value → Value
or_null none = null
or_null (some v) = v

-- `list.get(index as usize)`: a negative index is beyond every list.
index : List Value → ℤ → Value
index vs (pos i) = or_null (get_elem? vs i)
index vs (negsuc i) = null

-- The two arguments of `replace`
abbrev two_integers : List Value → Option (ℤ × ℤ)
two_integers (integer v ∷ integer r ∷ []) = some (v, r)
two_integers _ = none

abbrev two_values : List Value → Option (Value × Value)
two_values (v ∷ w ∷ []) = some (v, w)
two_values _ = none

module _ (h : Host) where
  open h use {
    of_i64, to_i64, f64_abs, f64_ceil, f64_floor, f64_round, f64_print, is_numeric, char_upper,
    str_upper, str_lower,
  }

  replace_digits : ℤ → Option (ℤ × ℤ) → Result Value
  unfolding replace print_i64 parse_i64
  replace_digits i none = err (runtime (codes "replace on integers only accepts integer arguments"))
  replace_digits i (some (v, r)) =
      let result = replace (print_i64 v) (print_i64 r) (print_i64 i) in
      elim (parse_i64 result) [
        | some n ↦ ok (integer n)
        | none ↦ err (runtime (codes "integer overflow: " ++ result))
      ]

  unfoldable pub call_integer : ℤ → Text → List Value → Result Value
  unfolding named checked print_i64 range_from replace_digits of_list
  call_integer i m args =
      if named m (codes "abs" ∷ [])
      then (do ok (integer (← checked h (if ltb_ℤ i (pos 0) then sub_ℕ (neg_part i) 0 else i))))
      else if named m (codes "to_string" ∷ codes "to_s" ∷ [])
      then ok (string (print_i64 i))
      else if named m (codes "to_f" ∷ codes "to_float" ∷ [])
      then ok (float (of_i64 i))
      else if named m (codes "clamp_zero" ∷ [])
      then ok (integer (if ltb_ℤ i (pos 0) then pos 0 else i))
      else if named m (codes "clamp_one" ∷ [])
      then ok (integer (if ltb_ℤ i (pos 1) then pos 1 else i))
      else if named m (codes "times" ∷ [])
      then ok (list (of_list (range_from 0 (pos_part i))))
      else if named m (codes "replace" ∷ codes "sub" ∷ [])
      then replace_digits i (two_integers args)
      else err (unknown_method m "integer")

  unfoldable pub call_float : ℕ → Text → Result Value
  unfolding named
  call_float f m =
      if named m (codes "abs" ∷ [])
      then ok (float (f64_abs f))
      else if named m (codes "ceil" ∷ [])
      then ok (float (f64_ceil f))
      else if named m (codes "floor" ∷ [])
      then ok (float (f64_floor f))
      else if named m (codes "round" ∷ [])
      then ok (float (f64_round f))
      else if named m (codes "to_string" ∷ codes "to_s" ∷ [])
      then ok (string (f64_print f))
      else if named m (codes "to_i" ∷ codes "to_integer" ∷ [])
      then ok (integer (to_i64 f))
      else err (unknown_method m "float")

  unfoldable replace_text : Text → Option (Value × Value) → Result Value
  unfolding to_string replace
  replace_text s none = err (runtime (codes "replace takes two arguments: value and replacement"))
  replace_text s (some (v, r)) = ok (string (replace (to_string h v) (to_string h r) s))

  unfoldable pub call_string : Text → Text → List Value → Result Value
  unfolding named trim capitalize pascal_case snake_case title_case urlencode urldecode utf8_len
      safe_html replace_char replace_text
  call_string s m args =
      if named m (codes "to_uppercase" ∷ codes "upcase" ∷ [])
      then ok (string (str_upper s))
      else if named m (codes "to_lowercase" ∷ codes "downcase" ∷ [])
      then ok (string (str_lower s))
      else if named m (codes "trim" ∷ [])
      then ok (string (trim s))
      else if named m (codes "capitalize" ∷ [])
      then ok (string (capitalize char_upper s))
      else if named m (codes "camelize" ∷ codes "to_PascalCase" ∷ [])
      then ok (string (pascal_case char_upper s))
      else if named m (codes "underscore" ∷ codes "to_snake_case" ∷ [])
      then ok (string (snake_case s))
      else if named m (codes "title" ∷ [])
      then ok (string (title_case char_upper s))
      else if named m (codes "urlencode" ∷ [])
      then ok (string (urlencode s))
      else if named m (codes "urldecode" ∷ [])
      then ok (string (urldecode is_numeric s))
      else if named m (codes "len" ∷ [])
      then ok (integer (pos (utf8_len s)))
      else if named m (codes "is_empty" ∷ codes "blank" ∷ codes "empty" ∷ [])
      then ok (boolean (is_empty s))
      else if named m (codes "br" ∷ [])
      then ok (safe_string (replace_char b'\n' (codes "<br>") (safe_html s)))
      else if named m (codes "replace" ∷ codes "sub" ∷ [])
      then replace_text s (two_values args)
      else err (unknown_method m "string")

  unfoldable pub call_safe_string : Text → Text → Result Value
  unfolding named
  call_safe_string s m =
      if named m (codes "to_s" ∷ codes "to_string" ∷ [])
      then ok (string s)
      else err (unknown_method m "safe_string")

  contains : List Value → List Value → Bool
  unfolding value_eq
  contains vs (needle ∷ []) = any (λ v. value_eq h v needle) vs
  contains vs _ = false

  call_named : List Value → Text → List Value → Result Value
  unfolding named enumerate_from flatten_items contains of_list
  call_named vs m args =
      if named m (codes "enumerate" ∷ [])
      then ok (list (of_list (enumerate_from 0 vs)))
      else if named m (codes "flatten" ∷ [])
      then ok (list (of_list (flatten_items vs)))
      else if named m (codes "reverse" ∷ codes "rev" ∷ [])
      then ok (list (of_list (reverse vs)))
      else if named m (codes "contains" ∷ [])
      then ok (boolean (contains vs args))
      else if named m (codes "empty" ∷ codes "blank" ∷ codes "is_empty" ∷ [])
      then ok (boolean (is_empty vs))
      else if named m (codes "len" ∷ [])
      then ok (integer (pos (length vs)))
      else err (unknown_method m "list")

  unfoldable pub call_list : List Value → Text → List Value → Result Value
  unfolding index parse_i64 call_named
  call_list vs m args = elim (parse_i64 m) [
    | some i ↦ ok (index vs i)
    | none ↦ call_named vs m args
  ]

  unfoldable pub call_hash : Entries → Text → Result Value
  unfolding named to_entries of_list pair get
  call_hash es m =
      if named m (codes "keys" ∷ [])
      then ok (list (of_list (map (λ e. string e.0) (to_entries es))))
      else if named m (codes "values" ∷ [])
      then ok (list (of_list (map (λ e. e.1) (to_entries es))))
      else if named m (codes "iter" ∷ [])
      then ok (list (of_list (map pair (to_entries es))))
      else if named m (codes "empty" ∷ codes "blank" ∷ codes "is_empty" ∷ [])
      then ok (boolean (is_empty (to_entries es)))
      else ok (or_null (get m es))
