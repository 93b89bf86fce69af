-- ===== src/Template/Value/Arith.antt =====
-- `add`, `sub`, `mul` and `div` of lexer/value.rs. On i64 an overflow panics or wraps, as the build
-- profile says; a division by zero, or with an overflow, always panics.
use rwf.Prelude.{ℕ, zero, suc, ◌*◌, List, [], ◌∷◌, ◌++◌, ltb, is_empty, if◌then◌else◌}
use rwf.Prelude.Int.{ℤ, pos, negsuc, ◌+ℤ◌, ◌-ℤ◌, ◌*ℤ◌, ◌/ℤ◌, fits_i64, wrap_i64, i64_max, eqb_ℤ}
use rwf.Prelude.Text.{Text, replace, repeat, utf8_len, print_i64}
use rwf.Prelude.Outcome.{ok, panic, ◌>>=◌}
use rwf.Template.Value.{
  Value, Values, integer, float, string, list, null, nil, cons, to_list, of_list,
}
use rwf.Template.Token.{Result}
use rwf.Template.Host.{Host}
use rwf.Template.Value.Compare.{value_eq}

-- `Vec::repeat` as the loop `for _ in 0..n { new_list.extend(list) }`
copies : ℕ → List Value → List Value
copies zero l = []
copies (suc n) l = l ++ copies n l

abbrev count_of : ℤ → ℕ
count_of (pos n) = n
count_of (negsuc n) = 0

module _ (h : Host) where
  open h use {overflow_checks, of_i64, f64_add, f64_sub, f64_mul, f64_div, f64_print}

  -- The result of an arithmetic operation on i64
  unfoldable pub checked : ℤ → Result ℤ
  unfolding wrap_i64
  checked z = if fits_i64 z then ok z else if overflow_checks then panic else ok (wrap_i64 z)

  unfoldable pub add : Value → Value → Result Value
  unfolding checked to_list of_list print_i64 ◌+ℤ◌
  add (integer i) (integer j) = do ok (integer (← checked (i +ℤ j)))
  add (integer i) (float g) = ok (float (f64_add (of_i64 i) g))
  add (float f) (integer j) = ok (float (f64_add f (of_i64 j)))
  add (float f) (float g) = ok (float (f64_add f g))
  add (string s) (string t) = ok (string (s ++ t))
  add (string s) (integer j) = ok (string (s ++ print_i64 j))
  add (integer i) (string t) = ok (string (print_i64 i ++ t))
  add (string s) (float g) = ok (string (s ++ f64_print g))
  add (float f) (string t) = ok (string (f64_print f ++ t))
  add (list l) v = ok (list (of_list (to_list l ++ v ∷ [])))
  add v (list l) = ok (list (cons v l))
  add _ _ = ok null

  -- `list.retain(|v| v != other)`
  without : Value → Values → Values
  unfolding value_eq
  without w nil = nil
  without w (cons v vs) = let rest = without w vs in if value_eq h v w then rest else cons v rest

  unfoldable pub sub : Value → Value → Result Value
  unfolding checked replace without ◌-ℤ◌
  sub (integer i) (integer j) = do ok (integer (← checked (i -ℤ j)))
  sub (integer i) (float g) = ok (float (f64_sub (of_i64 i) g))
  sub (float f) (integer j) = ok (float (f64_sub f (of_i64 j)))
  sub (float f) (float g) = ok (float (f64_sub f g))
  sub (string s) (string t) = ok (string (replace t [] s))
  sub (list l) v = ok (list (without v l))
  sub _ _ = ok null

  quotient : ℤ → ℤ → Result ℤ
  unfolding ◌/ℤ◌
  quotient i j = if eqb_ℤ j (pos 0) then panic else if fits_i64 (i /ℤ j) then ok (i /ℤ j) else panic

  unfoldable pub div : Value → Value → Result Value
  unfolding quotient
  div (integer i) (integer j) = do ok (integer (← quotient i j))
  div (integer i) (float g) = ok (float (f64_div (of_i64 i) g))
  div (float f) (integer j) = ok (float (f64_div f (of_i64 j)))
  div (float f) (float g) = ok (float (f64_div f g))
  div _ _ = ok null

  -- `s.repeat(n as usize)`: a negative count is a huge one, and a text of more than isize::MAX bytes
  -- panics.
  repeat_text : Text → ℤ → Result Value
  unfolding repeat utf8_len
  repeat_text s (pos n) =
      if is_empty s
      then ok (string [])
      else let text = repeat n s in if ltb i64_max (utf8_len s * n) then panic else ok (string text)
  repeat_text s (negsuc n) = if is_empty s then ok (string []) else panic

  unfoldable pub mul : Value → Value → Result Value
  unfolding checked repeat_text copies to_list of_list ◌*ℤ◌
  mul (integer i) (integer j) = do ok (integer (← checked (i *ℤ j)))
  mul (integer i) (float g) = ok (float (f64_mul (of_i64 i) g))
  mul (float f) (integer j) = ok (float (f64_mul f (of_i64 j)))
  mul (float f) (float g) = ok (float (f64_mul f g))
  mul (string s) (integer j) = repeat_text s j
  mul (integer i) (string s) = repeat_text s i
  mul (list l) (integer j) = ok (list (of_list (copies (count_of j) (to_list l))))
  mul _ _ = ok null
