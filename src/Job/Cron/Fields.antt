-- ===== src/Job/Cron/Fields.antt =====
-- Schedules written in the UNIX syntax, and when they run.
use rwf.Prelude.{
  ℕ, ◌+◌, ◌%◌, ◌≤◌, ◌<◌, none, some, ◌∷◌, ◌++◌, Bool, true, false, not, ◌&&◌, ◌==◌, ltb, leb, all,
  any, ◌≡◌, refl, subst, ◌∙◌, ap, arith,
}
use rwf.Prelude.Int.{ℤ, pos, i64_max}
use rwf.Prelude.Text.{Text, codes, is_digit, parse_i64, print_nat, starts_with}
use rwf.Prelude.Text.Digits.{
  parse_i64-print_nat, parse_i64-stop, print_nat-lacks, print_nat-digits, print_nat-cons,
  replace-digits, any-append,
}
use rwf.Prelude.Text.Splits.{lacks, split-pair, all-append}
use rwf.Prelude.Outcome.{ok}
use rwf.Job.Cron.{CronValue, exact, every, range, any_value, parse_value, parse_other, matches}

-- A number, every so many, from one up to another, or any
pub data Field : Type 0 where
  at step : ℕ → Field
  between : ℕ → ℕ → Field
  anytime : Field

-- The numbers are in the bounds of an i64, and no step is 0.
abbrev pub IsField : Field → Type 0
IsField (at n) = n ≤ i64_max
IsField (step n) = (0 < n) × (n ≤ i64_max)
IsField (between a b) = (a ≤ i64_max) × (b ≤ i64_max)
IsField anytime = Unit

unfoldable pub print_field : Field → Text
print_field (at n) = print_nat n
print_field (step n) = codes "*/" ++ print_nat n
print_field (between a b) = print_nat a ++ b'-' ∷ print_nat b
print_field anytime = codes "*"

-- Whether a field includes a number; the end of a range is left out.
unfoldable pub includes : Field → ℕ → Bool
includes (at n) t = t == n
includes (step n) t = t % n == 0
includes (between a b) t = leb a t && ltb t b
includes anytime t = true

pub value_of : Field → CronValue
value_of (at n) = exact (pos n)
value_of (step n) = every (pos n)
value_of (between a b) = range (pos a) (pos b)
value_of anytime = any_value

no_star : (n : ℕ) (t : Text) → starts_with (print_nat n ++ t) (codes "*/") ≡ false
no_star n t =
    let (c, s, e) = print_nat-cons n in
    let digit : is_digit c ≡ true =
      ground (arith, subst (λ t. all is_digit t ≡ true) e (print_nat-digits n)) in
    let star : (c == b'*') ≡ false = unfold is_digit in ground arith in
    rw e (unfold starts_with in rw star refl)

parse_value-number : (s : Text) (v : ℤ) → parse_i64 s ≡ some v → parse_value s ≡ ok (exact v)
unfolding parse_value
parse_value-number s v h = rw (h, parse_value) refl

parse_value-other : (s : Text) → parse_i64 s ≡ none → parse_value s ≡ parse_other s
unfolding parse_value parse_other
parse_value-other s h = rw (h, parse_value) refl

parse_other-step :
    (n : ℕ) → n ≤ i64_max → parse_other (codes "*/" ++ print_nat n) ≡ ok (every (pos n))
unfolding parse_other
parse_other-step n h =
    rw (replace-digits (print_nat n) (print_nat-digits n), parse_i64-print_nat n h) refl

parse_other-range :
    (a b : ℕ)
    → a ≤ i64_max
    → b ≤ i64_max
    → parse_other (print_nat a ++ b'-' ∷ print_nat b) ≡ ok (range (pos a) (pos b))
unfolding parse_other
parse_other-range a b ha hb =
    let dash : any (λ c. c == b'-') (print_nat a ++ b'-' ∷ print_nat b) ≡ true =
      any-append (λ c. c == b'-') (print_nat a) (b'-' ∷ print_nat b) refl in
    let parts =
      split-pair b'-' (print_nat a) (print_nat b) (print_nat-lacks b'-' a (unfold is_digit in refl))
        (print_nat-lacks b'-' b (unfold is_digit in refl)) in
    rw
      (
        no_star a (b'-' ∷ print_nat b),
        dash,
        parts,
        parse_i64-print_nat a ha,
        parse_i64-print_nat b hb,
      )
      refl

pub parse_value-print_field :
    (f : Field) → IsField f → parse_value (print_field f) ≡ ok (value_of f)
unfolding print_field value_of
parse_value-print_field (at n) h =
    parse_value-number (print_nat n) (pos n) (parse_i64-print_nat n h)
parse_value-print_field (step n) (positive, h) =
    parse_value-other (codes "*/" ++ print_nat n) (unfold parse_i64 in refl) ∙ parse_other-step n h
parse_value-print_field (between a b) (ha, hb) =
    parse_value-other (print_nat a ++ b'-' ∷ print_nat b)
      (parse_i64-stop a (print_nat b) b'-' (unfold is_digit in refl))
    ∙ parse_other-range a b ha hb
parse_value-print_field anytime h = unfold parse_value in refl

pub matches-value_of : (f : Field) (t : ℕ) → IsField f → matches (value_of f) t ≡ ok (includes f t)
unfolding matches value_of includes
matches-value_of (at n) t h = ap ok (ground arith)
matches-value_of (step n) t (h, k) =
    let whole : n + 0 ≡ n = omega arith in
    let positive : (n == 0) ≡ false = ground arith in rw (whole, positive) refl
matches-value_of (between a b) t h = ap ok (ground arith)
matches-value_of anytime t h = refl

pub print_field-lacks : (f : Field) → lacks b' ' (print_field f) ≡ true
unfolding print_field
print_field-lacks (at n) = print_nat-lacks b' ' n (unfold is_digit in refl)
print_field-lacks (step n) = print_nat-lacks b' ' n (unfold is_digit in refl)
print_field-lacks (between a b) =
    all-append (λ c. not (c == b' ')) (print_nat a) (b'-' ∷ print_nat b)
      (print_nat-lacks b' ' a (unfold is_digit in refl))
      (print_nat-lacks b' ' b (unfold is_digit in refl))
print_field-lacks anytime = refl
