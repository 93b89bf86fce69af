-- ===== src/Prelude/Text/Digits.antt =====
-- Numbers that are printed and parsed again.
use Prim.Native.Nat.{ℕ, zero, suc, ◌+◌, ◌-◌, ◌*◌, ◌/◌, ◌%◌, ◌≤◌, ◌<◌}
use mathlib.Core.Path.{◌≡◌, refl, subst, ◌∙◌, ap}
use mathlib.Core.Bool.{Bool, true, false}
use mathlib.Core.List.{[], ◌∷◌, ◌++◌}
use mathlib.Core.Logic.{inl, inr}
use mathlib.Core.Option.{none, some}
use native.Mathlib.Omega.{arith}
use rwf.Prelude.Int.{pos, i64_max}
use rwf.Prelude.Lists.{all, any}
use rwf.Prelude.Tests.{ltb, ◌==◌, Bool-cases, ==→eq}
use rwf.Prelude.Text.{
  Text, is_digit, digits_from, parse_i64, print_nat_from, print_nat, positive, codes, replace,
  replace_from, starts_with,
}
use rwf.Prelude.Text.Splits.{lacks}

push_digit :
    (m d : ℕ) (out : Text)
    → d < 10
    → digits_from m ((b'0' + d) ∷ out) ≡ digits_from (m * 10 + d) out
unfolding digits_from is_digit
push_digit m d out h =
    let digit : is_digit (b'0' + d) ≡ true = ground arith in
    let value : m * 10 + (b'0' + d - b'0') ≡ m * 10 + d = omega arith in rw (digit, value) refl

digits_from-print_nat_from :
    (f n : ℕ) (out : Text) → n < f → digits_from 0 (print_nat_from f n out) ≡ digits_from n out
unfolding print_nat_from
digits_from-print_nat_from zero n out h = absurd (omega arith)
digits_from-print_nat_from (suc f) n out h = elim (Bool-cases (ltb n 10)) [
  | inl small ↦
      let value : 0 * 10 + n ≡ n = omega arith in
      rw small (push_digit 0 n out (ground arith) ∙ ap (λ k. digits_from k out) value)
  | inr large ↦
      let value : n / 10 * 10 + n % 10 ≡ n = omega arith in
      rw large (
        digits_from-print_nat_from f (n / 10) ((b'0' + n % 10) ∷ out) (ground arith)
        ∙ push_digit (n / 10) (n % 10) out (omega arith)
        ∙ ap (λ k. digits_from k out) value)
]

print_nat_from-digits :
    (f n : ℕ) (out : Text)
    → n < f
    → all is_digit out ≡ true
    → all is_digit (print_nat_from f n out) ≡ true
unfolding print_nat_from is_digit
print_nat_from-digits zero n out h k = absurd (omega arith)
print_nat_from-digits (suc f) n out h k = elim (Bool-cases (ltb n 10)) [
  | inl small ↦ rw small (ground (arith, k))
  | inr large ↦
      rw large (
        print_nat_from-digits f (n / 10) ((b'0' + n % 10) ∷ out) (ground arith) (ground (arith, k)))
]

pub print_nat-digits : (n : ℕ) → all is_digit (print_nat n) ≡ true
unfolding print_nat
print_nat-digits n = print_nat_from-digits (suc n) n [] (omega arith) refl

print_nat_from-cons :
    (f n : ℕ) (out : Text) → n < f → (c : ℕ) × (s : Text) × (print_nat_from f n out ≡ c ∷ s)
unfolding print_nat_from
print_nat_from-cons zero n out h = absurd (omega arith)
print_nat_from-cons (suc f) n out h = elim (Bool-cases (ltb n 10)) [
  | inl small ↦ rw small (b'0' + n, out, refl)
  | inr large ↦ rw large (print_nat_from-cons f (n / 10) ((b'0' + n % 10) ∷ out) (ground arith))
]

pub print_nat-cons : (n : ℕ) → (c : ℕ) × (s : Text) × (print_nat n ≡ c ∷ s)
unfolding print_nat
print_nat-cons n = print_nat_from-cons (suc n) n [] (omega arith)

-- A text that begins with a digit is read as a number without a sign.
parse_i64-unsigned :
    (c : ℕ) (s : Text) → is_digit c ≡ true → parse_i64 (c ∷ s) ≡ positive (digits_from 0 (c ∷ s))
unfolding parse_i64
parse_i64-unsigned c s h =
    let minus : (c == b'-') ≡ false = unfold is_digit in ground arith in
    let plus : (c == b'+') ≡ false = unfold is_digit in ground arith in rw (minus, plus) refl

pub parse_i64-print_nat : (n : ℕ) → n ≤ i64_max → parse_i64 (print_nat n) ≡ some (pos n)
unfolding digits_from
parse_i64-print_nat n h =
    let (c, s, e) = print_nat-cons n in
    let digit : is_digit c ≡ true =
      ground (arith, subst (λ t. all is_digit t ≡ true) e (print_nat-digits n)) in
    let value : digits_from 0 (c ∷ s) ≡ some n =
      subst (λ t. digits_from 0 t ≡ some n) e
        (unfold print_nat in digits_from-print_nat_from (suc n) n [] (omega arith)) in
    rw (e, parse_i64-unsigned c s digit, value) (ground arith)

digits_from-stop :
    (m : ℕ) (s t : Text) (sep : ℕ) → is_digit sep ≡ false → digits_from m (s ++ sep ∷ t) ≡ none
unfolding digits_from
digits_from-stop m [] t sep h = rw h refl
digits_from-stop m (c ∷ s) t sep h = elim (Bool-cases (is_digit c)) [
  | inl digit ↦ rw digit (digits_from-stop (m * 10 + (c - b'0')) s t sep h)
  | inr other ↦ rw other refl
]

-- A number with a character behind it that is no digit is not read.
pub parse_i64-stop :
    (n : ℕ) (t : Text) (sep : ℕ) → is_digit sep ≡ false → parse_i64 (print_nat n ++ sep ∷ t) ≡ none
parse_i64-stop n t sep h =
    let (c, s, e) = print_nat-cons n in
    let digit : is_digit c ≡ true =
      ground (arith, subst (λ t. all is_digit t ≡ true) e (print_nat-digits n)) in
    let stop : digits_from 0 (c ∷ s ++ sep ∷ t) ≡ none = digits_from-stop 0 (c ∷ s) t sep h in
    rw (e, parse_i64-unsigned c (s ++ sep ∷ t) digit, stop) refl

-- What is no digit does not stand in a number.
pub print_nat-lacks : (sep n : ℕ) → is_digit sep ≡ false → lacks sep (print_nat n) ≡ true
print_nat-lacks sep n h = all_lack (print_nat n) (print_nat-digits n)
  where
    all_lack : (s : Text) → all is_digit s ≡ true → lacks sep s ≡ true
    all_lack [] k = refl
    all_lack (c ∷ s) k = elim (Bool-cases (c == sep)) [
      | inl hit ↦
          let same : c ≡ sep = ==→eq c sep hit in
          let digit : is_digit c ≡ true = ground (arith, k) in
          absurd (ground (arith, h, subst (λ d. is_digit d ≡ true) same digit))
      | inr miss ↦ ground (arith, miss, k, all_lack s (ground (arith, k)))
    ]

replace_from-digits : (s : Text) → all is_digit s ≡ true → replace_from (codes "*/") [] zero s ≡ s
unfolding replace_from starts_with
replace_from-digits [] h = refl
replace_from-digits (c ∷ s) h =
    let star : (c == b'*') ≡ false = unfold is_digit in ground arith in
    rw star (ap (λ t. c ∷ t) (replace_from-digits s (ground (arith, h))))

-- The number behind `*/`
pub replace-digits :
    (s : Text) → all is_digit s ≡ true → replace (codes "*/") [] (codes "*/" ++ s) ≡ s
unfolding replace replace_from starts_with
replace-digits s h = replace_from-digits s h

pub any-append : (p : ℕ → Bool) (s t : Text) → any p t ≡ true → any p (s ++ t) ≡ true
any-append p [] t h = h
any-append p (c ∷ s) t h = ground (arith, any-append p s t h)
