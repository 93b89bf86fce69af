-- ===== src/Job/Cron/Schedule.antt =====
-- Whole schedules in the UNIX syntax, and when they run.
use rwf.Prelude.{
  ℕ, Option, none, some, List, [], ◌∷◌, Bool, true, false, ◌&&◌, ◌==◌, All, if◌then◌else◌, ◌≡◌,
  refl, ◌∙◌, ap, arith,
}
use rwf.Prelude.Int.{pos}
use rwf.Prelude.Text.{Text, codes, split, join}
use rwf.Prelude.Text.Splits.{lacks, split-join}
use rwf.Prelude.Outcome.{Outcome, ok, ◌>>=◌}
use rwf.Job.Cron.{
  Error, CronValue, exact, Cron, Instant, parse_value, matches, of_parts, parse, both, should_run,
}
use rwf.Job.Cron.Fields.{
  Field, IsField, print_field, includes, value_of, parse_value-print_field, matches-value_of,
  print_field-lacks,
}

-- The fields of a schedule; the seconds may be left out.
pub record Schedule : Type 0 where
  pub second : Option Field
  pub minute : Field
  pub hour : Field
  pub day : Field
  pub month : Field
  pub weekday : Field

abbrev IsSecond : Option Field → Type 0
IsSecond none = Unit
IsSecond (some f) = IsField f

pub record IsSchedule (s : Schedule) : Type 0 where
  pub second_bounds : IsSecond s.second
  pub minute_bounds : IsField s.minute
  pub hour_bounds : IsField s.hour
  pub day_bounds : IsField s.day
  pub month_bounds : IsField s.month
  pub weekday_bounds : IsField s.weekday

abbrev later_fields : Schedule → List Text
later_fields s =
    print_field s.minute
    ∷ print_field s.hour
    ∷ print_field s.day
    ∷ print_field s.month
    ∷ print_field s.weekday
    ∷ []

abbrev fields : Option Field → List Text → List Text
fields none ts = ts
fields (some f) ts = print_field f ∷ ts

unfoldable pub print_schedule : Schedule → Text
print_schedule s = join (codes " ") (fields s.second (later_fields s))

abbrev second_value : Option Field → CronValue
second_value none = exact (pos 0)
second_value (some f) = value_of f

abbrev cron_of : Schedule → Cron
cron_of s = record {
  second = second_value s.second;
  minute = value_of s.minute;
  hour = value_of s.hour;
  dom = value_of s.day;
  month = value_of s.month;
  dow = value_of s.weekday;
}

abbrev includes_second : Option Field → ℕ → Bool
includes_second none t = t == 0
includes_second (some f) t = includes f t

-- Whether all fields of a schedule include those of an instant
unfoldable pub includes_instant : Schedule → Instant → Bool
includes_instant s t =
    includes_second s.second t.second
    && (includes s.minute t.minute
        && (includes s.hour t.hour
            && (includes s.day t.day
                && (includes s.month t.month && includes s.weekday t.weekday))))

later-lack : (s : Schedule) → All (λ t. lacks b' ' t ≡ true) (later_fields s)
later-lack s = (
  print_field-lacks s.minute,
  (
    print_field-lacks s.hour,
    (print_field-lacks s.day, (print_field-lacks s.month, (print_field-lacks s.weekday, tt))),
  ),
)

parse-parts : (t : Text) (ts : List Text) → split b' ' t ≡ ts → parse t ≡ of_parts ts
parse-parts t ts h = unfold parse in rw h refl

module _ (s : Schedule) (h : IsSchedule s) where
  minute : parse_value (print_field s.minute) ≡ ok (value_of s.minute)
  minute = parse_value-print_field s.minute h.minute_bounds

  hour : parse_value (print_field s.hour) ≡ ok (value_of s.hour)
  hour = parse_value-print_field s.hour h.hour_bounds

  day : parse_value (print_field s.day) ≡ ok (value_of s.day)
  day = parse_value-print_field s.day h.day_bounds

  month : parse_value (print_field s.month) ≡ ok (value_of s.month)
  month = parse_value-print_field s.month h.month_bounds

  weekday : parse_value (print_field s.weekday) ≡ ok (value_of s.weekday)
  weekday = parse_value-print_field s.weekday h.weekday_bounds

  parse-fields :
      (o : Option Field)
      → IsSecond o
      → parse (join (codes " ") (fields o (later_fields s)))
        ≡ ok (cron_of (record s { second = o }))
  parse-fields none k =
      parse-parts _ (later_fields s)
        (split-join b' ' (print_field s.minute) _ (print_field-lacks s.minute) (later-lack s).1)
      ∙ (rw (minute, hour, day, month, weekday) refl)
  parse-fields (some f) k =
      parse-parts _ (print_field f ∷ later_fields s)
        (split-join b' ' (print_field f) (later_fields s) (print_field-lacks f) (later-lack s))
      ∙ (rw (parse_value-print_field f k, minute, hour, day, month, weekday) refl)

  parse-print_schedule : parse (print_schedule s) ≡ ok (cron_of s)
  parse-print_schedule = unfold print_schedule in parse-fields s.second h.second_bounds

both-ok : (a b : Bool) → both (ok a) (ok b) ≡ ok (a && b)
both-ok true b = refl
both-ok false b = refl

if-ok :
    (a : Bool) (x : Outcome Error Bool) (b : Bool)
    → x ≡ ok b
    → (if a then x else ok false) ≡ ok (a && b)
if-ok true x b h = h
if-ok false x b h = refl

should_run-cron_of :
    (s : Schedule) (t : Instant)
    → IsSchedule s
    → should_run (cron_of s) t ≡ ok (includes_instant s t)
unfolding should_run includes_instant
should_run-cron_of s t h =
    rw
      (
        second s.second h.second_bounds,
        matches-value_of s.minute t.minute h.minute_bounds,
        matches-value_of s.hour t.hour h.hour_bounds,
        matches-value_of s.day t.day h.day_bounds,
        matches-value_of s.month t.month h.month_bounds,
        matches-value_of s.weekday t.weekday h.weekday_bounds,
        both-ok (includes s.month t.month) (includes s.weekday t.weekday),
      )
      (if-ok (includes_second s.second t.second) _ _ (
        if-ok (includes s.minute t.minute) _ _
          (if-ok (includes s.hour t.hour) _ _ (if-ok (includes s.day t.day) _ _ refl))))
  where
    second :
        (o : Option Field)
        → IsSecond o
        → matches (second_value o) t.second ≡ ok (includes_second o t.second)
    second none k = ap ok (ground arith)
    second (some f) k = matches-value_of f t.second k

-- A schedule in the UNIX syntax, of five fields or six, whose numbers are within an i64 and whose
-- steps are not 0, is read, and runs exactly when each field includes that of the instant: a number
-- itself, a step its multiples, a range the numbers from its start up to but without its end;
-- without the field of the seconds at second 0 only.
pub should_run-print_schedule :
    (s : Schedule) (t : Instant)
    → IsSchedule s
    → (parse (print_schedule s) >>= λ c. should_run c t) ≡ ok (includes_instant s t)
should_run-print_schedule s t h = rw (parse-print_schedule s h) (should_run-cron_of s t h)
