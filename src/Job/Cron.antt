-- ===== src/Job/Cron.antt =====
-- The schedules of jobs, rwf/src/job/cron.rs. An instant is what the schedule reads of it.
pub mod Fields
pub mod Schedule
mod Tests
use rwf.Prelude.{
  ℕ, ◌+◌, ◌%◌, Option, none, some, List, [], ◌∷◌, Bool, true, false, ◌==◌, any, if◌then◌else◌,
}
use rwf.Prelude.Int.{ℤ, pos, ltb_ℤ, eqb_ℤ, pos_part, neg_part}
use rwf.Prelude.Text.{Text, codes, text_eq, parse_i64, split, replace, starts_with}
use rwf.Prelude.Outcome.{Outcome, ok, err, panic, ◌>>=◌}

pub data Error : Type 0 where
  cron_value_error : Error

pub data CronValue : Type 0 where
  exact every : ℤ → CronValue
  range : (start end : ℤ) → CronValue
  any_value : CronValue

pub record Cron : Type 0 where
  pub second : CronValue
  pub minute : CronValue
  pub hour : CronValue
  pub dom : CronValue
  pub month : CronValue
  pub dow : CronValue

-- What `should_run` reads of an instant; the weekday is numbered from Sunday, which is 1.
pub record Instant : Type 0 where
  pub second : ℕ
  pub minute : ℕ
  pub hour : ℕ
  pub day : ℕ
  pub month : ℕ
  pub weekday : ℕ

abbrev every_of : Option ℤ → Outcome Error CronValue
every_of none = err cron_value_error
every_of (some v) = ok (every v)

abbrev range_of : Option ℤ → Option ℤ → Outcome Error CronValue
range_of (some a) (some b) = ok (range a b)
range_of _ _ = err cron_value_error

abbrev range_parts : List Text → Outcome Error CronValue
range_parts (a ∷ b ∷ []) = range_of (parse_i64 a) (parse_i64 b)
range_parts parts = err cron_value_error

-- What is no number
pub parse_other : Text → Outcome Error CronValue
unfolding starts_with replace parse_i64 split text_eq
parse_other s =
    if starts_with s (codes "*/")
    then every_of (parse_i64 (replace (codes "*/") [] s))
    else if any (λ c. c == b'-') s
    then range_parts (split b'-' s)
    else if text_eq s (codes "*")
    then ok any_value
    else err cron_value_error

-- `CronValue::parse`
pub parse_value : Text → Outcome Error CronValue
unfolding parse_i64 parse_other
parse_value s = elim (parse_i64 s) [ some v ↦ ok (exact v) | none ↦ parse_other s ]

-- `CronValue::matches`, at a time that is not negative; the remainder by 0 panics.
pub matches : CronValue → ℕ → Outcome Error Bool
matches (exact v) time = ok (eqb_ℤ v (pos time))
matches (every v) time =
    let size = pos_part v + neg_part v in if size == 0 then panic else ok (time % size == 0)
matches (range a b) time = ok (if ltb_ℤ (pos time) a then false else ltb_ℤ (pos time) b)
matches any_value time = ok true

abbrev pub of_parts : List Text → Outcome Error Cron
of_parts (s ∷ m ∷ h ∷ d ∷ o ∷ w ∷ []) = do
  second ← parse_value s
  minute ← parse_value m
  hour ← parse_value h
  dom ← parse_value d
  month ← parse_value o
  dow ← parse_value w
  ok (record { second = second; minute = minute; hour = hour; dom = dom; month = month; dow = dow })
of_parts (m ∷ h ∷ d ∷ o ∷ w ∷ []) = do
  minute ← parse_value m
  hour ← parse_value h
  dom ← parse_value d
  month ← parse_value o
  dow ← parse_value w
  ok (record {
    second = exact (pos 0);
    minute = minute;
    hour = hour;
    dom = dom;
    month = month;
    dow = dow;
  })
of_parts parts = err cron_value_error

-- `Cron::parse`
pub parse : Text → Outcome Error Cron
unfolding split parse_value
parse s = of_parts (split b' ' s)

-- `&&` of calls that may panic
abbrev pub both : Outcome Error Bool → Outcome Error Bool → Outcome Error Bool
both a b = a >>= λ x. if x then b else ok false

-- `Cron::should_run`
pub should_run : Cron → Instant → Outcome Error Bool
unfolding matches
should_run c t = both (matches c.second t.second) (
    both (matches c.minute t.minute) (
      both (matches c.hour t.hour)
        (both (matches c.dom t.day) (both (matches c.month t.month) (matches c.dow t.weekday)))))
