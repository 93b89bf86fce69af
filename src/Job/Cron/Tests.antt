-- ===== src/Job/Cron/Tests.antt =====
-- Schedules at fixed texts.
use rwf.Prelude.{none, true, false, ◌≡◌, refl, arith}
use rwf.Prelude.Int.{pos}
use rwf.Prelude.Text.{codes, join, print_nat}
use rwf.Prelude.Outcome.{ok, err, panic, ◌>>=◌}
use rwf.Job.Cron.{Instant, cron_value_error, every, parse, parse_value, matches, should_run}
use rwf.Job.Cron.Fields.{at, step, between, anytime, print_field, includes}
use rwf.Job.Cron.Schedule.{
  Schedule, IsSchedule, print_schedule, includes_instant, should_run-print_schedule,
}

-- The end of a range is left out.
range_sample : (parse_value (codes "7-8") >>= λ v. matches v 8) ≡ ok false
unfolding parse_value matches
range_sample = refl

-- A step of 0 is read, and panics when it is matched.
zero_step_sample : (parse_value (codes "*/0") >>= λ v. matches v 8) ≡ panic
unfolding parse_value matches
zero_step_sample = refl

twice_sample : parse_value (codes "*/*/5") ≡ ok (every (pos 5))
unfolding parse_value
twice_sample = refl

list_sample : parse (codes "1,2 * * * *") ≡ err cron_value_error
unfolding parse
list_sample = refl

abbrev mornings : Schedule
mornings = record {
  second = none;
  minute = step 15;
  hour = between 7 9;
  day = anytime;
  month = at 3;
  weekday = anytime;
}

mornings-IsSchedule : IsSchedule mornings
mornings-IsSchedule = record {
  second_bounds = tt;
  minute_bounds = (omega arith, omega arith);
  hour_bounds = (omega arith, omega arith);
  day_bounds = tt;
  month_bounds = omega arith;
  weekday_bounds = tt;
}

print_sample : print_schedule mornings ≡ codes "*/15 7-9 * 3 *"
unfolding print_schedule print_field join print_nat
print_sample = refl

abbrev instant : Instant
instant = record { second = 0; minute = 30; hour = 8; day = 12; month = 3; weekday = 1 }

should_run-print_schedule_example :
    (parse (print_schedule mornings) >>= λ c. should_run c instant)
    ≡ ok (includes_instant mornings instant)
should_run-print_schedule_example = should_run-print_schedule mornings instant mornings-IsSchedule

includes_sample : includes_instant mornings instant ≡ true
unfolding includes_instant includes
includes_sample = refl
