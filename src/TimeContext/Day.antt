-- ===== src/TimeContext/Day.antt =====
-- time_context_service.py, `build_context` with the default schedule.
use ai_child.Prelude.{ℕ, ◌+◌, ◌*◌, ◌≡◌, Option, none, some, ltb, arith, if◌then◌else◌}
use ai_child.TimePeriod.{TimePeriod}
use ai_child.TimeContext.{
  TimeContext, build_context, match_schedule_entry, normalize_schedule, context_of, minute,
}

abbrev pub clock : ℕ → ℕ → ℕ
clock hours minutes = (hours * 60 + minutes) * minute

-- The table of a day, by the times at which a period ends.
abbrev pub period_at : ℕ → TimePeriod
period_at current =
    if ltb current (clock 6 30)
    then TimePeriod.other
    else if ltb current (clock 7 50)
    then TimePeriod.morning_before_school
    else if ltb current (clock 15 30)
    then TimePeriod.other
    else if ltb current (clock 18 0)
    then TimePeriod.after_school
    else if ltb current (clock 20 20)
    then TimePeriod.homework_time
    else if ltb current (clock 21 30)
    then TimePeriod.bedtime
    else TimePeriod.other

abbrev pub period_of : Option TimeContext → Option TimePeriod
period_of none = none
period_of (some c) = some c.time_period

-- Without a schedule of its own a child's day is read off the table: no time raises an error, and
-- every time has the period of the table.
pub default_day :
    (current weekday : ℕ)
    → period_of (build_context current weekday none) ≡ some (period_at current)
unfolding build_context match_schedule_entry normalize_schedule context_of
default_day current weekday = ground arith
