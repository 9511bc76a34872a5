-- ===== src/TimeContext/Tests.antt =====
-- The time context at concrete times of day.
use ai_child.Prelude.{◌≡◌, none, some, refl}
use ai_child.PyText.{codes}
use ai_child.TimeContext.{parse_time, is_digit, time_of, build_context}
use ai_child.TimeContext.Day.{clock, period_of, period_at, default_day}

no_such_time : parse_time (codes "24:00") ≡ none
unfolding parse_time is_digit time_of
no_such_time = refl

default_day_example :
    period_of (build_context (clock 20 20) 2 none) ≡ some (period_at (clock 20 20))
default_day_example = default_day (clock 20 20) 2
