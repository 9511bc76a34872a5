-- ===== src/TimePeriod.antt =====
-- backend/app/domain/time.py: the periods of a child's day, with their values.
use mathlib.Core.Bool.{decide}
use ai_child.Prelude.{Bool, String}

pub data TimePeriod : Type 0 where
  morning_before_school after_school homework_time bedtime other : TimePeriod

unfoldable pub TimePeriod-discrete : Discrete TimePeriod
TimePeriod-discrete = hlevel

unfoldable pub period_eq : TimePeriod → TimePeriod → Bool
unfolding TimePeriod-discrete decide
period_eq a b = decide (TimePeriod-discrete a b)

-- TimePeriod.value
unfoldable pub period_value : TimePeriod → String
period_value morning_before_school = "morning_before_school"
period_value after_school = "after_school"
period_value homework_time = "homework_time"
period_value bedtime = "bedtime"
period_value other = "other"

-- str(period): a member of `class TimePeriod(str, Enum)` gives its name with that of the class
unfoldable pub period_str : TimePeriod → String
period_str morning_before_school = "TimePeriod.MORNING_BEFORE_SCHOOL"
period_str after_school = "TimePeriod.AFTER_SCHOOL"
period_str homework_time = "TimePeriod.HOMEWORK_TIME"
period_str bedtime = "TimePeriod.BEDTIME"
period_str other = "TimePeriod.OTHER"
