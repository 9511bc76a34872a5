-- ===== src/TimeContext.antt =====
-- backend/app/services/time_context_service.py and the schedule of backend/app/domain/time.py: the period
-- of a child's day. A time of day is a number of microseconds since midnight. The local time of a device
-- in its zone is an argument, since the zones are not in the program. A schedule that is given as an
-- object, as a dictionary or as a list of entries is its list of entries.
pub mod Range
pub mod Day
mod Tests
use ai_child.Prelude.{
  ℕ, ◌+◌, ◌-◌, ◌*◌, Bool, true, false, ◌&&◌, ◌||◌, List, [], ◌∷◌, Option, none, some, String, ltb,
  leb, nat_eq, if◌then◌else◌,
}
use ai_child.PyText.{PyText, codes}
use ai_child.TimePeriod.{TimePeriod}

pub record TimeScheduleEntry : Type 0 where
  pub period : TimePeriod
  pub start : PyText
  pub end : PyText
  pub goal : PyText
  pub preferred_interactions : List PyText
  pub avoid : List PyText

pub record TimeContext : Type 0 where
  pub time_period : TimePeriod
  pub weekday : Bool
  pub schedule_goal : Option PyText
  pub preferred_interactions : List PyText
  pub avoid : List PyText

abbrev pub entry_of :
    TimePeriod → String → String → String → List PyText → List PyText → TimeScheduleEntry
entry_of period start end goal preferred avoid = record {
  period = period;
  start = codes start;
  end = codes end;
  goal = codes goal;
  preferred_interactions = preferred;
  avoid = avoid;
}

-- DEFAULT_DAILY_SCHEDULE
abbrev pub default_daily_schedule : List TimeScheduleEntry
default_daily_schedule =
    entry_of TimePeriod.morning_before_school "06:30" "07:50" "轻量计划，不制造压力"
      (codes "今日小目标" ∷ codes "带物品提醒" ∷ codes "一句鼓励" ∷ []) (codes "高强度学习" ∷ codes "复杂复盘" ∷ [])
    ∷ entry_of TimePeriod.after_school "15:30" "18:00" "情绪缓冲、学校表达、作业衔接"
        (codes "状态选择" ∷ codes "学校小事" ∷ codes "兴趣切入" ∷ codes "学习卡点" ∷ [])
        (codes "立刻连续追问" ∷ codes "一开始就要求学习" ∷ [])
    ∷ entry_of TimePeriod.homework_time "18:00" "20:20" "作业引导、错题分析、思路训练"
        (codes "拍照识题" ∷ codes "分级提示" ∷ codes "复述思路" ∷ []) (codes "直接给答案" ∷ codes "替孩子完成作业" ∷ [])
    ∷ entry_of TimePeriod.bedtime "20:20" "21:30" "低刺激复盘、情绪安定、明日计划"
        (codes "三问复盘" ∷ codes "情绪总结" ∷ codes "晚安收尾" ∷ [])
        (codes "强刺激话题" ∷ codes "长时间聊天" ∷ codes "复杂学习任务" ∷ [])
    ∷ []

-- a decimal digit
unfoldable pub is_digit : ℕ → Bool
is_digit c = leb b'0' c && leb c b'9'

abbrev pub minute : ℕ
minute = 60000000

abbrev pub day : ℕ
day = 1440 * minute

-- the time of `%H:%M` in range
unfoldable pub time_of : ℕ → ℕ → Option ℕ
time_of hours minutes =
    if ltb hours 24 && ltb minutes 60 then some ((hours * 60 + minutes) * minute) else none

-- _parse_time on a text of the pattern ^\d{2}:\d{2}$; None is the ValueError of a time out of range
unfoldable pub parse_time : PyText → Option ℕ
unfolding is_digit time_of
parse_time (a ∷ b ∷ colon ∷ c ∷ d ∷ []) =
    if is_digit a && (is_digit b && (nat_eq colon b':' && (is_digit c && is_digit d)))
    then time_of ((a - b'0') * 10 + (b - b'0')) ((c - b'0') * 10 + (d - b'0'))
    else none
parse_time text = none

-- _time_in_range
unfoldable pub time_in_range : ℕ → ℕ → ℕ → Bool
time_in_range current start end =
    if leb start end
    then leb start current && ltb current end
    else leb start current || ltb current end

-- _match_schedule_entry; the outer None is a ValueError
unfoldable pub match_schedule_entry : ℕ → List TimeScheduleEntry → Option (Option TimeScheduleEntry)
unfolding parse_time time_in_range
match_schedule_entry current [] = some none
match_schedule_entry current (entry ∷ entries) =
    let rest = match_schedule_entry current entries in
    elim (parse_time entry.start) [
      | none ↦ none
      | some start ↦ elim (parse_time entry.end) [
        | none ↦ none
        | some end ↦ if time_in_range current start end then some (some entry) else rest
      ]
    ]

-- _normalize_schedule
unfoldable pub normalize_schedule : Option (List TimeScheduleEntry) → List TimeScheduleEntry
normalize_schedule none = default_daily_schedule
normalize_schedule (some entries) = entries

-- the TimeContext of a match
unfoldable pub context_of : ℕ → Option TimeScheduleEntry → TimeContext
context_of weekday none = record {
  time_period = TimePeriod.other;
  weekday = ltb weekday 5;
  schedule_goal = none;
  preferred_interactions = [];
  avoid = [];
}
context_of weekday (some entry) = record {
  time_period = entry.period;
  weekday = ltb weekday 5;
  schedule_goal = some entry.goal;
  preferred_interactions = entry.preferred_interactions;
  avoid = entry.avoid;
}

-- build_context, from the local time of day and the number of the weekday
unfoldable pub build_context : ℕ → ℕ → Option (List TimeScheduleEntry) → Option TimeContext
unfolding match_schedule_entry normalize_schedule context_of
build_context current weekday schedule =
    elim (match_schedule_entry current (normalize_schedule schedule)) [
      | none ↦ none
      | some matched ↦ some (context_of weekday matched)
    ]
