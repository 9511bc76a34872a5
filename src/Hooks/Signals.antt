-- ===== src/Hooks/Signals.antt =====
-- conversation_memory_hooks.py: the tests of a child's text, over the text in lower case without spaces.
use ai_child.Prelude.{
  Bool, true, false, not, ◌&&◌, ◌||◌, List, [], ◌∷◌, Option, none, some, String, leb, length,
  if◌then◌else◌,
}
use ai_child.PyText.{PyText, codes, strip, without, contains, contains_any}
use ai_child.Enums.{RiskLevel, RiskCategory, category_eq}
use ai_child.Safety.{SafetyClassification, is_at_least}
use ai_child.Hooks.Threads.{
  Thread, creation_topic_map, running, topic_map, bedtime_close, topic_change, sports_expression,
  work_expression, leaving, pausing, thing_shown, work_shown,
}

-- _normalize_text
unfoldable pub normalize_text : (PyText → PyText) → PyText → PyText
unfolding strip without
normalize_text lower text = without 32 (lower (strip text))

-- _is_running_or_sports_interest_text
unfoldable pub is_running_or_sports_interest_text : PyText → Bool
unfolding contains contains_any
is_running_or_sports_interest_text text =
    contains (codes "运动比赛") text
    || (contains_any text ("跑步" ∷ "跑完" ∷ "短跑" ∷ "接力" ∷ "快的感觉" ∷ "公里" ∷ "十五公里" ∷ [])
        || (contains_any text ("运动" ∷ "跑" ∷ [])
            && not (contains_any text ("英语比赛" ∷ "数学比赛" ∷ "作文比赛" ∷ []))))

-- the first row of a table with a marker in the text
unfoldable pub first_thread : PyText → List (List String × Thread) → Option Thread
unfolding contains_any
first_thread text [] = none
first_thread text ((markers, thread) ∷ rows) =
    if contains_any text markers then some thread else first_thread text rows

-- _interest_seed
unfoldable pub interest_seed : PyText → Option Thread
unfolding first_thread is_running_or_sports_interest_text
interest_seed text = elim (first_thread text creation_topic_map) [
  | some thread ↦ some thread
  | none ↦
      if is_running_or_sports_interest_text text then some running else first_thread text topic_map
]

-- return {...} under a first test, or under a second one, and None
unfoldable pub one_of : Bool → Thread → Bool → Thread → Option Thread
one_of first t second u = if first then some t else if second then some u else none

-- _topic_boundary
unfoldable pub topic_boundary : PyText → Option Thread
unfolding contains_any
topic_boundary text =
    one_of (contains_any text ("明天再聊" ∷ "我要睡觉" ∷ "我得睡觉" ∷ "晚安" ∷ "困了" ∷ [])) bedtime_close
      (contains_any text ("换个话题" ∷ "聊点别的" ∷ "别聊这个" ∷ "不说了" ∷ "算了" ∷ "今天不聊了" ∷ [])) topic_change

-- _proud_moment
unfoldable pub proud_moment : PyText → Option Thread
unfolding contains_any is_running_or_sports_interest_text
proud_moment text =
    one_of
      (is_running_or_sports_interest_text text && contains_any text ("感觉" ∷ "项目" ∷ "参加" ∷ "快" ∷ []))
      sports_expression (contains_any text ("我画" ∷ "我做" ∷ "我搭" ∷ "我编" ∷ "我的作品" ∷ []))
      work_expression

-- _unfinished_thread
unfoldable pub unfinished_thread : PyText → Option Thread
unfolding contains_any
unfinished_thread text =
    one_of (contains_any text ("去英语打卡" ∷ "英语打卡" ∷ "一会再聊" ∷ "等会再聊" ∷ "先去写作业" ∷ "要去上课" ∷ [])) leaving
      (contains_any text ("明天再说" ∷ "下次再聊" ∷ "明天继续" ∷ "先到这里" ∷ [])) pausing

-- _show_and_tell_event
unfoldable pub show_and_tell_event : PyText → Option Thread
unfolding contains_any
show_and_tell_event text =
    one_of (contains_any text ("给你看" ∷ "看这个" ∷ "你看" ∷ "我给你看" ∷ "拿给你看" ∷ [])) thing_shown
      (contains_any text ("我画了" ∷ "我做了" ∷ "我搭了" ∷ "我编了" ∷ "我的作品" ∷ [])) work_shown

abbrev pub is_found : Option Thread → Bool
is_found none = false
is_found (some thread) = true

abbrev pub private_markers : List String
private_markers =
    "家庭住址" ∷ "我家地址" ∷ "家里地址" ∷ "手机号" ∷ "电话号码" ∷ "电话" ∷ "学校名字" ∷ "学校名称" ∷ "真实姓名" ∷ "身份证" ∷ "照片隐私"
    ∷ "地址" ∷ []

abbrev pub body_markers : List String
body_markers = "胸口疼" ∷ "喘不过气" ∷ "头晕" ∷ "想吐" ∷ "站不稳" ∷ "流血" ∷ "吃错药" ∷ []

abbrev pub told_markers : List String
told_markers = "妈妈说" ∷ "爸爸让我说" ∷ "老师让你问" ∷ "你跟他说" ∷ "大人让我说" ∷ []

abbrev pub operation_markers : List String
operation_markers = "按一下" ∷ "点这个" ∷ "说完再按" ∷ "取消" ∷ "重说" ∷ "按钮" ∷ "麦克风" ∷ "发送" ∷ "录音" ∷ []

-- _should_skip_relationship_memory
unfoldable pub should_skip_relationship_memory : PyText → SafetyClassification → Bool
unfolding category_eq is_at_least contains_any interest_seed topic_boundary proud_moment
should_skip_relationship_memory text safety =
    category_eq safety.primary_category RiskCategory.self_harm
    || is_at_least safety RiskLevel.high
    || contains_any text private_markers
    || contains_any text body_markers
    || contains_any text told_markers
    || (contains_any text operation_markers
        && not (
            is_found (interest_seed text)
            || is_found (topic_boundary text)
            || is_found (proud_moment text)))
    || leb (length text) 4
