-- ===== src/Turn/Engagement.antt =====
-- conversation_service.py: how a child's words bear on what is recalled, and the motion of the companion.
use ai_child.Prelude.{List, [], ◌∷◌, String, any, length, leb, str_eq, ◌||◌, if◌then◌else◌}
use ai_child.PyText.{PyText, codes, strip, without, contains_any, text_is}
use ai_child.Scene.{SceneId, SceneRouteDecision}

abbrev pub topic_change_markers : List String
topic_change_markers =
    "换个话题" ∷ "聊点别的" ∷ "别聊这个" ∷ "不说了" ∷ "算了" ∷ "今天不聊了" ∷ "不聊了" ∷ "不想聊了" ∷ "不要聊了" ∷ []

abbrev pub refusal_markers : List String
refusal_markers = "不想聊了" ∷ "别问了" ∷ "你别说这个" ∷ "不要问了" ∷ "别再说了" ∷ "你别说了" ∷ "我不想说" ∷ "不告诉你" ∷ "就不说" ∷ []

abbrev pub bedtime_close_markers : List String
bedtime_close_markers = "明天再聊" ∷ "我要睡觉" ∷ "我得睡觉" ∷ "晚安" ∷ "困了" ∷ []

abbrev pub short_flat_replies : List String
short_flat_replies = "嗯" ∷ "哦" ∷ "好吧" ∷ "不知道" ∷ "还行" ∷ "随便" ∷ "没有" ∷ "没了" ∷ "算了" ∷ "都行" ∷ []

-- _pre_check_child_engagement, of the normalized text
unfoldable pub engagement_of : PyText → String
unfolding contains_any text_is
engagement_of text =
    if contains_any text refusal_markers
    then "refused"
    else if contains_any text topic_change_markers
    then "boundary"
    else if contains_any text bedtime_close_markers
    then "boundary"
    else if any (λ reply. text_is text (codes reply)) short_flat_replies || leb (length text) 4
    then "short_or_flat"
    else "neutral"

-- _pre_check_child_engagement
unfoldable pub pre_check_child_engagement : (PyText → PyText) → PyText → String
unfolding strip without engagement_of
pre_check_child_engagement lower text = engagement_of (without 32 (lower (strip text)))

-- _agent_motion_for
unfoldable pub agent_motion_for : SceneRouteDecision → String
agent_motion_for d = elim d.active_scene as (λ _. String) [
  | SceneId.learning_homework_help ↦ "thinking_nod"
  | SceneId.daily_bedtime_reflection ↦ "sleepy_blink"
  | SceneId.safety_guardian ↦ "concerned_still"
  | SceneId.safety_gentle_checkin ↦ "gentle_nod"
  | SceneId.privacy_boundary ↦ "steady_boundary"
  | _ ↦ if str_eq d.reply_emotion "calm" then "calm_breathe" else "listening_tail"
]
