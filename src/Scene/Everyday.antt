-- ===== src/Scene/Everyday.antt =====
-- scene_orchestrator.py: the decisions of learning, bedtime, arrival, emotion and open conversation.
use ai_child.Prelude.{
  ℕ, max, String, Bool, false, ◌&&◌, List, [], ◌∷◌, ◌++◌, leb, str_eq, if◌then◌else◌, Option, none,
  some,
}
use ai_child.Enums.{IntentType, intent_eq}
use ai_child.PyText.{codes, contains, join, opt_eq}
use ai_child.Scene.{
  SceneId, SceneTransitionType, SceneRouteRequest, SceneRouteDecision, registry_get, scene_eq,
}
use ai_child.Scene.Decisions.{
  has_text, decision_of, action, base_scene_from_stack, last_or, ends_in,
}

-- `request.homework_problem_confidence is not None and ... >= 0.75`
unfoldable pub is_confident : Option ℕ → Bool
is_confident none = false
is_confident (some c) = leb 75 c

-- `current_stack or [base_scene]`
unfoldable pub stack_or_base : List SceneId → List SceneId
unfolding base_scene_from_stack
stack_or_base [] = base_scene_from_stack [] ∷ []
stack_or_base (s ∷ stack) = s ∷ stack

-- The stack and the transition of `_learning_homework_help`.
unfoldable pub learning_transition : List SceneId → SceneTransitionType
unfolding ends_in stack_or_base
learning_transition stack =
    if ends_in SceneId.learning_homework_help (stack_or_base stack)
    then SceneTransitionType.merge
    else SceneTransitionType.push

unfoldable pub learning_stack : List SceneId → List SceneId
unfolding ends_in stack_or_base
learning_stack stack =
    if ends_in SceneId.learning_homework_help (stack_or_base stack)
    then stack_or_base stack
    else stack_or_base stack ++ SceneId.learning_homework_help ∷ []

-- _learning_homework_help. `next_stack[0]` is `base_stack[0]`, which is `base_scene`.
unfoldable pub learning_homework_help : SceneRouteRequest → List SceneId → SceneRouteDecision
unfolding decision_of registry_get base_scene_from_stack has_text is_confident opt_eq
learning_homework_help r stack =
    let learning =
      decision_of r (base_scene_from_stack (learning_stack stack)) SceneId.learning_homework_help
        (learning_transition stack) (learning_stack stack) in
    if opt_eq r.sub_intent "direct_answer_request"
    then record (learning 90 "learning_direct_answer_request"
        "我不会直接告诉你最终答案。我们先把题目拆开：这道题是在问什么？你觉得第一步可以先看哪个条件？") {
          sub_scene = some "scaffold_before_answer";
          needs_input = some "problem_understanding";
          quick_actions = action "describe_problem" "说题意" ∷ action "first_step" "说第一步" ∷ [];
        }
    else if has_text r.homework_problem_text && is_confident r.homework_problem_confidence
    then record (learning 96 "homework_attachment_ready" "我看清楚了。我们先不急着算。你能告诉我：这道题是在问什么吗？") {
      sub_scene = some "ask_problem_understanding";
      needs_input = some "problem_understanding";
    }
    else record (learning 94 "learning_help_intent"
        "可以，我们一起一步一步拆开它。你先不用急着要答案，可以拍一张题目的照片，或者先把题目读给我听。") {
          sub_scene = some "homework_problem_intake";
          needs_input = (registry_get SceneId.learning_homework_help).default_needs_input;
          quick_actions = action "take_photo" "拍题目" ∷ action "speak_problem" "读题目" ∷ [];
        }

-- _bedtime_reflection
unfoldable pub bedtime_reflection : SceneRouteRequest → SceneRouteDecision
unfolding decision_of registry_get
bedtime_reflection r =
    record (decision_of r SceneId.daily_bedtime_reflection SceneId.daily_bedtime_reflection
      SceneTransitionType.replace (SceneId.daily_bedtime_reflection ∷ []) 92
      "bedtime_reflection_intent" "晚安。我们轻轻收个尾：今天有一件还不错的小事吗？如果不想说，也可以只选一个心情。") {
        needs_input = (registry_get SceneId.daily_bedtime_reflection).default_needs_input;
        reply_emotion = "calm";
        quick_actions =
            action "good_moment" "还不错的小事"
            ∷ action "mood_only" "只选心情"
            ∷ action "sleep_now" "直接睡觉"
            ∷ [];
      }

-- _after_school_checkin
unfoldable pub after_school_checkin : SceneRouteRequest → SceneRouteDecision
unfolding decision_of
after_school_checkin r =
    record (decision_of r SceneId.open_conversation SceneId.open_conversation
      SceneTransitionType.replace (SceneId.open_conversation ∷ []) 90
      "arrival_context_open_conversation" "回来啦。我们不用急着汇报学校，你想先聊刚想到的事，还是先安静一小会儿？") {
        side_context = "after_school_arrival" ∷ [];
        reply_emotion = "listening";
      }

-- the end of _emotion_open_support
unfoldable pub emotion_open : SceneRouteRequest → SceneRouteDecision
unfolding decision_of
emotion_open r =
    record (decision_of r SceneId.open_conversation SceneId.open_conversation
      SceneTransitionType.replace (SceneId.open_conversation ∷ []) 72
      "emotion_context_open_conversation" "可以的，我们先不聊很多。你可以安静一会儿，也可以只说一个字或一个小表情。") {
        side_context = "low_pressure_emotion_support" ∷ [];
        reply_emotion = "calm";
      }

-- _emotion_open_support
unfoldable pub emotion_open_support : SceneRouteRequest → List SceneId → SceneRouteDecision
unfolding ends_in
emotion_open_support r stack =
    if ends_in SceneId.learning_homework_help stack
    then learning_homework_help r stack
    else if ends_in SceneId.daily_bedtime_reflection stack
    then bedtime_reflection r
    else emotion_open r

-- _open_conversation
unfoldable pub open_conversation : SceneRouteRequest → List SceneId → SceneRouteDecision
unfolding decision_of ends_in
open_conversation r stack =
    record (decision_of r SceneId.open_conversation SceneId.open_conversation
      (if ends_in SceneId.open_conversation stack
        then SceneTransitionType.merge
        else SceneTransitionType.replace)
      (SceneId.open_conversation ∷ []) 72 "open_conversation" "我在听。你可以接着说这个话题，我会顺着你的想法聊。") {
        reply_emotion = "listening";
      }

-- _checkin_reply_text
unfoldable pub checkin_reply_text : SceneRouteRequest → String
unfolding intent_eq
checkin_reply_text r =
    let goal_text = join (codes "，") r.parent_goals in
    if intent_eq r.intent IntentType.emotion_expression
    then "可以的，我们先不聊很多。你可以安静一会儿，也可以选想安静一会儿；等你想说时再说。"
    else if contains (codes "小困难") goal_text
    then "我在这里。今天如果愿意，可以只说一个小困难；也可以先选一个轻松选项：开心的事、遇到的难题，或者想安静一会儿。"
    else if contains (codes "学校小事") goal_text
    then "我在这里。你可以只说一件学校小事，不用说很多；也可以选今天开心的事、遇到的难题，或者想安静一会儿。"
    else "我在这里。你可以先选一个最想说的小事情：今天开心的事、遇到的难题，或者想安静一会儿。"

-- `scene_stack or [scene_id]`
unfoldable pub stack_or_scene : SceneId → List SceneId → List SceneId
stack_or_scene scene [] = scene ∷ []
stack_or_scene scene (s ∷ rest) = s ∷ rest

-- `reply_text or self._checkin_reply_text(request)`
unfoldable pub reply_or : SceneRouteRequest → Option String → String
reply_or r none = checkin_reply_text r
reply_or r (some t) = if str_eq t "" then checkin_reply_text r else t

-- _checkin_decision, given the scene, the transition, the reason, the confidence, the stack (empty
-- for None) and the reply (None for the text of the goals)
unfoldable pub checkin_decision :
    SceneRouteRequest
    → SceneId
    → SceneTransitionType
    → String
    → ℕ
    → List SceneId
    → Option String
    → SceneRouteDecision
unfolding decision_of registry_get base_scene_from_stack stack_or_scene reply_or
checkin_decision r scene transition reason confidence scene_stack reply =
    let stack = stack_or_scene scene scene_stack in
    record (decision_of r (base_scene_from_stack stack) scene transition stack 0 reason
      (reply_or r reply)) {
        confidence = confidence;
        needs_input = (registry_get scene).default_needs_input;
        quick_actions =
            action "happy_moment" "开心的事"
            ∷ action "hard_thing" "遇到的难题"
            ∷ action "quiet_time" "想安静一会儿"
            ∷ [];
      }

-- `current_stack[:-1] or [SceneId.OPEN_CONVERSATION]`
unfoldable pub popped : List SceneId → List SceneId
popped [] = SceneId.open_conversation ∷ []
popped (s ∷ []) = SceneId.open_conversation ∷ []
popped (s ∷ t ∷ []) = s ∷ []
popped (s ∷ t ∷ u ∷ rest) = s ∷ popped (t ∷ u ∷ rest)

-- _pop_to_previous_scene
unfoldable pub pop_to_previous_scene : SceneRouteRequest → List SceneId → SceneRouteDecision
unfolding decision_of ends_in popped last_or
pop_to_previous_scene r stack =
    let next_stack = popped stack in
    let active_scene = last_or SceneId.open_conversation next_stack in
    if scene_eq active_scene SceneId.open_conversation
    then decision_of r SceneId.open_conversation SceneId.open_conversation SceneTransitionType.pop
        (SceneId.open_conversation ∷ []) 86 "learning_scene_completed"
        "好，我们先把这道题放回作业本里。接下来你想聊什么都可以。"
    else checkin_decision r active_scene SceneTransitionType.pop "learning_scene_completed"
        (max r.intent_confidence 86) next_stack (some "好，我们先把这道题放回作业本里。现在可以轻轻收一下尾。")
