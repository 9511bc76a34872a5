-- ===== src/Scene/Decisions.antt =====
-- scene_orchestrator.py: what every decision shares, and the decisions of the safety scenes.
use ai_child.Prelude.{
  ℕ, max, String, Bool, true, false, List, [], ◌∷◌, any, str_eq, length, if◌then◌else◌, Option,
  none, some,
}
use ai_child.Enums.{level_value, intent_value}
use ai_child.TimePeriod.{period_value}
use ai_child.PyText.{PyText}
use ai_child.Scene.{
  SceneId, SceneTransitionType, SceneAction, SceneRouteRequest, SceneRouteDecision, SignalValue,
  scene_eq, transition_value, registry_get,
}

-- `bool(text)` of an optional text
unfoldable pub has_text : Option PyText → Bool
has_text none = false
has_text (some []) = false
has_text (some (c ∷ t)) = true

-- _signals
unfoldable pub signals_of : SceneRouteRequest → SceneTransitionType → List (String × SignalValue)
unfolding has_text
signals_of r transition =
    ("time_period", SignalValue.text (period_value r.time_period))
    ∷ ("intent", SignalValue.text (intent_value r.intent))
    ∷ ("sub_intent", SignalValue.maybe_text r.sub_intent)
    ∷ ("intent_evidence", SignalValue.texts r.intent_evidence)
    ∷ ("needs_modality", SignalValue.flag r.needs_modality)
    ∷ ("suggested_modalities", SignalValue.texts r.suggested_modalities)
    ∷ ("risk_level", SignalValue.text (level_value r.risk_level))
    ∷ ("safety_requires_parent_attention", SignalValue.flag r.safety_requires_parent_attention)
    ∷ ("safety_evidence", SignalValue.texts r.safety_evidence)
    ∷ ("parent_goal_count", SignalValue.number (length r.parent_goals))
    ∷ ("has_homework_attachment", SignalValue.flag (has_text r.homework_problem_text))
    ∷ ("homework_problem_confidence", SignalValue.maybe_number r.homework_problem_confidence)
    ∷ ("transition", SignalValue.text (transition_value transition))
    ∷ []

-- SceneRouteDecision(...) with the fields that every call gives, the others at their defaults: base
-- scene, active scene, transition, stack, least confidence, reason and reply.
unfoldable pub decision_of :
    SceneRouteRequest
    → SceneId
    → SceneId
    → SceneTransitionType
    → List SceneId
    → ℕ
    → String
    → String
    → SceneRouteDecision
decision_of r base active transition stack least reason reply = record {
  message_id = r.message_id;
  session_id = r.session_id;
  primary_intent = r.intent;
  base_scene = base;
  active_scene = active;
  transition = transition;
  scene_stack = stack;
  risk_level = r.risk_level;
  confidence = max r.intent_confidence least;
  reason = reason;
  sub_scene = none;
  side_context = [];
  requires_parent_attention = false;
  needs_input = none;
  reply_text = reply;
  reply_emotion = "warm";
  quick_actions = [];
  signals = signals_of r transition;
}

abbrev pub action : String → String → SceneAction
action id label = record { id = id; label = label }

-- _base_scene_from_stack_or_time
unfoldable pub base_scene_from_stack : List SceneId → SceneId
base_scene_from_stack [] = SceneId.open_conversation
base_scene_from_stack (s ∷ stack) = s

-- stack[-1], with a scene for the empty stack
unfoldable pub last_or : SceneId → List SceneId → SceneId
last_or d [] = d
last_or d (s ∷ stack) = last_or s stack

-- `bool(current_stack) and current_stack[-1] == scene`
unfoldable pub ends_in : SceneId → List SceneId → Bool
unfolding scene_eq last_or
ends_in scene [] = false
ends_in scene (s ∷ stack) = scene_eq (last_or s stack) scene

-- `[base] if base == scene else [base, scene]`
unfoldable pub over_base : SceneId → SceneId → List SceneId
unfolding scene_eq
over_base base scene = if scene_eq base scene then base ∷ [] else base ∷ scene ∷ []

-- _safety_guardian
unfoldable pub safety_guardian : SceneRouteRequest → SceneRouteDecision
unfolding decision_of registry_get
safety_guardian r =
    record (decision_of r SceneId.safety_guardian SceneId.safety_guardian
      SceneTransitionType.replace (SceneId.safety_guardian ∷ []) 99 "safety_priority"
      (if any (str_eq "self_harm") r.safety_evidence
        then "谢谢你告诉我。这个时候不要一个人待着，先去找家长、老师或身边安全的大人，好吗？小白狐会提醒家长来陪你。"
        else "这件事需要让家长或可信任的大人知道。你不用一个人处理，也不用替别人保守让你不舒服的秘密。如果那个人还在附近，请先去家长、老师或安全的大人身边。")) {
          requires_parent_attention = true;
          needs_input = (registry_get SceneId.safety_guardian).default_needs_input;
          reply_emotion = "steady";
          quick_actions = action "tell_parent" "告诉家长" ∷ action "find_trusted_adult" "找可信任的大人" ∷ [];
        }

-- _safety_gentle_checkin
unfoldable pub safety_gentle_checkin : SceneRouteRequest → List SceneId → SceneRouteDecision
unfolding decision_of registry_get over_base base_scene_from_stack
safety_gentle_checkin r stack =
    let base = base_scene_from_stack stack in
    record (decision_of r base SceneId.safety_gentle_checkin
      (registry_get SceneId.safety_gentle_checkin).default_transition
      (over_base base SceneId.safety_gentle_checkin) 86 "watch_safety_gentle_checkin"
      "听起来这件事让你不舒服，谢谢你告诉我。你可以把这件事告诉家长或老师，让他们一起帮你想办法。现在你想先说一句发生了什么，还是先安静一下？") {
        sub_scene = r.sub_intent;
        side_context = "watch_observation" ∷ [];
        needs_input = (registry_get SceneId.safety_gentle_checkin).default_needs_input;
        reply_emotion = "gentle";
        quick_actions =
            action "tell_parent_or_teacher" "告诉大人"
            ∷ action "one_sentence" "说一句"
            ∷ action "quiet_time" "先安静一下"
            ∷ [];
      }

-- _privacy_boundary
unfoldable pub privacy_boundary : SceneRouteRequest → List SceneId → SceneRouteDecision
unfolding decision_of registry_get over_base base_scene_from_stack
privacy_boundary r stack =
    let base = base_scene_from_stack stack in
    record (decision_of r base SceneId.privacy_boundary
      (registry_get SceneId.privacy_boundary).default_transition
      (over_base base SceneId.privacy_boundary) 86 "privacy_boundary"
      "可以问我，但不要把家庭地址、电话、学校名字或照片随便告诉 AI 或陌生人。需要填写这些信息时，先问家长。你可以只说“我想问隐私问题”，不用说真实信息。") {
        sub_scene = r.sub_intent;
        needs_input = (registry_get SceneId.privacy_boundary).default_needs_input;
        reply_emotion = "steady";
        quick_actions = action "understand_privacy" "我知道了" ∷ action "ask_parent" "问家长" ∷ [];
      }
