-- ===== src/Turn.antt =====
-- backend/app/services/conversation_service.py, `handle_message`: the way of a child's message from
-- the safety engine over the intent classifier to the scene router. It starts where the early return
-- of the homework guard has not been taken. What the attachment service finds is an argument.
pub mod Alarm
pub mod Engagement
pub mod Naming
pub mod Seeds
pub mod Companions
pub mod Reply
pub mod OneLive
pub mod Named
mod Tests
mod CompanionTests
use ai_child.Prelude.{
  ℕ, String, Bool, true, false, ◌&&◌, List, [], ◌∷◌, Option, none, some, if◌then◌else◌,
}
use ai_child.Enums.{RiskLevel, IntentType, level_eq}
use ai_child.TimePeriod.{TimePeriod}
use ai_child.PyText.{PyText, opt_eq}
use ai_child.Safety.{SafetyClassification, classify_input}
use ai_child.Intent.{IntentClassification, intent_of, classify}
use ai_child.Scene.{SceneRouteRequest, SceneRouteDecision}
use ai_child.Scene.Router.{SceneOrchestrator, Drawn, route}

-- the recognized text of a homework photo and its confidence
pub record HomeworkContext : Type 0 where
  pub text : PyText
  pub confidence : ℕ

-- What `handle_message` has at hand when it classifies the intent.
pub record Message : Type 0 where
  pub child_id : String
  pub session_id : String
  pub text : PyText
  pub time_period : TimePeriod
  pub parent_goals : List PyText
  pub homework_context : Option HomeworkContext
  pub recognized_type : Option String

-- `homework_context if use_homework_attachment else None`
unfoldable pub usable_homework : Message → SafetyClassification → Option HomeworkContext
unfolding level_eq
usable_homework m safety =
    if level_eq safety.risk_level RiskLevel.none then m.homework_context else none

-- the three ways to the intent
unfoldable pub turn_intent :
    (PyText → PyText) → Message → SafetyClassification → IntentClassification
unfolding usable_homework intent_of opt_eq
turn_intent lower m safety = elim (usable_homework m safety) [
  | some _ ↦
      record (intent_of IntentType.learning_help safety.risk_level 96
        ("attachment_id_ready" ∷ [])) { sub_intent = some "homework_problem_with_attachment" }
  | none ↦
      if opt_eq m.recognized_type "privacy_sensitive"
      then record (intent_of IntentType.privacy_question RiskLevel.low 90
          ("image_privacy_context" ∷ [])) { sub_intent = some "privacy_boundary" }
      else classify lower m.text (some m.time_period) (some safety)
]

-- homework_context.recognized_content.text and .confidence, or None
unfoldable pub homework_text : Option HomeworkContext → Option PyText
homework_text none = none
homework_text (some h) = some h.text

unfoldable pub homework_confidence : Option HomeworkContext → Option ℕ
homework_confidence none = none
homework_confidence (some h) = some h.confidence

-- SceneRouteRequest(...) of `handle_message`
unfoldable pub turn_request :
    Message → SafetyClassification → IntentClassification → SceneRouteRequest
unfolding usable_homework homework_text homework_confidence
turn_request m safety intent = record {
  child_id = m.child_id;
  session_id = m.session_id;
  message_id = none;
  text = m.text;
  time_period = m.time_period;
  intent = intent.intent;
  sub_intent = intent.sub_intent;
  intent_confidence = intent.confidence;
  intent_evidence = intent.evidence;
  needs_modality = intent.needs_modality;
  suggested_modalities = intent.suggested_modalities;
  risk_level = safety.risk_level;
  safety_requires_parent_attention = safety.requires_parent_attention;
  safety_evidence = safety.evidence;
  parent_goals = m.parent_goals;
  current_stack = [];
  homework_problem_text = homework_text (usable_homework m safety);
  homework_problem_confidence = homework_confidence (usable_homework m safety);
}

-- the classification, the intent and the route of a message
unfoldable pub route_turn :
    (PyText → PyText) → Drawn → Message → SceneOrchestrator → SceneOrchestrator × SceneRouteDecision
route_turn lower drawn m o =
    let safety = classify_input lower m.text in
    route lower drawn (turn_request m safety (turn_intent lower m safety)) o
