-- ===== src/Scene.antt =====
-- backend/app/domain/scene.py and the scene registry of backend/app/services/scene_orchestrator.py.
-- The router itself is in the child modules: what it decides in Decisions, its state in Router.
-- Confidences are counted in hundredths. Of a time context only the period is read.
pub mod Decisions
pub mod Everyday
pub mod Router
pub mod Stack
pub mod Guard
pub mod Outcome
mod Tests
use mathlib.Core.Bool.{decide}
use ai_child.Prelude.{ℕ, String, Bool, true, false, List, Option, none, some}
use ai_child.Enums.{RiskLevel, IntentType}
use ai_child.TimePeriod.{TimePeriod}
use ai_child.PyText.{PyText}

pub data SceneId : Type 0 where
  open_conversation daily_after_school_checkin learning_homework_help : SceneId
  daily_bedtime_reflection safety_guardian safety_gentle_checkin privacy_boundary : SceneId

pub data SceneTransitionType : Type 0 where
  replace push pop merge end : SceneTransitionType

unfoldable pub SceneId-discrete : Discrete SceneId
SceneId-discrete = hlevel

unfoldable pub scene_eq : SceneId → SceneId → Bool
unfolding SceneId-discrete decide
scene_eq a b = decide (SceneId-discrete a b)

-- SceneTransitionType.value
unfoldable pub transition_value : SceneTransitionType → String
transition_value replace = "replace"
transition_value push = "push"
transition_value pop = "pop"
transition_value merge = "merge"
transition_value end = "end"

pub record SceneAction : Type 0 where
  pub id : String
  pub label : String

pub record SceneDefinition : Type 0 where
  pub scene_id : SceneId
  pub display_name : String
  pub prompt_template : String
  pub default_transition : SceneTransitionType
  pub default_needs_input : Option String
  pub priority : ℕ
  pub is_safety_scene : Bool

-- SceneRegistry.get over the definitions of SceneRegistry.__init__
unfoldable pub registry_get : SceneId → SceneDefinition
registry_get open_conversation = record {
  scene_id = open_conversation;
  display_name = "开放对话";
  prompt_template = "conversation_open_v0_1";
  default_transition = merge;
  default_needs_input = none;
  priority = 20;
  is_safety_scene = false;
}
registry_get daily_after_school_checkin = record {
  scene_id = daily_after_school_checkin;
  display_name = "放学后交流";
  prompt_template = "daily_after_school_checkin_v0_1";
  default_transition = replace;
  default_needs_input = some "child_choice";
  priority = 30;
  is_safety_scene = false;
}
registry_get learning_homework_help = record {
  scene_id = learning_homework_help;
  display_name = "学习求助";
  prompt_template = "learning_homework_help_v0_1";
  default_transition = push;
  default_needs_input = some "problem_content";
  priority = 60;
  is_safety_scene = false;
}
registry_get daily_bedtime_reflection = record {
  scene_id = daily_bedtime_reflection;
  display_name = "睡前复盘";
  prompt_template = "daily_bedtime_reflection_v0_1";
  default_transition = replace;
  default_needs_input = some "low_stimulation_reflection";
  priority = 40;
  is_safety_scene = false;
}
registry_get safety_guardian = record {
  scene_id = safety_guardian;
  display_name = "安全守护";
  prompt_template = "safety_guardian_v0_1";
  default_transition = replace;
  default_needs_input = some "trusted_adult_support";
  priority = 100;
  is_safety_scene = true;
}
registry_get safety_gentle_checkin = record {
  scene_id = safety_gentle_checkin;
  display_name = "安全温和确认";
  prompt_template = "safety_gentle_checkin_v0_1";
  default_transition = merge;
  default_needs_input = some "gentle_checkin";
  priority = 80;
  is_safety_scene = true;
}
registry_get privacy_boundary = record {
  scene_id = privacy_boundary;
  display_name = "隐私边界提醒";
  prompt_template = "privacy_boundary_v0_1";
  default_transition = merge;
  default_needs_input = some "privacy_boundary_ack";
  priority = 70;
  is_safety_scene = false;
}

pub record SceneRouteRequest : Type 0 where
  pub child_id : String
  pub session_id : String
  pub message_id : Option String
  pub text : PyText
  pub time_period : TimePeriod
  pub intent : IntentType
  pub sub_intent : Option String
  pub intent_confidence : ℕ
  pub intent_evidence : List String
  pub needs_modality : Bool
  pub suggested_modalities : List String
  pub risk_level : RiskLevel
  pub safety_requires_parent_attention : Bool
  pub safety_evidence : List String
  pub parent_goals : List PyText
  pub current_stack : List SceneId
  pub homework_problem_text : Option PyText
  pub homework_problem_confidence : Option ℕ

-- the values of the `signals` dictionary
pub data SignalValue : Type 0 where
  text : String → SignalValue
  maybe_text : Option String → SignalValue
  texts : List String → SignalValue
  flag : Bool → SignalValue
  number : ℕ → SignalValue
  maybe_number : Option ℕ → SignalValue

pub record SceneRouteDecision : Type 0 where
  pub message_id : Option String
  pub session_id : String
  pub primary_intent : IntentType
  pub base_scene : SceneId
  pub active_scene : SceneId
  pub transition : SceneTransitionType
  pub scene_stack : List SceneId
  pub risk_level : RiskLevel
  pub confidence : ℕ
  pub reason : String
  pub sub_scene : Option String
  pub side_context : List String
  pub requires_parent_attention : Bool
  pub needs_input : Option String
  pub reply_text : String
  pub reply_emotion : String
  pub quick_actions : List SceneAction
  pub signals : List (String × SignalValue)
