-- ===== src/Scene/Tests.antt =====
-- Runs of the scene router, and its theorems at concrete requests.
use ai_child.Prelude.{◌≡◌, none, List, [], ◌∷◌, false, lookup_or, insert, refl, inl, arith}
use ai_child.Enums.{RiskLevel, IntentType}
use ai_child.TimePeriod.{TimePeriod}
use ai_child.PyText.{PyText, codes, contains_any, strip, without}
use ai_child.Safety.Hits.{normalize}
use ai_child.Scene.{SceneId, SceneRouteRequest}
use ai_child.Scene.Router.{
  SceneOrchestrator, Drawn, decide, route, current_stack, get_session_stack,
  should_pop_learning_scene,
}
use ai_child.Scene.Everyday.{
  after_school_checkin, learning_homework_help, learning_stack, pop_to_previous_scene,
}
use ai_child.Scene.Outcome.{AllShallow, Run, Call, Run-AllShallow}

abbrev lower : PyText → PyText
lower text = text

abbrev drawn : Drawn
drawn = record { record_id = "r1"; message_uuid = "m1"; now = 1000 }

abbrev empty : SceneOrchestrator
empty = record { session_stacks = []; records = [] }

abbrev request_of : PyText → IntentType → RiskLevel → SceneRouteRequest
request_of text intent level = record {
  child_id = "c1";
  session_id = "s1";
  message_id = none;
  text = text;
  time_period = TimePeriod.after_school;
  intent = intent;
  sub_intent = none;
  intent_confidence = 90;
  intent_evidence = [];
  needs_modality = false;
  suggested_modalities = [];
  risk_level = level;
  safety_requires_parent_attention = false;
  safety_evidence = [];
  parent_goals = [];
  current_stack = [];
  homework_problem_text = none;
  homework_problem_confidence = none;
}

abbrev arrival : SceneRouteRequest
arrival = request_of (codes "我回来了") IntentType.after_school_checkin RiskLevel.none

abbrev question : SceneRouteRequest
question = request_of (codes "这道题不会做") IntentType.learning_help RiskLevel.none

abbrev done : SceneRouteRequest
done = request_of (codes "谢谢，做完了") IntentType.casual_chat RiskLevel.none

abbrev threat : SceneRouteRequest
threat = request_of (codes "有人要我保密") IntentType.safety_risk RiskLevel.critical

abbrev after_arrival : SceneOrchestrator
after_arrival = (route lower drawn arrival empty).0

abbrev after_question : SceneOrchestrator
after_question = (route lower drawn question after_arrival).0

-- a question is pushed over the arrival, and popped when it is done
pushed :
    get_session_stack "s1" after_question
    ≡ SceneId.open_conversation ∷ SceneId.learning_homework_help ∷ []
unfolding get_session_stack route lookup_or insert decide current_stack should_pop_learning_scene
    after_school_checkin learning_homework_help learning_stack
pushed = refl

popped_again :
    get_session_stack "s1" (route lower drawn done after_question).0
    ≡ SceneId.open_conversation ∷ []
unfolding get_session_stack route lookup_or insert decide current_stack normalize strip without
    contains_any should_pop_learning_scene after_school_checkin learning_homework_help
    learning_stack pop_to_previous_scene
popped_again = refl

abbrev homework_stack : List SceneId
homework_stack = SceneId.daily_after_school_checkin ∷ SceneId.learning_homework_help ∷ []

run : Run lower empty after_question
run =
    Run.next (Run.next Run.here (Call.routes drawn arrival empty (inl (omega arith))))
      (Call.routes drawn question after_arrival (inl (omega arith)))

empty-AllShallow : AllShallow empty
unfolding get_session_stack lookup_or
empty-AllShallow session = inl (omega arith)

Run-AllShallow_example : AllShallow after_question
Run-AllShallow_example = Run-AllShallow run empty-AllShallow
