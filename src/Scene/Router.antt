-- ===== src/Scene/Router.antt =====
-- scene_orchestrator.py, `SceneOrchestrator`, and the log of
-- backend/app/repositories/routing_decision_repository.py. The identifiers and the time that a saved
-- record draws from the environment are an argument.
use ai_child.Prelude.{
  ℕ, String, Bool, true, false, not, ◌||◌, List, [], ◌∷◌, ◌++◌, str_eq, if◌then◌else◌, Option, none,
  some, Dict, lookup_or, insert, remove, ◌≡◌, if_of, arith,
}
use mathlib.Core.List.{reverse}
use ai_child.Enums.{RiskLevel, IntentType, level_eq, intent_eq}
use ai_child.PyText.{PyText, contains_any, opt_eq}
use ai_child.Safety.Hits.{normalize}
use ai_child.Scene.{SceneId, SceneRouteRequest, SceneRouteDecision, SignalValue}
use ai_child.Scene.Decisions.{ends_in, safety_guardian, safety_gentle_checkin, privacy_boundary}
use ai_child.Scene.Everyday.{
  learning_homework_help, bedtime_reflection, after_school_checkin, emotion_open,
  emotion_open_support, open_conversation, pop_to_previous_scene,
}

-- domain/scene.py: RoutingDecisionRecord. `decision_json` is the dump of the whole decision.
pub record RoutingDecisionRecord : Type 0 where
  pub id : String
  pub message_id : String
  pub session_id : String
  pub primary_intent : IntentType
  pub active_scene : SceneId
  pub sub_scene : Option String
  pub risk_level : RiskLevel
  pub decision_json : SceneRouteDecision
  pub signals_json : List (String × SignalValue)
  pub confidence : ℕ
  pub created_at : ℕ

-- what a save draws: uuid4() for the record, uuid4() for a missing message id, and the time
pub record Drawn : Type 0 where
  pub record_id : String
  pub message_uuid : String
  pub now : ℕ

-- `decision.message_id or str(uuid4())`
unfoldable pub message_id_or : Option String → String → String
message_id_or none fresh = fresh
message_id_or (some m) fresh = if str_eq m "" then fresh else m

-- the RoutingDecisionRecord of a decision
unfoldable pub record_of : Drawn → SceneRouteDecision → RoutingDecisionRecord
unfolding message_id_or
record_of drawn d = record {
  id = drawn.record_id;
  message_id = message_id_or d.message_id drawn.message_uuid;
  session_id = d.session_id;
  primary_intent = d.primary_intent;
  active_scene = d.active_scene;
  sub_scene = d.sub_scene;
  risk_level = d.risk_level;
  decision_json = d;
  signals_json = d.signals;
  confidence = d.confidence;
  created_at = drawn.now;
}

-- InMemoryRoutingDecisionRepository.save
unfoldable pub save_decision :
    Drawn → SceneRouteDecision → List RoutingDecisionRecord → List RoutingDecisionRecord
save_decision drawn d records = records ++ record_of drawn d ∷ []

-- the loop of `latest_for_session`, over the reversed records
unfoldable pub first_of_session : String → List RoutingDecisionRecord → Option RoutingDecisionRecord
first_of_session session [] = none
first_of_session session (r ∷ records) =
    if str_eq r.session_id session then some r else first_of_session session records

-- InMemoryRoutingDecisionRepository.latest_for_session
unfoldable pub latest_for_session :
    String → List RoutingDecisionRecord → Option RoutingDecisionRecord
unfolding first_of_session
latest_for_session session records = first_of_session session (reverse records)

-- InMemoryRoutingDecisionRepository.list_by_session
unfoldable pub list_by_session : String → List RoutingDecisionRecord → List RoutingDecisionRecord
list_by_session session [] = []
list_by_session session (r ∷ records) =
    let rest = list_by_session session records in
    if str_eq r.session_id session then r ∷ rest else rest

pub record SceneOrchestrator : Type 0 where
  pub session_stacks : Dict (List SceneId)
  pub records : List RoutingDecisionRecord

-- _requires_safety_guardian
unfoldable pub requires_safety_guardian : SceneRouteRequest → Bool
unfolding level_eq
requires_safety_guardian r =
    r.safety_requires_parent_attention
    || (level_eq r.risk_level RiskLevel.high || level_eq r.risk_level RiskLevel.critical)

-- _requires_privacy_boundary
unfoldable pub requires_privacy_boundary : SceneRouteRequest → Bool
unfolding intent_eq opt_eq
requires_privacy_boundary r =
    intent_eq r.intent IntentType.privacy_question || opt_eq r.sub_intent "privacy_boundary"

abbrev pub completion_markers : List String
completion_markers = "做完了" ∷ "完成了" ∷ "会了" ∷ "谢谢" ∷ "不用了" ∷ []

-- _should_pop_learning_scene
unfoldable pub should_pop_learning_scene :
    (PyText → PyText) → SceneRouteRequest → List SceneId → Bool
unfolding ends_in intent_eq
should_pop_learning_scene lower r stack =
    if not (ends_in SceneId.learning_homework_help stack)
    then false
    else if intent_eq r.intent IntentType.learning_help || intent_eq r.intent IntentType.safety_risk
    then false
    else contains_any (normalize lower r.text) completion_markers

-- `stack or other`
unfoldable pub stack_or : List SceneId → List SceneId → List SceneId
stack_or [] other = other
stack_or (s ∷ stack) other = s ∷ stack

-- `request.current_stack or self._session_stacks.get(request.session_id, [])`
unfoldable pub current_stack : SceneRouteRequest → SceneOrchestrator → List SceneId
unfolding stack_or
current_stack r o = stack_or r.current_stack (lookup_or [] r.session_id o.session_stacks)

-- the ladder of `route` over the current stack
unfoldable pub decide : (PyText → PyText) → SceneRouteRequest → List SceneId → SceneRouteDecision
unfolding requires_safety_guardian requires_privacy_boundary level_eq intent_eq
decide lower r stack =
    if requires_safety_guardian r
    then safety_guardian r
    else if requires_privacy_boundary r
    then privacy_boundary r stack
    else if level_eq r.risk_level RiskLevel.watch
    then safety_gentle_checkin r stack
    else if should_pop_learning_scene lower r stack
    then pop_to_previous_scene r stack
    else if intent_eq r.intent IntentType.learning_help
    then learning_homework_help r stack
    else if intent_eq r.intent IntentType.bedtime_reflection
    then bedtime_reflection r
    else if intent_eq r.intent IntentType.after_school_checkin
    then after_school_checkin r
    else if intent_eq r.intent IntentType.emotion_expression
    then emotion_open_support r stack
    else open_conversation r stack

-- SceneOrchestrator.route
unfoldable pub route :
    (PyText → PyText)
    → Drawn
    → SceneRouteRequest
    → SceneOrchestrator
    → SceneOrchestrator × SceneRouteDecision
route lower drawn r o =
    let decision = decide lower r (current_stack r o) in
    (
      record {
        session_stacks = insert r.session_id decision.scene_stack o.session_stacks;
        records = save_decision drawn decision o.records;
      },
      decision,
    )

-- SceneOrchestrator.get_session_stack
unfoldable pub get_session_stack : String → SceneOrchestrator → List SceneId
get_session_stack session o = lookup_or [] session o.session_stacks

-- SceneOrchestrator.reset_session
unfoldable pub reset_session : String → SceneOrchestrator → SceneOrchestrator
reset_session session o = record o { session_stacks = remove session o.session_stacks }

pops_on_learning :
    (lower : PyText → PyText) (r : SceneRouteRequest) (stack : List SceneId)
    → should_pop_learning_scene lower r stack ≡ true
    → ends_in SceneId.learning_homework_help stack ≡ true
unfolding should_pop_learning_scene
pops_on_learning lower r stack h = ground arith

-- To prove of a decision what holds of every decision that the ladder can reach.
module _ {ℓ} (P : SceneRouteDecision → Type ℓ) (r : SceneRouteRequest) (stack : List SceneId) where
  emotion_cases :
      P (learning_homework_help r stack)
      → P (bedtime_reflection r)
      → P (emotion_open r)
      → P (emotion_open_support r stack)
  unfolding emotion_open_support
  emotion_cases learning bedtime calm =
      if_of P (ends_in SceneId.learning_homework_help stack) (λ _. learning)
        λ _. if_of P (ends_in SceneId.daily_bedtime_reflection stack) (λ _. bedtime) (λ _. calm)

  pub decide_cases :
      (lower : PyText → PyText)
      → (requires_safety_guardian r ≡ true → P (safety_guardian r))
      → P (privacy_boundary r stack)
      → P (safety_gentle_checkin r stack)
      → (ends_in SceneId.learning_homework_help stack ≡ true → P (pop_to_previous_scene r stack))
      → P (learning_homework_help r stack)
      → P (bedtime_reflection r)
      → P (after_school_checkin r)
      → P (emotion_open r)
      → P (open_conversation r stack)
      → P (decide lower r stack)
  unfolding decide
  decide_cases lower guardian privacy gentle pop learning bedtime arrival calm open_talk =
      if_of P (requires_safety_guardian r) guardian λ _.
        if_of P (requires_privacy_boundary r) (λ _. privacy)
          λ _.
            if_of P (level_eq r.risk_level RiskLevel.watch) (λ _. gentle)
              λ _.
                if_of P (should_pop_learning_scene lower r stack)
                  (λ e. pop (pops_on_learning lower r stack e))
                  λ _.
                    if_of P (intent_eq r.intent IntentType.learning_help) (λ _. learning)
                      λ _.
                        if_of P (intent_eq r.intent IntentType.bedtime_reflection) (λ _. bedtime)
                          λ _.
                            if_of P (intent_eq r.intent IntentType.after_school_checkin)
                              (λ _. arrival)
                              λ _.
                                if_of P (intent_eq r.intent IntentType.emotion_expression)
                                  (λ _. emotion_cases learning bedtime calm) (λ _. open_talk)
