-- ===== src/Intent.antt =====
-- backend/app/services/intent_classifier.py: the keyword-first classifier of a child's intent.
-- A confidence is counted in hundredths, which every constant of the source is a multiple of.
pub mod Markers
pub mod Laws
mod Tests
use ai_child.Prelude.{
  ℕ, String, Bool, true, false, not, ◌&&◌, ◌||◌, List, [], ◌∷◌, ◌++◌, any, str_eq, if◌then◌else◌,
  Option, none, some,
}
use ai_child.Enums.{RiskLevel, RiskCategory, IntentType, level_eq, category_eq, category_value}
use ai_child.TimePeriod.{TimePeriod, period_eq}
use ai_child.PyText.{PyText, contains, contains_any, codes}
use ai_child.Safety.{SafetyClassification, is_at_least}
use ai_child.Safety.Hits.{normalize}
use Markers.{
  direct_answer_markers, bedtime_markers, tired_markers, social_markers, after_school_markers,
  explicit_phrases, learning_subjects, help_markers, general_markers,
}

pub record IntentClassification : Type 0 where
  pub intent : IntentType
  pub sub_intent : Option String
  pub emotion : String
  pub risk_level : RiskLevel
  pub needs_modality : Bool
  pub suggested_modalities : List String
  pub confidence : ℕ
  pub evidence : List String

-- IntentClassification(intent=..., risk_level=..., confidence=..., evidence=...), the other fields
-- at their defaults
unfoldable pub intent_of : IntentType → RiskLevel → ℕ → List String → IntentClassification
intent_of intent level confidence evidence = record {
  intent = intent;
  sub_intent = none;
  emotion = "neutral";
  risk_level = level;
  needs_modality = false;
  suggested_modalities = [];
  confidence = confidence;
  evidence = evidence;
}

-- _is_general_not_know_expression
unfoldable pub is_general_not_know_expression : PyText → Bool
is_general_not_know_expression t = contains_any t general_markers

-- _is_explicit_learning_help
unfoldable pub is_explicit_learning_help : PyText → Bool
unfolding is_general_not_know_expression
is_explicit_learning_help t =
    if is_general_not_know_expression t
    then false
    else if contains_any t explicit_phrases
    then true
    else contains_any t learning_subjects && contains_any t help_markers

-- _is_child_speech_watch_lite
unfoldable pub is_child_speech_watch_lite : SafetyClassification → Bool
unfolding level_eq
is_child_speech_watch_lite s =
    level_eq s.risk_level RiskLevel.low
    && any (λ e. str_eq e "body_discomfort_watch_lite" || str_eq e "exaggerated_fatigue") s.evidence

-- _watch_intent
unfoldable pub watch_intent : SafetyClassification → IntentClassification
unfolding intent_of category_eq category_value
watch_intent s =
    let bullying =
      record (intent_of IntentType.social_issue s.risk_level 88 ("safety_watch" ∷ s.evidence)) {
        sub_intent = some (category_value RiskCategory.bullying);
        emotion = "concerned";
      } in
    let distress =
      record (intent_of IntentType.emotion_expression s.risk_level 84
        ("safety_watch" ∷ s.evidence)) {
          sub_intent = some (category_value RiskCategory.mental_distress);
          emotion = "sad";
        } in
    let other =
      record (intent_of IntentType.safety_risk s.risk_level 82 ("safety_watch" ∷ s.evidence)) {
        sub_intent = some (category_value s.primary_category);
        emotion = "concerned";
      } in
    if category_eq s.primary_category RiskCategory.bullying
    then bullying
    else if category_eq s.primary_category RiskCategory.mental_distress
    then distress
    else other

-- `safety.risk_level if safety else RiskLevel.NONE`
unfoldable pub level_or_none : Option SafetyClassification → RiskLevel
level_or_none none = RiskLevel.none
level_or_none (some s) = s.risk_level

-- The branches of `classify` that read only the safety classification; `none` goes on.
unfoldable pub safety_intent : SafetyClassification → Option IntentClassification
unfolding intent_of is_at_least category_eq level_eq category_value
safety_intent s =
    if s.requires_parent_attention || is_at_least s RiskLevel.high
    then some
        (record (intent_of IntentType.safety_risk s.risk_level 98
          ("safety_priority" ∷ s.evidence)) {
            sub_intent = some (category_value s.primary_category);
            emotion = "concerned";
          })
    else if category_eq s.primary_category RiskCategory.privacy
    then some
        (record (intent_of IntentType.privacy_question s.risk_level 86 ("privacy_rule" ∷ [])) {
          sub_intent = some "privacy_boundary";
        })
    else if is_child_speech_watch_lite s
    then some
        (record (intent_of IntentType.emotion_expression s.risk_level 84
          ("child_speech_watch_lite" ∷ s.evidence)) {
            sub_intent = some (
                if any (λ e. str_eq e "body_discomfort_watch_lite") s.evidence
                then "body_discomfort_watch_lite"
                else "exaggerated_fatigue");
            emotion = "tired";
          })
    else if level_eq s.risk_level RiskLevel.watch
    then some (watch_intent s)
    else none

-- the second part of the evidence of a bedtime keyword
unfoldable pub bedtime_context : Option TimePeriod → List String
unfolding period_eq
bedtime_context none = []
bedtime_context (some p) = if period_eq p TimePeriod.bedtime then "bedtime_context" ∷ [] else []

-- The branches of `classify` that read the normalized text, at a given risk level.
unfoldable pub keyword_intent : PyText → Option TimePeriod → RiskLevel → IntentClassification
unfolding intent_of
keyword_intent t time level =
    if contains_any t direct_answer_markers
    then record (intent_of IntentType.learning_help level 90
        ("direct_answer_request_keyword" ∷ [])) {
          sub_intent = some "direct_answer_request";
          suggested_modalities = "text" ∷ [];
        }
    else if contains_any t bedtime_markers
    then record (intent_of IntentType.bedtime_reflection level 92
        ("bedtime_keyword" ∷ bedtime_context time)) { sub_intent = some "bedtime_closeout" }
    else if is_explicit_learning_help t
    then record (intent_of IntentType.learning_help level 94
        ("explicit_learning_help_keyword" ∷ [])) {
          sub_intent = some "homework_problem_unknown_content";
          needs_modality = true;
          suggested_modalities = "photo" ∷ "voice_description" ∷ "text" ∷ [];
        }
    else if contains_any t tired_markers
    then record (intent_of IntentType.emotion_expression level 86 ("emotion_keyword" ∷ [])) {
      sub_intent = some "low_energy_or_frustrated";
      emotion =
          if contains (codes "不想说话") t || contains (codes "累") t then "tired" else "frustrated";
    }
    else if contains_any t social_markers
    then record (intent_of IntentType.social_issue level 74 ("social_keyword" ∷ [])) {
      sub_intent = some "school_social_context";
    }
    else if contains_any t after_school_markers
    then record (intent_of IntentType.after_school_checkin level 90 ("after_school_keyword" ∷ [])) {
      sub_intent = some "arrival_checkin";
    }
    else intent_of IntentType.casual_chat level 50 ("rule_default_conversation_open" ∷ [])

-- IntentClassifier.classify
unfoldable pub classify :
    (PyText → PyText)
    → PyText
    → Option TimePeriod
    → Option SafetyClassification
    → IntentClassification
classify lower text time none = keyword_intent (normalize lower text) time RiskLevel.none
classify lower text time (some s) = elim (safety_intent s) [
  | some intent ↦ intent
  | none ↦ keyword_intent (normalize lower text) time s.risk_level
]
