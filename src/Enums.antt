-- ===== src/Enums.antt =====
-- backend/app/domain/enums.py: the enumerations that the services share, with their `StrEnum` values.
use mathlib.Core.Bool.{decide}
use ai_child.Prelude.{Bool, String, ℕ}

pub data RiskLevel : Type 0 where
  none low watch high critical : RiskLevel

pub data RiskCategory : Type 0 where
  none privacy bullying self_harm violence sexual_content adult_secret : RiskCategory
  stranger_contact medical mental_distress dangerous_behavior unknown_risk : RiskCategory

pub data IntentType : Type 0 where
  casual_chat interest_exploration after_school_checkin learning_help homework_problem : IntentType
  reading_expression emotion_expression social_issue bedtime_reflection ai_literacy : IntentType
  privacy_question safety_risk unknown : IntentType

unfoldable pub RiskLevel-discrete : Discrete RiskLevel
RiskLevel-discrete = hlevel

unfoldable pub RiskCategory-discrete : Discrete RiskCategory
RiskCategory-discrete = hlevel

unfoldable pub IntentType-discrete : Discrete IntentType
IntentType-discrete = hlevel

-- `==` on the members
unfoldable pub level_eq : RiskLevel → RiskLevel → Bool
unfolding RiskLevel-discrete decide
level_eq a b = decide (RiskLevel-discrete a b)

unfoldable pub category_eq : RiskCategory → RiskCategory → Bool
unfolding RiskCategory-discrete decide
category_eq a b = decide (RiskCategory-discrete a b)

unfoldable pub intent_eq : IntentType → IntentType → Bool
unfolding IntentType-discrete decide
intent_eq a b = decide (IntentType-discrete a b)

-- RiskCategory.value
unfoldable pub category_value : RiskCategory → String
category_value RiskCategory.none = "none"
category_value RiskCategory.privacy = "privacy"
category_value RiskCategory.bullying = "bullying"
category_value RiskCategory.self_harm = "self_harm"
category_value RiskCategory.violence = "violence"
category_value RiskCategory.sexual_content = "sexual_content"
category_value RiskCategory.adult_secret = "adult_secret"
category_value RiskCategory.stranger_contact = "stranger_contact"
category_value RiskCategory.medical = "medical"
category_value RiskCategory.mental_distress = "mental_distress"
category_value RiskCategory.dangerous_behavior = "dangerous_behavior"
category_value RiskCategory.unknown_risk = "unknown_risk"

-- safety_engine.py: _RISK_RANK
unfoldable pub risk_rank : RiskLevel → ℕ
risk_rank RiskLevel.none = 0
risk_rank RiskLevel.low = 1
risk_rank RiskLevel.watch = 2
risk_rank RiskLevel.high = 3
risk_rank RiskLevel.critical = 4

-- RiskLevel.value
unfoldable pub level_value : RiskLevel → String
level_value RiskLevel.none = "none"
level_value RiskLevel.low = "low"
level_value RiskLevel.watch = "watch"
level_value RiskLevel.high = "high"
level_value RiskLevel.critical = "critical"

-- IntentType.value
unfoldable pub intent_value : IntentType → String
intent_value IntentType.casual_chat = "casual_chat"
intent_value IntentType.interest_exploration = "interest_exploration"
intent_value IntentType.after_school_checkin = "after_school_checkin"
intent_value IntentType.learning_help = "learning_help"
intent_value IntentType.homework_problem = "homework_problem"
intent_value IntentType.reading_expression = "reading_expression"
intent_value IntentType.emotion_expression = "emotion_expression"
intent_value IntentType.social_issue = "social_issue"
intent_value IntentType.bedtime_reflection = "bedtime_reflection"
intent_value IntentType.ai_literacy = "ai_literacy"
intent_value IntentType.privacy_question = "privacy_question"
intent_value IntentType.safety_risk = "safety_risk"
intent_value IntentType.unknown = "unknown"
