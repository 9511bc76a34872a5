-- ===== src/Intent/Tests.antt =====
-- Runs of the intent classifier, and its theorems at concrete texts.
use ai_child.Prelude.{◌≡◌, none, some, [], ◌∷◌, false, refl}
use ai_child.Enums.{RiskLevel, RiskCategory, IntentType, risk_rank}
use ai_child.TimePeriod.{TimePeriod}
use ai_child.PyText.{PyText, codes, contains_any, strip, without}
use ai_child.Safety.{SafetyClassification, is_at_least}
use ai_child.Safety.Hits.{normalize}
use ai_child.Intent.{
  classify, keyword_intent, is_explicit_learning_help, safety_intent, is_child_speech_watch_lite,
  watch_intent,
}
use ai_child.Intent.Laws.{IsGuardedIntent, guarded_intent}

abbrev lower : PyText → PyText
lower text = text

abbrev homework_text : PyText
homework_text = codes "这道题不会做"

abbrev bullied : SafetyClassification
bullied = record {
  risk_level = RiskLevel.watch;
  primary_category = RiskCategory.bullying;
  categories = RiskCategory.bullying ∷ [];
  requires_parent_attention = false;
  evidence = "bullying" ∷ [];
  safe_response_hint = "gentle_checkin_and_parent_summary";
}

homework_intent :
    (classify lower homework_text (some TimePeriod.homework_time) none).intent
    ≡ IntentType.learning_help
unfolding classify normalize strip without contains_any keyword_intent is_explicit_learning_help
homework_intent = refl

-- the same words at watch level are a social issue
homework_intent_watch :
    (classify lower homework_text (some TimePeriod.homework_time) (some bullied)).intent
    ≡ IntentType.social_issue
unfolding classify safety_intent is_at_least risk_rank is_child_speech_watch_lite watch_intent
homework_intent_watch = refl

guarded_intent_example :
    IsGuardedIntent
      (classify lower homework_text (some TimePeriod.homework_time) (some bullied)).intent
unfolding is_at_least risk_rank
guarded_intent_example =
    guarded_intent lower homework_text (some TimePeriod.homework_time) bullied refl
