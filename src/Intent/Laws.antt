-- ===== src/Intent/Laws.antt =====
-- intent_classifier.py, `classify`: the intent and the risk level of a child's text.
use ai_child.Prelude.{
  ◌≡◌, ◌≢◌, Option-cases, ◌⊎◌, inl, inr, true, ◌||◌, Option, none, some, arith, refl, if_of,
}
use ai_child.Enums.{RiskLevel, RiskCategory, IntentType, level_eq, category_eq}
use ai_child.TimePeriod.{TimePeriod}
use ai_child.PyText.{PyText}
use ai_child.Safety.{SafetyClassification, is_at_least}
use ai_child.Safety.Hits.{normalize}
use ai_child.Intent.{
  IntentClassification, safety_intent, keyword_intent, watch_intent, level_or_none, classify,
  is_child_speech_watch_lite,
}

module _ (t : PyText) (time : Option TimePeriod) (level : RiskLevel) where
  level-keyword : (keyword_intent t time level).risk_level ≡ level
  unfolding keyword_intent
  level-keyword = ground arith

  keyword-ne-safety : (keyword_intent t time level).intent ≢ IntentType.safety_risk
  unfolding keyword_intent
  keyword-ne-safety = ground arith

level-safety :
    (s : SafetyClassification) (i : IntentClassification)
    → safety_intent s ≡ some i
    → i.risk_level ≡ s.risk_level
unfolding safety_intent watch_intent
level-safety s i h = ground arith

-- The intent carries the risk level of the safety classification, and none where there is none.
pub level-classify :
    (lower : PyText → PyText) (text : PyText) (time : Option TimePeriod)
    (s : Option SafetyClassification)
    → (classify lower text time s).risk_level ≡ level_or_none s
unfolding classify level_or_none
level-classify lower text time none = level-keyword (normalize lower text) time RiskLevel.none
level-classify lower text time (some s) = elim (Option-cases (safety_intent s)) [
  | inl e ↦ rw (e, classify) (level-keyword (normalize lower text) time s.risk_level)
  | inr (i, e) ↦ rw (e, classify) (level-safety s i e)
]

-- The intents that a text of watch level or above can have.
abbrev pub IsGuardedIntent : IntentType → Type 0
IsGuardedIntent i =
    (i ≡ IntentType.safety_risk)
    ⊎ (i ≡ IntentType.privacy_question)
    ⊎ (i ≡ IntentType.social_issue)
    ⊎ (i ≡ IntentType.emotion_expression)

-- The branches that read the safety classification give a guarded intent.
abbrev Guards : Option IntentClassification → Type 0
Guards none = ⊥
Guards (some i) = IsGuardedIntent i.intent

watch_intent-Guards : (s : SafetyClassification) → Guards (some (watch_intent s))
unfolding watch_intent
watch_intent-Guards s = ground arith

safety_intent-Guards :
    (s : SafetyClassification) → is_at_least s RiskLevel.watch ≡ true → Guards (safety_intent s)
unfolding safety_intent
safety_intent-Guards s h =
    if_of Guards (s.requires_parent_attention || is_at_least s RiskLevel.high) (λ _. inl refl)
      λ below.
        if_of Guards (category_eq s.primary_category RiskCategory.privacy) (λ _. inr (inl refl))
          λ _.
            if_of Guards (is_child_speech_watch_lite s) (λ _. inr (inr (inr refl)))
              λ _.
                if_of Guards (level_eq s.risk_level RiskLevel.watch) (λ _. watch_intent-Guards s)
                  λ other. ground arith

-- A text of watch level or above is never taken for small talk, a learning question, an arrival or
-- a good night: its intent is a safety, privacy, social or emotional one.
pub guarded_intent :
    (lower : PyText → PyText) (text : PyText) (time : Option TimePeriod) (s : SafetyClassification)
    → is_at_least s RiskLevel.watch ≡ true
    → IsGuardedIntent (classify lower text time (some s)).intent
unfolding classify
guarded_intent lower text time s h = elim (Option-cases (safety_intent s)) [
  | inl e ↦ absurd (rw e at (safety_intent-Guards s h))
  | inr (i, e) ↦ rw (e, classify) (rw e at (safety_intent-Guards s h))
]
