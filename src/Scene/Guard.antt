-- ===== src/Scene/Guard.antt =====
-- scene_orchestrator.py, the ladder of `route`: the request and the decision, and the scenes of an alarm.
use ai_child.Prelude.{
  ◌≤◌, ◌≡◌, ◌⊎◌, ◌||◌, true, false, List, [], ◌∷◌, arith, refl, if_of, Bool-cases, inl, inr,
}
use ai_child.PyText.{PyText}
use ai_child.Enums.{RiskLevel, level_eq}
use ai_child.Scene.{SceneId, SceneRouteRequest, SceneRouteDecision, SceneTransitionType}
use ai_child.Scene.Decisions.{decision_of, safety_guardian, safety_gentle_checkin, privacy_boundary}
use ai_child.Scene.Everyday.{
  learning_homework_help, bedtime_reflection, after_school_checkin, emotion_open, open_conversation,
  pop_to_previous_scene, checkin_decision,
}
use ai_child.Scene.Router.{
  decide, decide_cases, requires_safety_guardian, requires_privacy_boundary,
}

-- What a decision keeps of its request.
abbrev pub Carries : SceneRouteRequest → SceneRouteDecision → Type 0
Carries r d =
    (d.session_id ≡ r.session_id)
    × (d.message_id ≡ r.message_id)
    × (d.primary_intent ≡ r.intent)
    × (d.risk_level ≡ r.risk_level)
    × (r.intent_confidence ≤ d.confidence)

-- No other decision than the guardian's asks for attention.
abbrev Quiet : SceneRouteDecision → Type 0
Quiet d = d.requires_parent_attention ≡ false

-- The guardian's decision.
abbrev pub IsGuardian : SceneRouteDecision → Type 0
IsGuardian d =
    (d.active_scene ≡ SceneId.safety_guardian)
    × (d.scene_stack ≡ SceneId.safety_guardian ∷ [])
    × (d.transition ≡ SceneTransitionType.replace)
    × (d.requires_parent_attention ≡ true)

-- The scenes of an alarm.
abbrev pub IsGuardedScene : SceneId → Type 0
IsGuardedScene s =
    (s ≡ SceneId.safety_guardian)
    ⊎ (s ≡ SceneId.privacy_boundary)
    ⊎ (s ≡ SceneId.safety_gentle_checkin)

abbrev GuardsScene : SceneRouteDecision → Type 0
GuardsScene d = IsGuardedScene d.active_scene

module _ (r : SceneRouteRequest) (stack : List SceneId) where
  learning-Carries : Carries r (learning_homework_help r stack)
  unfolding learning_homework_help decision_of
  learning-Carries = ground arith

  learning-Quiet : Quiet (learning_homework_help r stack)
  unfolding learning_homework_help decision_of
  learning-Quiet = ground arith

  pop-Carries : Carries r (pop_to_previous_scene r stack)
  unfolding pop_to_previous_scene checkin_decision decision_of
  pop-Carries = ground arith

  pop-Quiet : Quiet (pop_to_previous_scene r stack)
  unfolding pop_to_previous_scene checkin_decision decision_of
  pop-Quiet = ground arith

  -- Every decision keeps the session, the message, the intent and the risk level of its request, and
  -- is at least as confident as the intent was.
  pub decide-Carries : (lower : PyText → PyText) → Carries r (decide lower r stack)
  unfolding safety_guardian privacy_boundary safety_gentle_checkin bedtime_reflection
      after_school_checkin emotion_open open_conversation
  decide-Carries lower =
      decide_cases (Carries r) r stack lower (λ _. ground arith) (ground arith) (ground arith)
        (λ _. pop-Carries) learning-Carries (ground arith) (ground arith) (ground arith)
        (ground arith)

  decide-Quiet :
      (lower : PyText → PyText) → requires_safety_guardian r ≡ false → Quiet (decide lower r stack)
  unfolding safety_guardian privacy_boundary safety_gentle_checkin bedtime_reflection
      after_school_checkin emotion_open open_conversation
  decide-Quiet lower e =
      decide_cases Quiet r stack lower (λ t. cc) refl refl (λ _. pop-Quiet) learning-Quiet refl refl
        refl refl

  guarded :
      (lower : PyText → PyText)
      → requires_safety_guardian r ≡ true
      → decide lower r stack ≡ safety_guardian r
  unfolding decide
  guarded lower e = rw e

  -- A request that must be guarded goes to the safety guardian alone, over any stack and with any
  -- intent, and a decision asks for a parent's attention exactly for such a request.
  pub decide-IsGuardian :
      (lower : PyText → PyText)
      → (requires_safety_guardian r ≡ true → IsGuardian (decide lower r stack))
        × ((decide lower r stack).requires_parent_attention ≡ requires_safety_guardian r)
  decide-IsGuardian lower = (
    λ e. rw (guarded lower e) (unfold safety_guardian in (refl, refl, refl, refl)),
    elim (Bool-cases (requires_safety_guardian r)) [
      | inl e ↦ rw (guarded lower e, e) (unfold safety_guardian in refl)
      | inr e ↦ rw e (decide-Quiet lower e)
    ],
  )

  -- A request to be guarded, or of watch level, stays in a scene of an alarm.
  pub watched :
      (lower : PyText → PyText)
      → requires_safety_guardian r || level_eq r.risk_level RiskLevel.watch ≡ true
      → IsGuardedScene (decide lower r stack).active_scene
  unfolding decide safety_guardian privacy_boundary safety_gentle_checkin
  watched lower h =
      if_of GuardsScene (requires_safety_guardian r) (λ _. inl refl)
        λ unguarded.
          if_of GuardsScene (requires_privacy_boundary r) (λ _. inr (inl refl))
            λ _.
              if_of GuardsScene (level_eq r.risk_level RiskLevel.watch) (λ _. inr (inr refl))
                λ calm. absurd (ground (arith, unguarded, calm))
