-- ===== src/Turn/Alarm.antt =====
-- conversation_service.py, `handle_message`: from a child's text to the scene.
use ai_child.Prelude.{◌≡◌, true, ◌||◌, arith, ◌∙◌}
use ai_child.Enums.{RiskLevel, level_eq}
use ai_child.PyText.{PyText, contains_any}
use ai_child.Safety.{SafetyClassification, is_at_least, classify_input}
use ai_child.Safety.Hits.{normalize}
use ai_child.Safety.Markers.{self_harm_markers, stranger_markers, secret_markers}
use ai_child.Safety.Risk.{attention_iff_high, self_harm_alarm}
use ai_child.Safety.Contact.{stranger_secret_alarm}
use ai_child.Scene.{SceneRouteRequest}
use ai_child.Scene.Router.{SceneOrchestrator, Drawn, route, current_stack, requires_safety_guardian}
use ai_child.Scene.Guard.{IsGuardian, IsGuardedScene, watched, decide-IsGuardian, decide-Carries}
use ai_child.Turn.{Message, turn_intent, turn_request, route_turn}

-- `is_at_least` by the level's name
high_or_critical :
    (s : SafetyClassification)
    → is_at_least s RiskLevel.high
      ≡ level_eq s.risk_level RiskLevel.high || level_eq s.risk_level RiskLevel.critical
unfolding is_at_least level_eq
high_or_critical s = ground arith

watch_or_above :
    (s : SafetyClassification)
    → is_at_least s RiskLevel.watch ≡ true
    → is_at_least s RiskLevel.high || level_eq s.risk_level RiskLevel.watch ≡ true
unfolding is_at_least level_eq
watch_or_above s h = ground arith

module _ (lower : PyText → PyText) (drawn : Drawn) (m : Message) (o : SceneOrchestrator) where
  abbrev safety : SafetyClassification
  safety = classify_input lower m.text

  abbrev request : SceneRouteRequest
  request = turn_request m safety (turn_intent lower m safety)

  requires-attention : requires_safety_guardian request ≡ safety.requires_parent_attention
  unfolding requires_safety_guardian turn_request
  requires-attention = ground (arith, attention_iff_high lower m.text, high_or_critical safety)

  -- The decision on a message asks for a parent's attention exactly if its text does: neither the
  -- homework or image found, nor the intent, nor the session's stack changes that.
  pub attention_of_turn :
      (route_turn lower drawn m o).1.requires_parent_attention
      ≡ (classify_input lower m.text).requires_parent_attention
  unfolding route_turn route
  attention_of_turn =
      (decide-IsGuardian request (current_stack request o) lower).1 ∙ requires-attention

  pub route_turn-IsGuardian :
      (classify_input lower m.text).requires_parent_attention ≡ true
      → IsGuardian (route_turn lower drawn m o).1
  unfolding route_turn route
  route_turn-IsGuardian h =
      (decide-IsGuardian request (current_stack request o) lower).0 (requires-attention ∙ h)

  -- A message with a self-harm marker is routed to the safety guardian as critical, from any state.
  pub self_harm_turn :
      contains_any (normalize lower m.text) self_harm_markers ≡ true
      → IsGuardian (route_turn lower drawn m o).1
        × ((route_turn lower drawn m o).1.risk_level ≡ RiskLevel.critical)
  unfolding route_turn route turn_request
  self_harm_turn h =
      let alarm = self_harm_alarm lower m.text h in
      (
        route_turn-IsGuardian (alarm.2),
        (decide-Carries request (current_stack request o) lower).3 ∙ alarm.0,
      )

  -- A message that names a stranger and a secret is routed to the safety guardian, from any state.
  pub stranger_secret_turn :
      contains_any (normalize lower m.text) stranger_markers ≡ true
      → contains_any (normalize lower m.text) secret_markers ≡ true
      → IsGuardian (route_turn lower drawn m o).1
  stranger_secret_turn h k = route_turn-IsGuardian ((stranger_secret_alarm lower m.text h k).1)

  -- A message of watch level or above stays in a scene of an alarm: it never reaches homework, bedtime
  -- or open conversation, whatever the homework, the image or the session's stack.
  pub watched_turn :
      is_at_least (classify_input lower m.text) RiskLevel.watch ≡ true
      → IsGuardedScene (route_turn lower drawn m o).1.active_scene
  unfolding route_turn route
  watched_turn h = watched request (current_stack request o) lower (
      unfold turn_request in
      (ground
        (arith, requires-attention, attention_iff_high lower m.text, watch_or_above safety h)))
