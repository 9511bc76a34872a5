-- ===== src/Hooks/Silent.antt =====
-- conversation_memory_hooks.py with the route of a message: what is recalled at an alarm.
use ai_child.Prelude.{
  ℕ, ◌≡◌, inl, inr, Bool, true, false, [], Option, none, some, String, map, str_eq, arith, refl, ap,
}
use ai_child.PyText.{PyText, opt_eq}
use ai_child.Enums.{RiskLevel}
use ai_child.Safety.{classify_input, is_at_least}
use ai_child.Scene.{SceneId}
use ai_child.Scene.Router.{SceneOrchestrator, Drawn}
use ai_child.Scene.Guard.{IsGuardedScene}
use ai_child.Turn.{Message, route_turn}
use ai_child.TimePeriod.{
  TimePeriod, morning_before_school, after_school, homework_time, bedtime, other, period_str,
}
use ai_child.Turn.Engagement.{pre_check_child_engagement}
use ai_child.Turn.Alarm.{watched_turn}
use ai_child.Memory.Service.{Store}
use ai_child.Hooks.Session.{SessionRecallState, SessionRecall, new_state, get_session_state}
use ai_child.Hooks.Recall.{
  Recall, is_safety_scene, recall_in_scene, recall_in_session, session_of, recall_for, recall,
  retrieve_context, memory_to_runtime_context,
}
use ai_child.Hooks.Requests.{scene_value}

-- the call of `handle_message` for a message, with the clocks; `str(time_context.time_period) == "bedtime"`
unfoldable pub recall_of : (PyText → PyText) → Drawn → Message → SceneOrchestrator → ℕ → ℕ → Recall
unfolding route_turn scene_value period_str pre_check_child_engagement
recall_of lower drawn m o now clock = record {
  child_id = m.child_id;
  current_text = m.text;
  limit = 5;
  session_id = some m.session_id;
  bedtime = str_eq (period_str m.time_period) "bedtime";
  child_engagement = some (pre_check_child_engagement lower m.text);
  active_scene = some (scene_value (route_turn lower drawn m o).1.active_scene);
  now = now;
  clock = clock;
}

-- No message is one of bedtime for the hooks: no text of a period is its value.
no_bedtime :
    (lower : PyText → PyText) (drawn : Drawn) (m : Message) (o : SceneOrchestrator) (now clock : ℕ)
    → (recall_of lower drawn m o now clock).bedtime ≡ false
unfolding recall_of
no_bedtime lower drawn m o now clock = never m.time_period
  where
    never : (p : TimePeriod) → str_eq (period_str p) "bedtime" ≡ false
    never morning_before_school = refl
    never after_school = refl
    never homework_time = refl
    never bedtime = refl
    never other = refl

guarded_is_safe : (s : SceneId) → IsGuardedScene s → is_safety_scene (some (scene_value s)) ≡ true
unfolding is_safety_scene opt_eq scene_value
guarded_is_safe s g = elim g [
  | inl e ↦ rw e refl
  | inr f ↦ elim f [ inl e ↦ rw e refl | inr e ↦ rw e refl ]
]

module _ (lower : PyText → PyText) (c : Recall) (store : Store)
    (safe : is_safety_scene c.active_scene ≡ true) where
  scene_is_silent :
      (tracked : Bool) (s : SessionRecallState) → (recall_in_scene lower c store tracked s).0 ≡ []
  unfolding recall_in_scene
  scene_is_silent tracked s = rw safe refl

  session_is_silent : (s : SessionRecallState) → (recall_in_session lower c store s).0 ≡ []
  unfolding recall_in_session
  session_is_silent s = ground (arith, scene_is_silent true s)

  recall_is_silent : (sessions : SessionRecall) → (recall lower c store sessions).0 ≡ []
  unfolding recall recall_for
  recall_is_silent sessions = by_session (session_of c.session_id)
    where
      by_session : (o : Option String) → (recall_for lower c store o sessions).0 ≡ []
      by_session none = scene_is_silent false new_state
      by_session (some id) = session_is_silent (get_session_state id sessions)

-- For a message of watch level or above the model is given no memory, whatever the homework, the image, the
-- session and the memories are.
pub watched_turn_is_silent :
    (lower : PyText → PyText) (drawn : Drawn) (m : Message) (o : SceneOrchestrator) (now clock : ℕ)
    (store : Store) (sessions : SessionRecall)
    → is_at_least (classify_input lower m.text) RiskLevel.watch ≡ true
    → (retrieve_context lower (recall_of lower drawn m o now clock) store sessions).0 ≡ []
unfolding retrieve_context recall_of
watched_turn_is_silent lower drawn m o now clock store sessions h =
    ap (map memory_to_runtime_context) (
      recall_is_silent lower (recall_of lower drawn m o now clock) store
        (guarded_is_safe _ (watched_turn lower drawn m o h)) sessions)
