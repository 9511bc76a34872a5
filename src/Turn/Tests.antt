-- ===== src/Turn/Tests.antt =====
-- A message from its text to its scene, and the theorems at concrete messages.
use ai_child.Prelude.{◌≡◌, none, some, [], ◌∷◌, refl, lookup_or}
use ai_child.Enums.{RiskLevel, risk_rank}
use ai_child.TimePeriod.{TimePeriod}
use ai_child.PyText.{PyText, codes, contains_any, strip, without}
use ai_child.Safety.{classify_input, is_at_least, summarise, highest}
use ai_child.Safety.Hits.{normalize, input_hits}
use ai_child.Scene.{SceneId}
use ai_child.Scene.Router.{
  SceneOrchestrator, Drawn, route, decide, should_pop_learning_scene, current_stack,
}
use ai_child.Scene.Decisions.{safety_gentle_checkin}
use ai_child.Scene.Everyday.{learning_homework_help}
use ai_child.Intent.{classify, safety_intent, is_child_speech_watch_lite, watch_intent}
use ai_child.Scene.Guard.{IsGuardian, IsGuardedScene}
use ai_child.Turn.{Message, HomeworkContext, route_turn, turn_request, turn_intent}
use ai_child.Turn.Alarm.{attention_of_turn, self_harm_turn, watched_turn}

abbrev lower : PyText → PyText
lower text = text

abbrev drawn : Drawn
drawn = record { record_id = "r1"; message_uuid = "m1"; now = 1000 }

-- a session that is in the middle of homework
abbrev at_homework : SceneOrchestrator
at_homework = record {
  session_stacks =
      ("s1", SceneId.daily_after_school_checkin ∷ SceneId.learning_homework_help ∷ []) ∷ [];
  records = [];
}

abbrev homework : HomeworkContext
homework = record { text = codes "3 + 4 = ?"; confidence = 91 }

abbrev message_of : PyText → Message
message_of text = record {
  child_id = "c1";
  session_id = "s1";
  text = text;
  time_period = TimePeriod.homework_time;
  parent_goals = [];
  homework_context = some homework;
  recognized_type = none;
}

abbrev self_harm_message : Message
self_harm_message = message_of (codes "我不想活了")

abbrev stranger_message : Message
stranger_message = message_of (codes "网友叫我保密")

abbrev lonely_message : Message
lonely_message = message_of (codes "没人喜欢我")

abbrev question_message : Message
question_message = message_of (codes "这道题怎么算")

-- a harmless question about the photo stays with the homework
question_scene :
    (route_turn lower drawn question_message at_homework).1.active_scene
    ≡ SceneId.learning_homework_help
unfolding route_turn classify_input input_hits normalize strip without contains_any route decide
    turn_request summarise turn_intent should_pop_learning_scene current_stack lookup_or
    learning_homework_help
question_scene = refl

-- the same photo with a text of watch level does not
lonely_scene :
    (route_turn lower drawn lonely_message at_homework).1.active_scene
    ≡ SceneId.safety_gentle_checkin
unfolding route_turn classify_input input_hits normalize strip without contains_any route decide
    turn_request summarise risk_rank highest turn_intent classify safety_intent
    is_child_speech_watch_lite watch_intent safety_gentle_checkin
lonely_scene = refl

attention_of_turn_example :
    (route_turn lower drawn lonely_message at_homework).1.requires_parent_attention
    ≡ (classify_input lower lonely_message.text).requires_parent_attention
attention_of_turn_example = attention_of_turn lower drawn lonely_message at_homework

self_harm_turn_example :
    IsGuardian (route_turn lower drawn self_harm_message at_homework).1
    × ((route_turn lower drawn self_harm_message at_homework).1.risk_level ≡ RiskLevel.critical)
unfolding normalize strip without contains_any
self_harm_turn_example = self_harm_turn lower drawn self_harm_message at_homework refl

watched_turn_example :
    IsGuardedScene (route_turn lower drawn lonely_message at_homework).1.active_scene
unfolding classify_input input_hits normalize strip without contains_any is_at_least risk_rank
    summarise highest
watched_turn_example = watched_turn lower drawn lonely_message at_homework refl
