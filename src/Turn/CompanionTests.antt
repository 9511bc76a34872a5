-- ===== src/Turn/CompanionTests.antt =====
-- Messages about a companion, and the theorems at concrete messages.
use ai_child.Prelude.{List, insert, lookup, ◌≡◌, none, some, [], ◌∷◌, refl, arith, remove}
use ai_child.Enums.{RiskLevel}
use ai_child.TimePeriod.{TimePeriod}
use ai_child.PyText.{PyText, codes, contains_any, strip, without}
use ai_child.Safety.Hits.{normalize}
use ai_child.Scene.{SceneId, SceneRouteDecision}
use ai_child.Scene.Guard.{IsGuardian}
use ai_child.Scene.Router.{SceneOrchestrator, Drawn}
use ai_child.Companion.{
  CompanionObject, CompanionObjectStatus, CompanionObjectType, CompanionObjectSource, VisualKind,
}
use ai_child.Companion.Rules.{
  CompanionService, PendingCompanionSeed, PendingCompanionExtension, ok, err, is_forbidden,
  forbidden_content,
}
use ai_child.Companion.Pending.{get_pending_seed_naming, get_pending_extension}
use ai_child.Companion.Service.{new_companion, shortened, joined_summary}
use ai_child.Companion.Values.{Succeeds}
use ai_child.Companion.Live.{live_count, weight}
use ai_child.Companion.Single.{OneLive}
use ai_child.Turn.{Message, route_turn}
use ai_child.Turn.Alarm.{self_harm_turn}
use ai_child.Turn.Naming.{extract_pending_companion_name, companion_name}
use ai_child.Turn.Seeds.{CompanionMessage, seed_request, is_valid_request, skip_alone}
use ai_child.Turn.Companions.{companion_action, friend_summary}
use ai_child.Turn.Reply.{meta_of, named_reply, response_from_route_decision}
use ai_child.Turn.OneLive.{CompanionTurn, after_turns, turns-OneLive}
use ai_child.Turn.Named.{skip_button_skips_none, waiting_name_takes_over, forbidden_friend_raises}

named_star : extract_pending_companion_name (codes "这颗星星叫小亮！") ≡ some (codes "小亮")
unfolding extract_pending_companion_name
named_star = refl

-- the letter s ends a name
named_tess : extract_pending_companion_name (codes "它叫Tess") ≡ some (codes "Te")
unfolding extract_pending_companion_name
named_tess = refl

plain_star : extract_pending_companion_name (codes " 小 亮。") ≡ some (codes "小亮")
unfolding extract_pending_companion_name
plain_star = refl

skip_is_no_name : extract_pending_companion_name (codes "先聊别的") ≡ none
unfolding extract_pending_companion_name
skip_is_no_name = refl

abbrev lower : PyText → PyText
lower text = text

abbrev no_companions : CompanionService
no_companions = record {
  items = [];
  recalled = [];
  pending_seed_naming = [];
  pending_extension = [];
}

abbrev message : PyText → CompanionMessage
message text = record {
  child_id = "c1";
  session_id = "s1";
  text = text;
  quick_action_id = none;
  image_type = none;
  latest_image_type = none;
}

abbrev naming : PyText → CompanionMessage
naming text = record (message text) { quick_action_id = some "companion_name" }

-- a star, a cloud in its place, and a sign to skip that one
abbrev turns : List CompanionTurn
turns =
    record { now = 5; id = "o1"; scene = SceneId.open_conversation; message = naming (codes "叫小亮") }
    ∷ record {
      now = 6;
      id = "o2";
      scene = SceneId.open_conversation;
      message = record (naming (codes "小云")) { image_type = some "cloud" };
    }
    ∷ record {
      now = 7;
      id = "o3";
      scene = SceneId.open_conversation;
      message = message (codes "不要");
    }
    ∷ []

no_companions-OneLive : OneLive no_companions
unfolding live_count
no_companions-OneLive = record { keyed = tt; single = λ child. omega arith }

turns-OneLive_example : OneLive (after_turns turns no_companions)
turns-OneLive_example = turns-OneLive turns no_companions no_companions-OneLive

-- the cloud is live, and was skipped once
turns_live : live_count "c1" (after_turns turns no_companions).items ≡ 1
unfolding live_count after_turns companion_action lookup is_forbidden without remove insert weight
turns_live = refl

-- a star that waits for its name
abbrev star_seed : PendingCompanionSeed
star_seed = record {
  child_id = "c1";
  object_type = CompanionObjectType.star;
  light_location = "窗边";
  source_type = CompanionObjectSource.first_open;
  requested_at = 3;
  recognized_image_type = none;
}

abbrev waiting : CompanionService
waiting = record no_companions { pending_seed_naming = ("s1", star_seed) ∷ [] }

skip_button_skips_none_example :
    companion_action 5 "o1" SceneId.open_conversation
      (record (message (codes "先聊别的")) { quick_action_id = some "companion_skip" })
      waiting
    ≡ (
      record waiting {
        pending_seed_naming = remove "s1" waiting.pending_seed_naming;
        pending_extension = remove "s1" waiting.pending_extension;
      },
      ok (some skip_alone),
    )
skip_button_skips_none_example =
    skip_button_skips_none 5 "o1" SceneId.open_conversation
      (record (message (codes "先聊别的")) { quick_action_id = some "companion_skip" }) waiting refl

abbrev self_harm_message : Message
self_harm_message = record {
  child_id = "c1";
  session_id = "s1";
  text = codes "我想死";
  time_period = TimePeriod.homework_time;
  parent_goals = [];
  homework_context = none;
  recognized_type = none;
}

abbrev at_start : SceneOrchestrator
at_start = record { session_stacks = []; records = [] }

abbrev drawn : Drawn
drawn = record { record_id = "r1"; message_uuid = "m1"; now = 1000 }

abbrev guardian : SceneRouteDecision
guardian = (route_turn lower drawn self_harm_message at_start).1

-- the safety guardian has the message
guardian-IsGuardian : IsGuardian guardian × (guardian.risk_level ≡ RiskLevel.critical)
unfolding normalize strip without contains_any
guardian-IsGuardian = self_harm_turn lower drawn self_harm_message at_start refl

-- and yet its words are taken for the star's name
waiting_name_takes_over_example :
    Succeeds
      (λ action.
        ((response_from_route_decision guardian (codes "我在。") [] action).text
          ≡ named_reply (
              meta_of "co_create" (
                new_companion 5 "o1"
                  (seed_request "c1" (codes "我想死") none CompanionObjectSource.first_open "窗边"))))
        × ((response_from_route_decision guardian (codes "我在。") [] action).ui_actions ≡ []))
      (companion_action 5 "o1" SceneId.safety_guardian (message (codes "我想死")) waiting).1
unfolding companion_name is_forbidden without contains_any get_pending_seed_naming lookup
    get_pending_extension is_valid_request seed_request
waiting_name_takes_over_example =
    waiting_name_takes_over 5 "o1" SceneId.safety_guardian (message (codes "我想死")) waiting refl
      (codes "我想死") refl star_seed guardian (codes "我在。") [] refl refl refl refl refl

abbrev star : CompanionObject
star = record {
  id = "o1";
  child_id = "c1";
  name = codes "小亮";
  object_type = CompanionObjectType.star;
  source_type = CompanionObjectSource.first_open;
  safe_summary = codes "这颗星星叫小亮";
  light_location = "窗边";
  status = CompanionObjectStatus.active;
  visual_kind = VisualKind.star;
  last_recalled_at = none;
  recall_count = 0;
  skip_count = 0;
  created_at = 0;
  updated_at = 0;
}

abbrev friend_wish : PendingCompanionExtension
friend_wish = record {
  child_id = "c1";
  companion_id = "o1";
  companion_name = codes "小亮";
  requested_at = 4;
}

abbrev extending : CompanionService
extending = record {
  items = ("o1", star) ∷ [];
  recalled = [];
  pending_seed_naming = [];
  pending_extension = ("s1", friend_wish) ∷ [];
}

forbidden_friend_raises_example :
    companion_action 5 "o2" SceneId.open_conversation (message (codes "叫作业")) extending
    ≡ (extending, err forbidden_content)
unfolding companion_name is_forbidden without contains_any get_pending_seed_naming lookup
    get_pending_extension shortened joined_summary friend_summary
forbidden_friend_raises_example =
    forbidden_friend_raises 5 "o2" SceneId.open_conversation (message (codes "叫作业")) extending refl
      (codes "作业") refl friend_wish star refl refl refl refl refl
