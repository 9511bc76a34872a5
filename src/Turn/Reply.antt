-- ===== src/Turn/Reply.antt =====
-- conversation_service.py, `_response_from_route_decision`: the reply to a message behind what it did
-- to the child's companion. What the model replies and what the quick action service offers are
-- arguments.
use ai_child.Prelude.{
  String, Bool, true, ◌||◌, List, [], ◌∷◌, ◌++◌, Option, none, some, str_eq, if◌then◌else◌,
}
use ai_child.PyText.{PyText, codes}
use ai_child.Scene.{SceneId, SceneRouteDecision}
use ai_child.Attachments.Modality.{QuickAction}
use ai_child.Companion.{CompanionObject, CompanionObjectType, CompanionObjectStatus, VisualKind}
use ai_child.Turn.Engagement.{agent_motion_for}
use ai_child.Turn.Seeds.{CompanionAction}

pub record CompanionObjectMeta : Type 0 where
  pub id : String
  pub name : PyText
  pub object_type : CompanionObjectType
  pub light_location : String
  pub state : CompanionObjectStatus
  pub action : String
  pub visual_kind : VisualKind

pub record SessionState : Type 0 where
  pub base_scene : SceneId
  pub active_scene : SceneId
  pub needs_input : Option String
  pub requires_parent_attention : Option Bool
  pub companion_object : Option CompanionObjectMeta

pub record ConversationMessageResponse : Type 0 where
  pub text : PyText
  pub emotion : String
  pub agent_motion : String
  pub ui_actions : List (List QuickAction)
  pub session_state : SessionState

-- the text, the emotion, the quick actions and the companion of a reply
pub record ReplyParts : Type 0 where
  pub text : PyText
  pub emotion : String
  pub quick_actions : List QuickAction
  pub companion_meta : Option CompanionObjectMeta

-- CompanionObjectMeta(...)
unfoldable pub meta_of : String → CompanionObject → CompanionObjectMeta
meta_of action c = record {
  id = c.id;
  name = c.name;
  object_type = c.object_type;
  light_location = c.light_location;
  state = c.status;
  action = if str_eq action "recall" || str_eq action "co_create" then action else "none";
  visual_kind = c.visual_kind;
}

abbrev guidance_actions : List QuickAction
guidance_actions =
    record { id = "companion_friend_name"; label = "说个名字" }
    ∷ record { id = "companion_friend_image"; label = "给小白狐看看" }
    ∷ record { id = "companion_skip"; label = "先聊别的" }
    ∷ []

-- "那我们给它找一个小伙伴\n你可以说一个名字，也可以给我看看"
abbrev pub guidance_reply : PyText
guidance_reply = codes "那我们给它找一个小伙伴" ++ (10 ∷ codes "你可以说一个名字，也可以给我看看")

-- companion_meta.light_location or "窗边"
abbrev place_of : CompanionObjectMeta → String
place_of meta = if str_eq meta.light_location "" then "窗边" else meta.light_location

-- f"{name}，软软的名字\n它轻轻落到{location}啦"
unfoldable pub named_reply : CompanionObjectMeta → PyText
named_reply meta =
    meta.name ++ (codes "，软软的名字" ++ (10 ∷ (codes "它轻轻落到" ++ (codes (place_of meta) ++ codes "啦"))))

-- f"{friend_name}，也来小屋里待一会儿啦"
unfoldable pub friend_reply : CompanionObjectMeta → Option PyText → PyText
friend_reply meta none = meta.name ++ codes "，也来小屋里待一会儿啦"
friend_reply meta (some name) = name ++ codes "，也来小屋里待一会儿啦"

-- companion_meta.model_copy(update={"action": "co_create"})
abbrev shown : CompanionObjectMeta → CompanionObjectMeta
shown meta = record meta { action = "co_create" }

-- the branches on what was done with a companion, with those of the model behind them
unfoldable pub parts_of_action :
    String → Option PyText → CompanionObjectMeta → ReplyParts → ReplyParts
unfolding named_reply friend_reply
parts_of_action action friend meta parts =
    if str_eq action "co_create_guidance"
    then record {
      text = guidance_reply;
      emotion = "warm";
      quick_actions = guidance_actions;
      companion_meta = some (shown meta);
    }
    else if str_eq action "co_create"
    then record {
      text = named_reply meta;
      emotion = "warm";
      quick_actions = [];
      companion_meta = some meta;
    }
    else if str_eq action "extension_done"
    then record {
      text = friend_reply meta friend;
      emotion = "warm";
      quick_actions = [];
      companion_meta = some (shown meta);
    }
    else record parts { companion_meta = some meta }

-- the reply of the model, or one of the texts for a companion
unfoldable pub reply_parts : Option CompanionAction → ReplyParts → ReplyParts
unfolding meta_of parts_of_action
reply_parts none parts = parts
reply_parts (some a) parts = elim a.companion [
  | none ↦ parts
  | some c ↦ parts_of_action a.action a.friend_name (meta_of a.action c) parts
]

-- the UiAction, if there is a quick action
unfoldable pub ui_actions_of : List QuickAction → List (List QuickAction)
ui_actions_of [] = []
ui_actions_of (a ∷ actions) = (a ∷ actions) ∷ []

-- ConversationMessageResponse(...)
unfoldable pub response_of : SceneRouteDecision → ReplyParts → ConversationMessageResponse
unfolding agent_motion_for ui_actions_of
response_of d parts = record {
  text = parts.text;
  emotion = parts.emotion;
  agent_motion = agent_motion_for d;
  ui_actions = ui_actions_of parts.quick_actions;
  session_state = record {
    base_scene = d.base_scene;
    active_scene = d.active_scene;
    needs_input = d.needs_input;
    requires_parent_attention = if d.requires_parent_attention then some true else none;
    companion_object = parts.companion_meta;
  };
}

-- _response_from_route_decision
unfoldable pub response_from_route_decision :
    SceneRouteDecision
    → PyText
    → List QuickAction
    → Option CompanionAction
    → ConversationMessageResponse
unfolding reply_parts response_of
response_from_route_decision d reply_text offered action = response_of d (
    reply_parts action (record {
      text = reply_text;
      emotion = d.reply_emotion;
      quick_actions = offered;
      companion_meta = none;
    }))
