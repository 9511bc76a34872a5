-- ===== src/Turn/Seeds.antt =====
-- conversation_service.py: a message that gives a new companion its name. The service is the one that is
-- always built; an exception leaves the state as it is where it is raised. The time and a fresh
-- identifier are arguments: a message reads the clock once.
use ai_child.Prelude.{
  ℕ, String, Bool, ◌||◌, ◌&&◌, ◌++◌, Option, none, some, length, leb, str_eq, if◌then◌else◌,
}
use ai_child.PyText.{PyText, codes, opt_eq}
use ai_child.Companion.{
  CompanionObject, CompanionObjectSource, CompanionObjectCreateRequest,
  resolve_object_type_from_image,
}
use ai_child.Companion.Rules.{CompanionService, Result, ok, err}
use ai_child.Companion.Pending.{
  begin_seed_naming, get_pending_seed_naming, clear_pending_seed_naming, get_pending_extension,
}
use ai_child.Companion.Service.{create}
use ai_child.Turn.Naming.{companion_name}

-- What a message brings: the type of the image in it, or of the newest one of the session.
pub record CompanionMessage : Type 0 where
  pub child_id : String
  pub session_id : String
  pub text : PyText
  pub quick_action_id : Option String
  pub image_type : Option String
  pub latest_image_type : Option String

-- the dictionary that the checks return
pub record CompanionAction : Type 0 where
  pub action : String
  pub companion : Option CompanionObject
  pub friend_name : Option PyText

-- The state behind a check, and what it returns or raises.
abbrev pub Checked : Type 0
Checked = CompanionService × Result (Option CompanionAction)

abbrev pub done_with : String → CompanionObject → CompanionAction
done_with action c = record { action = action; companion = some c; friend_name = none }

abbrev pub skip_alone : CompanionAction
skip_alone = record { action = "skip"; companion = none; friend_name = none }

-- the recognized type of a shared image
unfoldable pub seed_image : CompanionMessage → Option String
seed_image m = elim m.image_type [ some t ↦ some t | none ↦ m.latest_image_type ]

-- the source type behind it
unfoldable pub source_of_latest : Option String → CompanionObjectSource
source_of_latest none = CompanionObjectSource.first_open
source_of_latest (some t) =
    if str_eq t "" then CompanionObjectSource.first_open else CompanionObjectSource.image_share

unfoldable pub seed_source : CompanionMessage → CompanionObjectSource
unfolding source_of_latest
seed_source m = elim m.image_type [
  | some t ↦ CompanionObjectSource.image_share
  | none ↦ source_of_latest m.latest_image_type
]

-- safe_summary
unfoldable pub seed_summary : CompanionObjectSource → PyText → PyText
seed_summary CompanionObjectSource.image_share name = codes "孩子给图片里的小东西起名为" ++ name
seed_summary _ name = codes "这颗星星叫" ++ name

-- the lengths that CompanionObjectCreateRequest accepts
abbrev pub has_length : ℕ → ℕ → Bool
has_length n limit = leb 1 n && leb n limit

unfoldable pub is_valid_request : CompanionObjectCreateRequest → Bool
is_valid_request r =
    has_length (length (codes r.child_id)) 120
    && has_length (length r.name) 80
    && has_length (length r.safe_summary) 200
    && has_length (length (codes r.light_location)) 40

unfoldable pub seed_request :
    String → PyText → Option String → CompanionObjectSource → String → CompanionObjectCreateRequest
unfolding seed_summary resolve_object_type_from_image
seed_request child name image_type source location = record {
  child_id = child;
  name = name;
  object_type = resolve_object_type_from_image image_type;
  source_type = source;
  safe_summary = seed_summary source name;
  light_location = location;
}

-- what follows `svc.create` inside the `try`, and behind it
unfoldable pub created_or_none :
    String → CompanionService → Result (CompanionService × CompanionObject) → Checked
unfolding clear_pending_seed_naming
created_or_none session s (err e) = (s, ok none)
created_or_none session s (ok (t, c)) =
    (clear_pending_seed_naming session t, ok (some (done_with "co_create" c)))

-- the `try` around the creation
unfoldable pub try_create :
    ℕ → String → String → CompanionObjectCreateRequest → CompanionService → Checked
unfolding is_valid_request create created_or_none
try_create now id session r s =
    if is_valid_request r then created_or_none session s (create now id r s) else (s, ok none)

-- svc.begin_seed_naming(...); return None
unfoldable pub begun : CompanionService → Result CompanionService → Checked
begun s (err e) = (s, err e)
begun s (ok t) = (t, ok none)

-- the quick actions companion_name and give_name
unfoldable pub name_seed : ℕ → String → CompanionMessage → CompanionService → Checked
unfolding get_pending_extension companion_name try_create seed_request seed_image seed_source begun
    begin_seed_naming
name_seed now id m s = elim (get_pending_extension m.session_id m.child_id s) [
  | some _ ↦ (s, ok none)
  | none ↦ elim (companion_name m.text) [
    | some name ↦
        try_create now id m.session_id
          (seed_request m.child_id name (seed_image m) (seed_source m) "窗边") s
    | none ↦ begun s (
        begin_seed_naming now m.session_id m.child_id
          (resolve_object_type_from_image (seed_image m)) "窗边" (seed_source m) (seed_image m) s)
  ]
]

-- a message behind such an action
unfoldable pub name_pending_seed : ℕ → String → CompanionMessage → CompanionService → Checked
unfolding get_pending_seed_naming companion_name try_create seed_request
name_pending_seed now id m s = elim (get_pending_seed_naming m.session_id m.child_id s) [
  | none ↦ (s, ok none)
  | some p ↦ elim (companion_name m.text) [
    | none ↦ (s, ok none)
    | some name ↦
        try_create now id m.session_id
          (seed_request m.child_id name p.recognized_image_type p.source_type p.light_location) s
  ]
]

-- _check_pending_companion_seed_creation
unfoldable pub check_pending_companion_seed_creation :
    ℕ → String → CompanionMessage → CompanionService → Checked
unfolding opt_eq name_seed clear_pending_seed_naming name_pending_seed
check_pending_companion_seed_creation now id m s =
    if opt_eq m.quick_action_id "companion_name" || opt_eq m.quick_action_id "give_name"
    then name_seed now id m s
    else if opt_eq m.quick_action_id "companion_skip"
    then (clear_pending_seed_naming m.session_id s, ok none)
    else name_pending_seed now id m s
