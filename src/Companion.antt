-- ===== src/Companion.antt =====
-- backend/app/domain/companion_object.py: the companion object of a child, its kinds and its texts.
-- A datetime is a number of microseconds since a fixed midnight in UTC.
pub mod Store
pub mod Rules
pub mod Pending
pub mod Waiting
pub mod Service
pub mod Values
pub mod Lifecycle
pub mod Recall
pub mod Summary
pub mod Sound
pub mod Invariant
pub mod Live
pub mod Single
pub mod OneLive
mod Tests
use mathlib.Core.Bool.{decide}
use ai_child.Prelude.{ℕ, String, Bool, List, [], ◌∷◌, Option, none, some, str_eq, if◌then◌else◌}
use ai_child.PyText.{PyText}

pub data CompanionObjectStatus : Type 0 where
  active paused retired : CompanionObjectStatus

pub data CompanionObjectType : Type 0 where
  star cloud drawing_character toy_character block_monster : CompanionObjectType
  paper_boat window_bird story_gate other : CompanionObjectType

pub data CompanionObjectSource : Type 0 where
  first_open image_share chat_story story_chain : CompanionObjectSource

pub data VisualKind : Type 0 where
  star cloud paper_boat tiny_door dino_shadow block_light : VisualKind

unfoldable pub CompanionObjectStatus-discrete : Discrete CompanionObjectStatus
CompanionObjectStatus-discrete = hlevel

unfoldable pub status_eq : CompanionObjectStatus → CompanionObjectStatus → Bool
unfolding CompanionObjectStatus-discrete decide
status_eq a b = decide (CompanionObjectStatus-discrete a b)

abbrev pub light_locations : List String
light_locations = "窗边" ∷ "地毯边" ∷ "小白狐旁边" ∷ "窗外" ∷ []

abbrev pub forbidden_summary_markers : List String
forbidden_summary_markers =
    "地址" ∷ "学校" ∷ "班级" ∷ "电话" ∷ "真实姓名" ∷ "校服" ∷ "校徽" ∷ "吵架" ∷ "批评" ∷ "打架" ∷ "受伤" ∷ "被骂" ∷ "冲突"
    ∷ "哭了" ∷ "害怕了" ∷ "生气了" ∷ "很烦" ∷ "好累" ∷ "题目" ∷ "答案" ∷ "作业" ∷ "考试" ∷ "保密" ∷ "秘密" ∷ "隐瞒" ∷ "不要告诉"
    ∷ []

abbrev pub safe_summary_max_length : ℕ
safe_summary_max_length = 200

-- resolve_visual_kind by _OBJECT_TYPE_TO_VISUAL_KIND
unfoldable pub resolve_visual_kind : CompanionObjectType → VisualKind
resolve_visual_kind CompanionObjectType.star = VisualKind.star
resolve_visual_kind CompanionObjectType.cloud = VisualKind.cloud
resolve_visual_kind CompanionObjectType.paper_boat = VisualKind.paper_boat
resolve_visual_kind CompanionObjectType.story_gate = VisualKind.tiny_door
resolve_visual_kind CompanionObjectType.drawing_character = VisualKind.dino_shadow
resolve_visual_kind CompanionObjectType.block_monster = VisualKind.block_light
resolve_visual_kind CompanionObjectType.window_bird = VisualKind.cloud
resolve_visual_kind CompanionObjectType.toy_character = VisualKind.block_light
resolve_visual_kind CompanionObjectType.other = VisualKind.star

-- resolve_object_type_from_image by _RECOGNIZED_TYPE_TO_OBJECT_TYPE
unfoldable pub resolve_object_type_from_image : Option String → CompanionObjectType
resolve_object_type_from_image none = CompanionObjectType.star
resolve_object_type_from_image (some t) =
    if str_eq t "child_drawing"
    then CompanionObjectType.drawing_character
    else if str_eq t "art_feedback"
    then CompanionObjectType.drawing_character
    else if str_eq t "toy"
    then CompanionObjectType.toy_character
    else if str_eq t "handmade"
    then CompanionObjectType.toy_character
    else if str_eq t "object"
    then CompanionObjectType.other
    else if str_eq t "daily_life"
    then CompanionObjectType.cloud
    else if str_eq t "cloud"
    then CompanionObjectType.cloud
    else CompanionObjectType.star

pub record CompanionObject : Type 0 where
  pub id : String
  pub child_id : String
  pub name : PyText
  pub object_type : CompanionObjectType
  pub source_type : CompanionObjectSource
  pub safe_summary : PyText
  pub light_location : String
  pub status : CompanionObjectStatus
  pub visual_kind : VisualKind
  pub last_recalled_at : Option ℕ
  pub recall_count : ℕ
  pub skip_count : ℕ
  pub created_at : ℕ
  pub updated_at : ℕ

pub record CompanionObjectCreateRequest : Type 0 where
  pub child_id : String
  pub name : PyText
  pub object_type : CompanionObjectType
  pub source_type : CompanionObjectSource
  pub safe_summary : PyText
  pub light_location : String

pub record CompanionObjectUpdateRequest : Type 0 where
  pub safe_summary : Option PyText
  pub light_location : Option String
