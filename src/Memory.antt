-- ===== src/Memory.antt =====
-- backend/app/domain/memory.py: what is remembered of a child. Confidences and importances are counted in
-- hundredths, times in microseconds. Of the metadata of an evidence the texts are kept.
pub mod Rules
pub mod Service
pub mod Extractor
pub mod Safe
pub mod Order
pub mod Retrieval
pub mod Batch
pub mod Extraction
pub mod Allowed
pub mod Kept
pub mod Tags
mod Tests
use ai_child.Prelude.{
  ℕ, ◌*◌, Bool, true, false, not, ◌&&◌, List, [], ◌∷◌, ◌++◌, Option, none, some, String, any, take,
  leb, length, if◌then◌else◌, Dict,
}
use ai_child.PyText.{PyText, codes, strip, text_is}

pub data MemoryType : Type 0 where
  interest : MemoryType
  learning_pattern : MemoryType
  expression_pattern : MemoryType
  emotion_observation : MemoryType
  event : MemoryType
  safety : MemoryType
  parent_rule : MemoryType
  strategy : MemoryType

-- MemoryType(...).value
unfoldable pub type_value : MemoryType → String
type_value MemoryType.interest = "interest"
type_value MemoryType.learning_pattern = "learning_pattern"
type_value MemoryType.expression_pattern = "expression_pattern"
type_value MemoryType.emotion_observation = "emotion_observation"
type_value MemoryType.event = "event"
type_value MemoryType.safety = "safety"
type_value MemoryType.parent_rule = "parent_rule"
type_value MemoryType.strategy = "strategy"

abbrev pub type_code : MemoryType → ℕ
type_code MemoryType.interest = 0
type_code MemoryType.learning_pattern = 1
type_code MemoryType.expression_pattern = 2
type_code MemoryType.emotion_observation = 3
type_code MemoryType.event = 4
type_code MemoryType.safety = 5
type_code MemoryType.parent_rule = 6
type_code MemoryType.strategy = 7

pub data MemorySensitivity : Type 0 where
  low : MemorySensitivity
  medium : MemorySensitivity
  high : MemorySensitivity
  critical : MemorySensitivity

abbrev pub is_safety : MemoryType → Bool
is_safety MemoryType.safety = true
is_safety _ = false

abbrev pub is_critical : MemorySensitivity → Bool
is_critical MemorySensitivity.critical = true
is_critical _ = false

pub record MemoryEvidence : Type 0 where
  pub source : PyText
  pub session_id : Option String
  pub quote_summary : PyText
  pub metadata : Dict PyText

pub record MemoryCreateRequest : Type 0 where
  pub child_id : String
  pub memory_type : MemoryType
  pub content : PyText
  pub tags : List PyText
  pub evidence : List MemoryEvidence
  pub confidence : ℕ
  pub importance : ℕ
  pub sensitivity : MemorySensitivity
  pub visible_to_parent : Bool
  pub visible_to_child : Bool
  pub requires_parent_attention : Bool
  pub expires_at : Option ℕ
  pub embedding_id : Option String

-- The fields that are set: an explicit null is kept for the fields that may be null.
pub record MemoryUpdateRequest : Type 0 where
  pub memory_type : Option MemoryType
  pub content : Option PyText
  pub tags : Option (List PyText)
  pub evidence : Option (List MemoryEvidence)
  pub confidence : Option ℕ
  pub importance : Option ℕ
  pub sensitivity : Option MemorySensitivity
  pub visible_to_parent : Option Bool
  pub visible_to_child : Option Bool
  pub requires_parent_attention : Option Bool
  pub expires_at : Option (Option ℕ)
  pub embedding_id : Option (Option String)

pub record MemoryItem : Type 0 where
  pub id : String
  pub child_id : String
  pub memory_type : MemoryType
  pub content : PyText
  pub tags : List PyText
  pub evidence : List MemoryEvidence
  pub confidence : ℕ
  pub importance : ℕ
  pub sensitivity : MemorySensitivity
  pub visible_to_parent : Bool
  pub visible_to_child : Bool
  pub requires_parent_attention : Bool
  pub expires_at : Option ℕ
  pub embedding_id : Option String
  pub created_at : ℕ
  pub updated_at : ℕ

-- one turn of the loop of normalize_tags
unfoldable pub add_tag : List PyText → PyText → List PyText
add_tag normalized tag =
    let clean = strip tag in
    if not (text_is clean []) && not (any (text_is clean) normalized)
    then normalized ++ (take 40 clean ∷ [])
    else normalized

-- The loop of normalize_tags, with the tags that are taken already in the order of the list.
unfoldable pub normalize_from : List PyText → List PyText → List PyText
unfolding add_tag
normalize_from normalized [] = normalized
normalize_from normalized (tag ∷ tags) = normalize_from (add_tag normalized tag) tags

-- normalize_tags
unfoldable pub normalize_tags : List PyText → List PyText
unfolding normalize_from
normalize_tags tags = normalize_from [] tags

abbrev pub is_within : ℕ → ℕ → PyText → Bool
is_within least most text = leb least (length text) && leb (length text) most

-- the constraints on the fields of MemoryEvidence
unfoldable pub is_valid_evidence : MemoryEvidence → Bool
is_valid_evidence e =
    is_within 1 80 e.source
    && elim e.session_id [ none ↦ true | some id ↦ is_within 1 120 (codes id) ]
    && is_within 1 300 e.quote_summary
