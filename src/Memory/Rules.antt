-- ===== src/Memory/Rules.antt =====
-- backend/app/services/memory_service.py: what may be stored, when it expires, and how it is found.
use mathlib.Core.Option
use ai_child.Prelude.{
  ℕ, ◌+◌, ◌*◌, Bool, true, false, not, ◌&&◌, ◌||◌, List, [], ◌∷◌, Option, none, some, String, any,
  leb, if◌then◌else◌,
}
use ai_child.PyText.{PyText, codes, strip, text_is, contains, contains_any, join, split}
use ai_child.Memory.{
  MemoryType, MemorySensitivity, MemoryEvidence, MemoryItem, type_value, is_safety, is_critical,
}

abbrev pub day : ℕ
day = 86400000000

-- _default_expires_at
unfoldable pub ttl_days : MemoryType → Option ℕ
ttl_days MemoryType.interest = some 180
ttl_days MemoryType.learning_pattern = some 90
ttl_days MemoryType.expression_pattern = some 60
ttl_days MemoryType.emotion_observation = some 14
ttl_days MemoryType.event = some 30
ttl_days MemoryType.strategy = some 90
ttl_days MemoryType.safety = none
ttl_days MemoryType.parent_rule = none

unfoldable pub default_expires_at : MemoryType → ℕ → Option ℕ
unfolding ttl_days
default_expires_at kind created_at = Option.map (λ days. created_at + days * day) (ttl_days kind)

-- _is_expired
unfoldable pub is_expired : ℕ → MemoryItem → Bool
is_expired now m = elim m.expires_at [ none ↦ false | some until ↦ leb until now ]

-- `memory_type == SAFETY or sensitivity == CRITICAL`
unfoldable pub is_watched : MemoryItem → Bool
is_watched m = is_safety m.memory_type || is_critical m.sensitivity

-- _normalize_safety_fields
unfoldable pub normalize_safety_fields : MemoryItem → MemoryItem
unfolding is_watched
normalize_safety_fields m =
    if is_watched m
    then record m {
      sensitivity =
          if is_critical m.sensitivity then MemorySensitivity.critical else MemorySensitivity.high;
      visible_to_parent = true;
      requires_parent_attention = true;
    }
    else m

abbrev pub forbidden_sources : List String
forbidden_sources =
    "raw_audio" ∷ "original_audio" ∷ "raw_photo" ∷ "original_photo" ∷ "raw_image" ∷ "original_image"
    ∷ "raw_chat" ∷ "full_chat" ∷ "chat_transcript" ∷ "long_chat_transcript" ∷ "full_transcript"
    ∷ "raw_transcript" ∷ "verbatim_child_text" ∷ []

abbrev pub forbidden_content_markers : List String
forbidden_content_markers =
    "孩子胆小" ∷ "孩子不合群" ∷ "孩子懒" ∷ "孩子不聪明" ∷ "内向是缺陷" ∷ "内向不好" ∷ "内向有问题" ∷ "孩子就是" ∷ "孩子总是" ∷ "性格缺陷" ∷ []

-- MemoryNotFoundError, and the two texts of UnsafeMemoryError
pub data MemoryError : Type 0 where
  not_found : MemoryError
  unsafe_source : MemoryError
  unsafe_content : MemoryError

module _ (lower : PyText → PyText) where
  -- the source of one evidence is forbidden
  unfoldable pub is_forbidden_source : MemoryEvidence → Bool
  is_forbidden_source e =
      any (λ source. text_is (lower (strip e.source)) (codes source)) forbidden_sources

  -- _validate_memory_for_storage: the error that it raises
  unfoldable pub validate_memory_for_storage : MemoryItem → Option MemoryError
  validate_memory_for_storage m =
      if any is_forbidden_source m.evidence
      then some MemoryError.unsafe_source
      else if contains_any m.content forbidden_content_markers
      then some MemoryError.unsafe_content
      else none

  -- _matches_query; a query that is None or empty is empty
  unfoldable pub matches_query : MemoryItem → PyText → Bool
  matches_query m query =
      let normalized = lower (strip query) in
      let haystack =
        lower (join (codes " ") (m.content ∷ codes (type_value m.memory_type) ∷ m.tags)) in
      text_is query []
      || text_is normalized []
      || any (λ token. contains token haystack) (split normalized)
      || any (λ tag. not (text_is (lower tag) []) && contains (lower tag) normalized) m.tags

  -- the loop of _score over the tags, in hundredths
  unfoldable pub tag_score : PyText → List PyText → ℕ
  tag_score normalized [] = 0
  tag_score normalized (tag ∷ tags) =
      (if contains (lower tag) normalized then 100 else 0) + tag_score normalized tags

  -- _score
  unfoldable pub score : MemoryItem → PyText → ℕ
  unfolding tag_score
  score m query =
      let normalized = lower (strip query) in
      m.importance
      + m.confidence
      + (if text_is query []
          then 0
          else tag_score normalized m.tags
            + (if not (text_is normalized []) && contains normalized (lower m.content)
                then 50
                else 0))
