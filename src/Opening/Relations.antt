-- ===== src/Opening/Relations.antt =====
-- backend/app/services/relationship_memory.py: what the evidence of memories says of topics, and the memories
-- that the opening reads.
use ai_child.Prelude.{
  ℕ, Bool, true, false, ◌&&◌, ◌||◌, List, [], ◌∷◌, Option, none, some, String, ltb, nat_eq, lookup,
  if◌then◌else◌, Dict,
}
use ai_child.Prelude.Sorting.{keep}
use ai_child.PyText.{PyText, codes, text_is, contains_any, join}
use ai_child.Memory.{MemoryType, MemorySensitivity, MemoryEvidence, MemoryItem, type_code}
use ai_child.Memory.Service.{Store, list_memories}

-- the first text under a key in the metadata of some evidence
unfoldable pub first_text : String → List MemoryEvidence → Option PyText
first_text key [] = none
first_text key (e ∷ es) =
    let rest = first_text key es in
    elim (lookup key e.metadata) [ some value ↦ some value | none ↦ rest ]

-- memory_relationship_type
unfoldable pub memory_relationship_type : MemoryItem → Option PyText
unfolding first_text
memory_relationship_type m = first_text "relationship_memory_type" m.evidence

-- memory_relationship_topic, where None is the empty text
unfoldable pub memory_relationship_topic : MemoryItem → PyText
unfolding first_text
memory_relationship_topic m = elim (first_text "topic" m.evidence) [
  | none ↦ []
  | some topic ↦ topic
]

unfoldable pub first_metadata : List MemoryEvidence → Dict PyText
first_metadata [] = []
first_metadata (e ∷ es) =
    let rest = first_metadata es in
    elim (lookup "relationship_memory_type" e.metadata) [ some kind ↦ e.metadata | none ↦ rest ]

-- memory_relationship_metadata
unfoldable pub memory_relationship_metadata : MemoryItem → Dict PyText
unfolding first_metadata
memory_relationship_metadata m = first_metadata m.evidence

-- is_relationship_memory with a type
unfoldable pub is_relationship_memory : MemoryItem → String → Bool
unfolding memory_relationship_type
is_relationship_memory m kind = elim (memory_relationship_type m) [
  | none ↦ false
  | some actual ↦ text_is actual (codes kind)
]

-- the key (updated_at, created_at, importance, confidence) of one memory is greater than that of another
unfoldable pub is_later : MemoryItem → MemoryItem → Bool
is_later m n =
    ltb n.updated_at m.updated_at
    || (nat_eq n.updated_at m.updated_at
        && (ltb n.created_at m.created_at
            || (nat_eq n.created_at m.created_at
                && (ltb n.importance m.importance
                    || (nat_eq n.importance m.importance && ltb n.confidence m.confidence)))))

-- max(candidates, key=..., default=None): the first of the greatest
unfoldable pub latest_from : MemoryItem → List MemoryItem → MemoryItem
unfolding is_later
latest_from best [] = best
latest_from best (m ∷ ms) = latest_from (if is_later m best then m else best) ms

unfoldable pub latest : List MemoryItem → Option MemoryItem
unfolding latest_from
latest [] = none
latest (m ∷ ms) = some (latest_from m ms)

abbrev is_low : MemorySensitivity → Bool
is_low MemorySensitivity.low = true
is_low _ = false

-- latest_interest_seed
unfoldable pub latest_interest_seed : ℕ → String → Store → Option MemoryItem
latest_interest_seed now child store = latest (
    keep
      (λ m.
        nat_eq (type_code m.memory_type) (type_code MemoryType.interest)
        && is_low m.sensitivity
        && is_relationship_memory m "interest_seed")
      (list_memories now child none true false store))

-- latest_topic_boundary
unfoldable pub latest_topic_boundary : ℕ → String → Store → Option MemoryItem
latest_topic_boundary now child store = latest (
    keep (λ m. is_relationship_memory m "topic_boundary")
      (list_memories now child (some MemoryType.strategy) true false store))

-- OpeningPolicyBuilder._latest_low_expression_state
unfoldable pub latest_low_expression_state : ℕ → String → Store → Option MemoryItem
latest_low_expression_state now child store = latest (
    keep
      (λ m.
        (nat_eq (type_code m.memory_type) (type_code MemoryType.emotion_observation)
          || nat_eq (type_code m.memory_type) (type_code MemoryType.expression_pattern))
        && contains_any (join (codes " ") (m.content ∷ m.tags))
            ("低能量" ∷ "不想说话" ∷ "短句" ∷ "说不完整" ∷ "低压力" ∷ []))
      (list_memories now child none true false store))
