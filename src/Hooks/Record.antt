-- ===== src/Hooks/Record.antt =====
-- conversation_memory_hooks.py: from a turn to its requests, and `record_turn`. One reading of the clock serves
-- the lookups of a turn; each memory that is stored has a time and an identifier of its own.
use mathlib.Core.Option
use ai_child.Prelude.{
  ℕ, ◌+◌, Bool, true, false, not, ◌&&◌, ◌||◌, List, [], ◌∷◌, Option, none, some, String, any,
  str_eq, lookup, bind, if◌then◌else◌,
}
use ai_child.PyText.{PyText, codes, text_is, opt_eq}
use ai_child.Enums.{RiskLevel, RiskCategory, IntentType, level_eq, category_eq, intent_eq}
use ai_child.Scene.{SceneId, scene_eq}
use ai_child.Memory.{MemoryType, MemoryEvidence, MemoryCreateRequest, MemoryItem}
use ai_child.Memory.Service.{Store, Outcome, create_many, list_memories}
use ai_child.Hooks.Notes.{
  Note, learning_note, direct_answer_note, low_energy_note, guardian_note, gentle_checkin_note,
  privacy_note, arrival_note,
}
use ai_child.Hooks.Threads.{Thread}
use ai_child.Hooks.Signals.{
  normalize_text, interest_seed, topic_boundary, proud_moment, unfinished_thread,
  show_and_tell_event, should_skip_relationship_memory,
}
use ai_child.Hooks.Requests.{
  Turn, RelationshipType, relationship_value, request, relationship_request,
}

-- _should_record_low_energy_emotion
unfoldable pub should_record_low_energy_emotion : Turn → Bool
unfolding scene_eq intent_eq level_eq category_eq
should_record_low_energy_emotion t =
    not (scene_eq t.route_decision.active_scene SceneId.safety_gentle_checkin)
    && (intent_eq t.intent.intent IntentType.emotion_expression
        || (level_eq t.safety.risk_level RiskLevel.low
            && any (category_eq RiskCategory.mental_distress) t.safety.categories))

-- the notes of a turn in the order of _memory_requests_for_turn, with their conditions
unfoldable pub turn_notes : Turn → List (Bool × Note)
unfolding scene_eq level_eq should_record_low_energy_emotion opt_eq
turn_notes t =
    let in_scene = scene_eq t.route_decision.active_scene in
    (in_scene SceneId.learning_homework_help, learning_note)
    ∷ (
      opt_eq t.intent.sub_intent "direct_answer_request"
          || str_eq t.route_decision.reason "learning_direct_answer_request",
      direct_answer_note,
    )
    ∷ (should_record_low_energy_emotion t, low_energy_note)
    ∷ (
      in_scene SceneId.safety_guardian,
      guardian_note (level_eq t.safety.risk_level RiskLevel.critical),
    )
    ∷ (in_scene SceneId.safety_gentle_checkin, gentle_checkin_note)
    ∷ (in_scene SceneId.privacy_boundary, privacy_note)
    ∷ (
      in_scene SceneId.daily_after_school_checkin && opt_eq t.intent.sub_intent "arrival_checkin",
      arrival_note,
    )
    ∷ []

-- memory_types of _has_relationship_memory
unfoldable pub memory_type_of : RelationshipType → MemoryType
memory_type_of RelationshipType.interest_seed = MemoryType.interest
memory_type_of RelationshipType.topic_boundary = MemoryType.strategy
memory_type_of RelationshipType.proud_moment = MemoryType.expression_pattern
memory_type_of RelationshipType.unfinished_thread = MemoryType.event
memory_type_of RelationshipType.show_and_tell_event = MemoryType.event

-- relationship_type in cross_session_types
unfoldable pub is_cross_session : RelationshipType → Bool
is_cross_session RelationshipType.interest_seed = true
is_cross_session RelationshipType.topic_boundary = false
is_cross_session RelationshipType.proud_moment = false
is_cross_session RelationshipType.unfinished_thread = true
is_cross_session RelationshipType.show_and_tell_event = true

abbrev pub is_text : Option PyText → String → Bool
is_text none value = false
is_text (some text) value = text_is text (codes value)

-- the evidence tells of a type and a topic, in the session where that counts
unfoldable pub tells_of : String → RelationshipType → String → MemoryEvidence → Bool
unfolding is_cross_session opt_eq relationship_value text_is lookup
tells_of session kind topic e =
    (is_cross_session kind || opt_eq e.session_id session)
    && is_text (lookup "relationship_memory_type" e.metadata) (relationship_value kind)
    && is_text (lookup "topic" e.metadata) topic

-- _has_relationship_memory
unfoldable pub has_relationship_memory :
    ℕ → String → String → RelationshipType → String → Store → Bool
unfolding memory_type_of tells_of list_memories
has_relationship_memory now child session kind topic store =
    any (λ m. any (tells_of session kind topic) m.evidence)
      (list_memories now child (some (memory_type_of kind)) true false store)

-- the requests of a list with a first one in front, if it is made
abbrev pub followed_by :
    Option MemoryCreateRequest
    → Option (List MemoryCreateRequest)
    → Option (List MemoryCreateRequest)
followed_by first rest = bind first (λ r. Option.map (λ rs. r ∷ rs) rest)

-- requests.append(self._request(...)) under the conditions, and the requests of behind
unfoldable pub note_requests :
    Turn
    → List (Bool × Note)
    → Option (List MemoryCreateRequest)
    → Option (List MemoryCreateRequest)
unfolding request
note_requests t [] behind = behind
note_requests t ((taken, n) ∷ notes) behind =
    let rest = note_requests t notes behind in
    if taken then followed_by (request t n) rest else rest

-- what a text touches, in the order of _relationship_memory_requests_for_turn
unfoldable pub threads_of : PyText → List (RelationshipType × Option Thread)
unfolding interest_seed topic_boundary proud_moment unfinished_thread show_and_tell_event
threads_of text =
    (RelationshipType.topic_boundary, topic_boundary text)
    ∷ (RelationshipType.proud_moment, proud_moment text)
    ∷ (RelationshipType.interest_seed, interest_seed text)
    ∷ (RelationshipType.unfinished_thread, unfinished_thread text)
    ∷ (RelationshipType.show_and_tell_event, show_and_tell_event text)
    ∷ []

-- the request of a thread, if it is new
unfoldable pub thread_requests :
    ℕ → Turn → Store → List (RelationshipType × Option Thread) → Option (List MemoryCreateRequest)
unfolding has_relationship_memory relationship_request
thread_requests now t store [] = some []
thread_requests now t store ((kind, none) ∷ threads) = thread_requests now t store threads
thread_requests now t store ((kind, some thread) ∷ threads) =
    let rest = thread_requests now t store threads in
    if has_relationship_memory now t.child_id t.session_id kind thread.topic store
    then rest
    else followed_by (relationship_request t kind thread) rest

-- the requests of a list with the times and the identifiers that create_many gives them
unfoldable pub stamped :
    (ℕ → ℕ × String) → ℕ → List MemoryCreateRequest → List (ℕ × String × MemoryCreateRequest)
stamped stamp n [] = []
stamped stamp n (r ∷ rs) = ((stamp n).0, (stamp n).1, r) ∷ stamped stamp (n + 1) rs

module _ (lower : PyText → PyText) where
  -- _relationship_memory_requests_for_turn
  unfoldable pub relationship_memory_requests_for_turn :
      ℕ → Turn → Store → Option (List MemoryCreateRequest)
  unfolding normalize_text text_is should_skip_relationship_memory thread_requests threads_of
  relationship_memory_requests_for_turn now t store =
      let text = normalize_text lower t.child_text in
      if text_is text [] || should_skip_relationship_memory text t.safety
      then some []
      else thread_requests now t store (threads_of text)

  -- _memory_requests_for_turn
  unfoldable pub memory_requests_for_turn : ℕ → Turn → Store → Option (List MemoryCreateRequest)
  unfolding note_requests turn_notes relationship_memory_requests_for_turn
  memory_requests_for_turn now t store =
      note_requests t (turn_notes t) (relationship_memory_requests_for_turn now t store)

  -- record_turn
  unfoldable pub record_turn :
      ℕ → (ℕ → ℕ × String) → Turn → Store → Option (Outcome (List MemoryItem) × Store)
  unfolding memory_requests_for_turn stamped create_many
  record_turn now stamp t store =
      Option.map (λ rs. create_many lower (stamped stamp 0 rs) store)
        (memory_requests_for_turn now t store)
