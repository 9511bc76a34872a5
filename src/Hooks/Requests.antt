-- ===== src/Hooks/Requests.antt =====
-- conversation_memory_hooks.py: the requests for the memories of a turn, and the metadata of
-- backend/app/services/relationship_memory.py. None is the ValidationError of a request that pydantic refuses.
use ai_child.Prelude.{
  true, false, [], ◌∷◌, Option, none, some, String, map, str_eq, Dict, insert, if◌then◌else◌,
}
use ai_child.PyText.{PyText, codes}
use ai_child.Enums.{level_value}
use ai_child.Safety.{SafetyClassification}
use ai_child.Intent.{IntentClassification}
use ai_child.Scene.{SceneId, SceneRouteDecision}
use ai_child.Memory.{MemoryType, MemorySensitivity, MemoryCreateRequest}
use ai_child.Memory.Extractor.{new_request}
use ai_child.Hooks.Notes.{Note}
use ai_child.Hooks.Threads.{Thread}

-- the arguments of record_turn
pub record Turn : Type 0 where
  pub child_id : String
  pub session_id : String
  pub child_text : PyText
  pub safety : SafetyClassification
  pub intent : IntentClassification
  pub route_decision : SceneRouteDecision

-- relationship_memory.py: the types of relationship memories
pub data RelationshipType : Type 0 where
  interest_seed topic_boundary proud_moment unfinished_thread show_and_tell_event : RelationshipType

unfoldable pub relationship_value : RelationshipType → String
relationship_value RelationshipType.interest_seed = "interest_seed"
relationship_value RelationshipType.topic_boundary = "topic_boundary"
relationship_value RelationshipType.proud_moment = "proud_moment"
relationship_value RelationshipType.unfinished_thread = "unfinished_thread"
relationship_value RelationshipType.show_and_tell_event = "show_and_tell_event"

-- SceneId.value
unfoldable pub scene_value : SceneId → String
scene_value SceneId.open_conversation = "conversation.open"
scene_value SceneId.daily_after_school_checkin = "daily.after_school_checkin"
scene_value SceneId.learning_homework_help = "learning.homework_help"
scene_value SceneId.daily_bedtime_reflection = "daily.bedtime_reflection"
scene_value SceneId.safety_guardian = "safety.guardian"
scene_value SceneId.safety_gentle_checkin = "safety.gentle_checkin"
scene_value SceneId.privacy_boundary = "privacy.boundary"

-- the metadata of a decision
unfoldable pub route_metadata : SceneRouteDecision → Dict PyText
unfolding scene_value level_value
route_metadata d =
    ("active_scene", codes (scene_value d.active_scene))
    ∷ ("route_reason", codes d.reason)
    ∷ ("risk_level", codes (level_value d.risk_level))
    ∷ []

-- metadata.update(extra)
unfoldable pub updated_with : Dict PyText → Dict PyText → Dict PyText
updated_with d [] = d
updated_with d ((k, v) ∷ extra) = updated_with (insert k v d) extra

unfoldable pub set_text : String → String → Dict PyText → Dict PyText
set_text key value d = if str_eq value "" then d else insert key (codes value) d

-- relationship_metadata, of the texts
unfoldable pub relationship_metadata : RelationshipType → Thread → Dict PyText → Dict PyText
unfolding relationship_value set_text updated_with
relationship_metadata kind thread extra =
    updated_with
      (set_text "next_hook" thread.next_hook (
        set_text "topic" thread.topic (
          ("relationship_memory_type", codes (relationship_value kind))
          ∷ ("source", codes "conversation_summary")
          ∷ [])))
      extra

-- MemoryCreateRequest(...) of a note with its evidence
unfoldable pub note_request : String → String → Note → Dict PyText → Option MemoryCreateRequest
unfolding new_request
note_request child session n metadata = new_request (record {
  child_id = child;
  memory_type = n.memory_type;
  content = codes n.content;
  tags = map codes n.tags;
  evidence =
      record {
        source = codes "conversation_summary";
        session_id = some session;
        quote_summary = codes n.quote_summary;
        metadata = metadata;
      }
      ∷ [];
  confidence = n.confidence;
  importance = n.importance;
  sensitivity = n.sensitivity;
  visible_to_parent = true;
  visible_to_child = false;
  requires_parent_attention = n.requires_parent_attention;
  expires_at = none;
  embedding_id = none;
})

-- _request
unfoldable pub request : Turn → Note → Option MemoryCreateRequest
unfolding note_request route_metadata
request t n = note_request t.child_id t.session_id n (route_metadata t.route_decision)

-- what the callers of _relationship_request give for a thread of a type
unfoldable pub thread_note : RelationshipType → Thread → Note
thread_note RelationshipType.topic_boundary t = record {
  memory_type = MemoryType.strategy;
  content = t.content;
  tags = "relationship_memory" ∷ "topic_boundary" ∷ "尊重边界" ∷ [];
  quote_summary = t.quote_summary;
  sensitivity = MemorySensitivity.low;
  confidence = 84;
  importance = 62;
  requires_parent_attention = false;
}
thread_note RelationshipType.proud_moment t = record {
  memory_type = MemoryType.expression_pattern;
  content = t.content;
  tags = "relationship_memory" ∷ "proud_moment" ∷ "表达进步" ∷ t.topic ∷ [];
  quote_summary = t.quote_summary;
  sensitivity = MemorySensitivity.low;
  confidence = 78;
  importance = 56;
  requires_parent_attention = false;
}
thread_note RelationshipType.interest_seed t = record {
  memory_type = MemoryType.interest;
  content = t.content;
  tags = "relationship_memory" ∷ "interest_seed" ∷ t.topic ∷ [];
  quote_summary = t.quote_summary;
  sensitivity = MemorySensitivity.low;
  confidence = 76;
  importance = 50;
  requires_parent_attention = false;
}
thread_note RelationshipType.unfinished_thread t = record {
  memory_type = MemoryType.event;
  content = t.content;
  tags = "relationship_memory" ∷ "unfinished_thread" ∷ [];
  quote_summary = t.quote_summary;
  sensitivity = MemorySensitivity.low;
  confidence = 80;
  importance = 55;
  requires_parent_attention = false;
}
thread_note RelationshipType.show_and_tell_event t = record {
  memory_type = MemoryType.event;
  content = t.content;
  tags = "relationship_memory" ∷ "show_and_tell" ∷ t.topic ∷ [];
  quote_summary = t.quote_summary;
  sensitivity = MemorySensitivity.low;
  confidence = 78;
  importance = 50;
  requires_parent_attention = false;
}

-- _relationship_request
unfoldable pub relationship_request : Turn → RelationshipType → Thread → Option MemoryCreateRequest
unfolding note_request thread_note relationship_metadata route_metadata
relationship_request t kind thread =
    note_request t.child_id t.session_id (thread_note kind thread) (
      relationship_metadata kind thread (
        updated_with (route_metadata t.route_decision)
          (map (λ (x : String × String). (x.0, codes x.1)) thread.extra)))
