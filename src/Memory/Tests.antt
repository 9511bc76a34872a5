-- ===== src/Memory/Tests.antt =====
-- Memories of concrete children.
use ai_child.Prelude.{◌≡◌, true, false, not, ◌&&◌, List, [], ◌∷◌, none, some, String, any, refl}
use ai_child.Prelude.Sorting.{values}
use ai_child.PyText.{PyText, codes, strip, split, join, without, contains_any, text_is}
use ai_child.Memory.{
  MemoryType, MemorySensitivity, MemoryCreateRequest, MemoryUpdateRequest, MemoryItem,
  normalize_tags, is_valid_evidence,
}
use ai_child.Memory.Service.{Outcome, create_many, retrieve}
use ai_child.Memory.Extractor.{
  MemoryExtractionRequest, extract, branches, build_all, build_memory, new_request, quote_summary,
  normalized,
}
use ai_child.Memory.Safe.{Call, AllSafe, run, run-AllSafe}
use ai_child.Memory.Retrieval.{IsAnswer, retrieve-IsAnswer}
use ai_child.Memory.Extraction.{is_none, some_taken, is_writable, extract_fails_iff}
use ai_child.Memory.Kept.{is_alarm, alarm_is_kept}

-- str.lower on texts without capitals
abbrev same : PyText → PyText
same t = t

-- an observation from one source
abbrev observed : String → MemoryCreateRequest
observed source = record {
  child_id = "c1";
  memory_type = MemoryType.interest;
  content = codes "喜欢恐龙";
  tags = codes "恐龙" ∷ [];
  evidence =
      record { source = codes source; session_id = none; quote_summary = codes "q"; metadata = [] }
      ∷ [];
  confidence = 70;
  importance = 50;
  sensitivity = MemorySensitivity.low;
  visible_to_parent = false;
  visible_to_child = false;
  requires_parent_attention = false;
  expires_at = none;
  embedding_id = none;
}

-- an observation that becomes critical
abbrev watched : MemoryUpdateRequest
watched = record {
  memory_type = none;
  content = none;
  tags = none;
  evidence = none;
  confidence = none;
  importance = none;
  sensitivity = some MemorySensitivity.critical;
  visible_to_parent = some false;
  visible_to_child = none;
  requires_parent_attention = none;
  expires_at = some none;
  embedding_id = none;
}

abbrev calls : List Call
calls =
    Call.creates ((1, "m1", observed "chat_summary") ∷ (2, "m2", observed "raw_chat") ∷ [])
    ∷ Call.updates 3 "m1" watched
    ∷ []

run-AllSafe_example : AllSafe same (run same calls [])
unfolding values
run-AllSafe_example = run-AllSafe same calls [] tt

retrieve-IsAnswer_example :
    IsAnswer same 10 "c1"
      (codes "恐龙")
      none
      false
      3
      (run same calls [])
      (retrieve same 10 "c1" (codes "恐龙") none 3 false (run same calls []))
retrieve-IsAnswer_example =
    retrieve-IsAnswer same 10 "c1" (codes "恐龙") none false 3 (run same calls [])

-- a chat with a safety signal of which the summary names nothing
abbrev told : PyText → MemoryExtractionRequest
told summary = record {
  child_id = "c1";
  session_id = "s1";
  chat_summary = summary;
  safety_requires_parent_attention = true;
}

abbrev alarm : MemoryCreateRequest
alarm = record {
  child_id = "c1";
  memory_type = MemoryType.safety;
  content = codes "本次会话出现需要家长关注的安全信号，应由家长进一步了解情况。";
  tags = codes "安全提醒" ∷ codes "家长关注" ∷ [];
  evidence =
      record {
        source = codes "chat_summary";
        session_id = some "s1";
        quote_summary = codes "聊了天气";
        metadata = [];
      }
      ∷ [];
  confidence = 90;
  importance = 100;
  sensitivity = MemorySensitivity.critical;
  visible_to_parent = true;
  visible_to_child = false;
  requires_parent_attention = true;
  expires_at = none;
  embedding_id = none;
}

told-extract : extract (told (codes " 聊了天气 ")) ≡ some (alarm ∷ [])
unfolding extract branches build_all build_memory new_request quote_summary normalized
    normalize_tags is_valid_evidence contains_any strip split join without text_is
told-extract = refl

-- with a summary of spaces alone the signal is lost
blank_summary : extract (told (codes "  ")) ≡ none
unfolding extract branches build_all build_memory new_request quote_summary normalized
    normalize_tags is_valid_evidence contains_any strip split join without text_is
blank_summary = refl

extract_fails_iff_example :
    is_none (extract (told (codes "  ")))
    ≡ some_taken (branches (told (codes "  "))) && not (is_writable (told (codes "  ")))
extract_fails_iff_example = extract_fails_iff (told (codes "  "))

alarm_is_kept_example :
    (ms : List MemoryItem) × ((create_many same ((1, "m1", alarm) ∷ []) []).0 ≡ Outcome.returned ms)
    × (any (is_alarm "c1") ms ≡ true)
alarm_is_kept_example =
    alarm_is_kept same (told (codes " 聊了天气 ")) ((1, "m1", alarm) ∷ []) [] refl refl told-extract
