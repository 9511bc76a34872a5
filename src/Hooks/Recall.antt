-- ===== src/Hooks/Recall.antt =====
-- conversation_memory_hooks.py: `retrieve_context`, which offers memories of a child to the model.
use ai_child.Prelude.{
  ℕ, ◌+◌, Bool, true, false, not, ◌&&◌, ◌||◌, List, [], ◌∷◌, ◌++◌, Option, none, some, String, any,
  map, take, leb, str_eq, insert, if◌then◌else◌,
}
use ai_child.PyText.{PyText, codes, text_is, contains, contains_any, join, opt_eq}
use ai_child.Memory.{MemoryType, MemoryItem, type_value, is_safety}
use ai_child.Memory.Service.{Store, retrieve}
use ai_child.Opening.Relations.{memory_relationship_type, memory_relationship_topic}
use ai_child.Hooks.Session.{
  SessionRecallState, SessionRecall, new_state, topic_recall_count, record_recall, is_topic_blocked,
  block_recalled, suppress_for, is_suppressed, get_session_state,
}

-- the arguments of a call, with the two clocks
pub record Recall : Type 0 where
  pub child_id : String
  pub current_text : PyText
  pub limit : ℕ
  pub session_id : Option String
  pub bedtime : Bool
  pub child_engagement : Option String
  pub active_scene : Option String
  pub now : ℕ
  pub clock : ℕ

-- what the model is told of a memory
pub record RuntimeContext : Type 0 where
  pub memory_type : String
  pub content : PyText
  pub tags : List PyText
  pub confidence : ℕ

abbrev pub bedtime_exciting_markers : List String
bedtime_exciting_markers = "跑步比赛" ∷ "比赛" ∷ "游戏" ∷ "恐龙大战" ∷ "冒险" ∷ "挑战" ∷ "任务" ∷ "奖励" ∷ []

-- _is_exciting_memory
unfoldable pub is_exciting_memory : MemoryItem → Bool
unfolding contains_any
is_exciting_memory m = contains_any (join (codes " ") (m.content ∷ m.tags)) bedtime_exciting_markers

-- is_relationship_memory without a type
unfoldable pub is_of_relationship : MemoryItem → Bool
unfolding memory_relationship_type
is_of_relationship m = elim (memory_relationship_type m) [ none ↦ false | some kind ↦ true ]

unfoldable pub type_topic : MemoryType → List PyText → PyText
type_topic kind [] = codes (type_value kind)
type_topic kind (tag ∷ tags) = codes (type_value kind) ++ (codes ":" ++ tag)

-- _extract_recall_topic
unfoldable pub extract_recall_topic : MemoryItem → PyText
unfolding is_of_relationship memory_relationship_topic type_topic text_is
extract_recall_topic m =
    if is_of_relationship m && not (text_is (memory_relationship_topic m) [])
    then memory_relationship_topic m
    else type_topic m.memory_type m.tags

-- _memory_to_runtime_context
unfoldable pub memory_to_runtime_context : MemoryItem → RuntimeContext
unfolding type_value
memory_to_runtime_context m = record {
  memory_type = type_value m.memory_type;
  content = m.content;
  tags = take 6 m.tags;
  confidence = m.confidence;
}

abbrev pub is_interest_or_event : MemoryType → Bool
is_interest_or_event MemoryType.interest = true
is_interest_or_event MemoryType.event = true
is_interest_or_event _ = false

-- The test of a learning scene. A marker without quotes and backslashes stands in the text of a list of
-- tags exactly if it stands in a tag.
unfoldable pub is_off_topic : MemoryItem → Bool
unfolding extract_recall_topic is_of_relationship memory_relationship_topic text_is contains
is_off_topic m =
    is_interest_or_event m.memory_type
    && not (text_is (extract_recall_topic m) [])
    && is_of_relationship m
    && (not (text_is (memory_relationship_topic m) [])
        || any (contains (codes "show_and_tell")) m.tags)

abbrev pub safety_scenes : List String
safety_scenes = "safety.guardian" ∷ "safety.gentle_checkin" ∷ "privacy.boundary" ∷ []

unfoldable pub is_safety_scene : Option String → Bool
unfolding opt_eq
is_safety_scene scene = any (opt_eq scene) safety_scenes

-- the tests of the loop that end in `continue` before the session is looked at
unfoldable pub is_passed_over : Recall → MemoryItem → Bool
unfolding is_exciting_memory is_off_topic opt_eq
is_passed_over c m =
    is_safety m.memory_type
    || (c.bedtime && is_exciting_memory m)
    || (opt_eq c.active_scene "learning.homework_help" && is_off_topic m)

-- the tests of the loop against the session's state, none for a `continue`
unfoldable pub admit : Bool → ℕ → PyText → SessionRecallState → Option SessionRecallState
unfolding text_is is_topic_blocked topic_recall_count record_recall
admit tracked clock topic s =
    if tracked && not (text_is topic [])
    then (if is_topic_blocked s topic || leb 1 (topic_recall_count s topic)
        then none
        else some (record_recall clock topic s))
    else some s

unfoldable pub admitted :
    Bool → Recall → MemoryItem → SessionRecallState → Option SessionRecallState
unfolding is_passed_over admit extract_recall_topic
admitted tracked c m s =
    if is_passed_over c m then none else admit tracked c.clock (extract_recall_topic m) s

-- the memory of a turn of the loop, with those of the turns behind it
abbrev pub with_memory :
    MemoryItem → List MemoryItem × SessionRecallState → List MemoryItem × SessionRecallState
with_memory m (ms, s) = (m ∷ ms, s)

-- the loop over the memories, with the number of those in the result already
unfoldable pub recall_from :
    Bool → Recall → List MemoryItem → ℕ → SessionRecallState → List MemoryItem × SessionRecallState
unfolding admitted
recall_from tracked c [] n s = ([], s)
recall_from tracked c (m ∷ ms) n s = elim (admitted tracked c m s) [
  | none ↦ recall_from tracked c ms n s
  | some next ↦
      let rest = recall_from tracked c ms (n + 1) next in
      if leb c.limit (n + 1) then (m ∷ [], next) else with_memory m rest
]

-- an identifier that is there and not empty
unfoldable pub session_of : Option String → Option String
session_of none = none
session_of (some id) = if str_eq id "" then none else some id

module _ (lower : PyText → PyText) (c : Recall) (store : Store) where
  -- retrieve_context from the test of the scene on
  unfoldable pub recall_in_scene : Bool → SessionRecallState → List MemoryItem × SessionRecallState
  unfolding is_safety_scene retrieve recall_from
  recall_in_scene tracked s =
      if is_safety_scene c.active_scene
      then ([], s)
      else recall_from tracked c
          (retrieve lower c.now c.child_id c.current_text none (c.limit + 3) false store) 0 s

  -- retrieve_context in a session
  unfoldable pub recall_in_session : SessionRecallState → List MemoryItem × SessionRecallState
  unfolding opt_eq suppress_for block_recalled is_suppressed recall_in_scene
  recall_in_session s =
      if opt_eq c.child_engagement "refused"
      then ([], suppress_for c.clock 300 (block_recalled s))
      else if opt_eq c.child_engagement "boundary"
      then ([], suppress_for c.clock 120 (block_recalled s))
      else if opt_eq c.child_engagement "short_or_flat"
      then ([], suppress_for c.clock 120 s)
      else if is_suppressed c.clock s
      then ([], s)
      else recall_in_scene true s

  -- the memories that retrieve_context takes, without a session or in one
  unfoldable pub recall_for : Option String → SessionRecall → List MemoryItem × SessionRecall
  unfolding get_session_state recall_in_session recall_in_scene
  recall_for none sessions = ((recall_in_scene false new_state).0, sessions)
  recall_for (some id) sessions =
      let after = recall_in_session (get_session_state id sessions) in
      (after.0, insert id after.1 sessions)

  unfoldable pub recall : SessionRecall → List MemoryItem × SessionRecall
  unfolding session_of recall_for
  recall sessions = recall_for (session_of c.session_id) sessions

  -- retrieve_context
  unfoldable pub retrieve_context : SessionRecall → List RuntimeContext × SessionRecall
  unfolding recall memory_to_runtime_context
  retrieve_context sessions =
      let taken = recall sessions in (map memory_to_runtime_context taken.0, taken.1)
