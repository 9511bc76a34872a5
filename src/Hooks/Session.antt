-- ===== src/Hooks/Session.antt =====
-- conversation_memory_hooks.py: `_SessionRecallState`, and the states of the sessions. The set of the blocked
-- topics is a list without repetitions.
use ai_child.Prelude.{
  ℕ, ◌+◌, ◌*◌, Bool, List, [], ◌∷◌, ◌++◌, String, any, ltb, Dict, lookup_or, if◌then◌else◌,
}
use ai_child.PyText.{PyText, text_is}

pub record SessionRecallState : Type 0 where
  pub recalled_topics : List (PyText × ℕ)
  pub suppress_until : ℕ
  pub last_recall_ts : ℕ
  pub blocked_topics : List PyText

-- _SessionRecallState()
abbrev pub new_state : SessionRecallState
new_state = record {
  recalled_topics = [];
  suppress_until = 0;
  last_recall_ts = 0;
  blocked_topics = [];
}

-- recalled_topics.get(topic, 0)
unfoldable pub recall_count : PyText → List (PyText × ℕ) → ℕ
recall_count topic [] = 0
recall_count topic ((t, n) ∷ counts) = if text_is t topic then n else recall_count topic counts

-- recalled_topics[topic] = n
unfoldable pub set_recall_count : PyText → ℕ → List (PyText × ℕ) → List (PyText × ℕ)
set_recall_count topic n [] = (topic, n) ∷ []
set_recall_count topic n ((t, m) ∷ counts) =
    if text_is t topic then (topic, n) ∷ counts else (t, m) ∷ set_recall_count topic n counts

-- topic_recall_count
unfoldable pub topic_recall_count : SessionRecallState → PyText → ℕ
topic_recall_count s topic = recall_count topic s.recalled_topics

-- record_recall
unfoldable pub record_recall : ℕ → PyText → SessionRecallState → SessionRecallState
unfolding set_recall_count recall_count
record_recall clock topic s = record s {
  recalled_topics =
      set_recall_count topic (recall_count topic s.recalled_topics + 1) s.recalled_topics;
  last_recall_ts = clock;
}

-- is_topic_blocked
unfoldable pub is_topic_blocked : SessionRecallState → PyText → Bool
is_topic_blocked s topic = any (text_is topic) s.blocked_topics

-- block_topic
unfoldable pub block_topic : PyText → SessionRecallState → SessionRecallState
unfolding is_topic_blocked
block_topic topic s =
    if is_topic_blocked s topic
    then s
    else record s { blocked_topics = s.blocked_topics ++ topic ∷ [] }

-- for topic in list(recalled_topics.keys()): block_topic(topic)
unfoldable pub block_topics : List (PyText × ℕ) → SessionRecallState → SessionRecallState
unfolding block_topic
block_topics [] s = s
block_topics ((topic, n) ∷ counts) s = block_topics counts (block_topic topic s)

unfoldable pub block_recalled : SessionRecallState → SessionRecallState
unfolding block_topics
block_recalled s = block_topics s.recalled_topics s

abbrev pub second : ℕ
second = 1000000

-- suppress_for, in whole seconds
unfoldable pub suppress_for : ℕ → ℕ → SessionRecallState → SessionRecallState
suppress_for clock seconds s = record s { suppress_until = clock + seconds * second }

-- is_suppressed
unfoldable pub is_suppressed : ℕ → SessionRecallState → Bool
is_suppressed clock s = ltb clock s.suppress_until

-- self._session_recall
abbrev pub SessionRecall : Type 0
SessionRecall = Dict SessionRecallState

-- _get_session_state; the caller stores the state that it goes on with
unfoldable pub get_session_state : String → SessionRecall → SessionRecallState
unfolding lookup_or
get_session_state id sessions = lookup_or new_state id sessions
