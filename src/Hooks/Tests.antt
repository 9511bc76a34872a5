-- ===== src/Hooks/Tests.antt =====
-- The hooks at a concrete child, and the theorems there.
use ai_child.Prelude.{
  ℕ, zero, suc, ap, arith, ◌+◌, ◌*◌, ◌≤◌, ◌≡◌, max, true, false, List, [], ◌∷◌, Option, none, some,
  String, All, length, map, refl, insert,
}
use ai_child.Prelude.Sorting.{sorted, keep, values}
use ai_child.Memory.Rules.{matches_query}
use ai_child.PyText.{PyText, codes, strip, split, join, without, contains_any, opt_eq}
use ai_child.Enums.{risk_rank}
use ai_child.TimePeriod.{TimePeriod}
use ai_child.Safety.{classify_input, summarise, highest, is_at_least}
use ai_child.Safety.Hits.{input_hits, normalize}
use ai_child.Scene.Router.{SceneOrchestrator, Drawn}
use ai_child.Turn.{Message}
use ai_child.Memory.{MemoryType, MemorySensitivity, MemoryCreateRequest, MemoryItem}
use ai_child.Memory.Service.{Store, Outcome, list_memories, is_of_types}
use ai_child.Memory.Allowed.{kept, with_all}
use ai_child.Hooks.Session.{get_session_state, second}
use ai_child.Hooks.Recall.{Recall, recall, retrieve_context}
use ai_child.Hooks.Counts.{IsDistinct}
use ai_child.Hooks.Taken.{topics}
use ai_child.Hooks.States.{Calls, after_calls}
use ai_child.Hooks.Once.{recalled_in, recalled_once}
use ai_child.Hooks.Window.{is_signal, quiet_until, is_neutral, last_signal_decides}
use ai_child.Hooks.Fit.{is_fit, recalled_is_fit}
use ai_child.Hooks.Requests.{Turn}
use ai_child.Hooks.Record.{memory_requests_for_turn, stamped, record_turn}
use ai_child.Hooks.Kept.{AllAnswer, turn_is_stored}
use ai_child.Hooks.Silent.{recall_of, watched_turn_is_silent}
use ai_child.Hooks.Refusal.{refusal_is_respected}
use ai_child.Hooks.Alarm.{AreFresh, Remembers, turn_of, alarm_is_remembered}

-- str.lower on texts without capitals
abbrev lower : PyText → PyText
lower text = text

abbrev dinosaurs : MemoryItem
dinosaurs = record {
  id = "m1";
  child_id = "c1";
  memory_type = MemoryType.interest;
  content = codes "孩子近期自然聊到恐龙";
  tags = codes "relationship_memory" ∷ codes "恐龙" ∷ [];
  evidence =
      record {
        source = codes "conversation_summary";
        session_id = some "s0";
        quote_summary = codes "q";
        metadata = ("relationship_memory_type", codes "interest_seed") ∷ ("topic", codes "恐龙") ∷ [];
      }
      ∷ [];
  confidence = 76;
  importance = 50;
  sensitivity = MemorySensitivity.low;
  visible_to_parent = true;
  visible_to_child = false;
  requires_parent_attention = false;
  expires_at = none;
  embedding_id = none;
  created_at = 100;
  updated_at = 100;
}

abbrev store : Store
store = ("m1", dinosaurs) ∷ []

-- a call in the session s1 at a time, with what the child signals
abbrev call_at : ℕ → Option String → Recall
call_at seconds engagement = record {
  child_id = "c1";
  current_text = codes "恐龙";
  limit = 5;
  session_id = some "s1";
  bedtime = false;
  child_engagement = engagement;
  active_scene = some "conversation.open";
  now = 200;
  clock = seconds * second;
}

abbrev twice : Calls
twice = (call_at 0 none, store) ∷ (call_at 60 none, store) ∷ []

-- of two calls the first takes the memory
taken_once : map (λ (m : MemoryItem). m.id) (recalled_in lower "s1" twice []) ≡ "m1" ∷ []
unfolding recall opt_eq sorted keep list_memories values is_of_types matches_query strip split join
    insert
taken_once = refl

recalled_once_example : IsDistinct (topics (recalled_in lower "s1" twice []))
recalled_once_example = recalled_once lower "s1" twice [] refl

-- a refusal, a neutral call, and the time until which the session is quiet
last_signal_decides_example :
    (get_session_state "s1" (
      after_calls lower
        ((call_at 10 (some "refused"), store) ∷ (call_at 20 none, store) ∷ [])
        [])).suppress_until
    ≡ quiet_until (call_at 10 (some "refused"))
unfolding is_signal is_neutral opt_eq
last_signal_decides_example =
    last_signal_decides lower "s1" refl (call_at 10 (some "refused")) store
      ((call_at 20 none, store) ∷ []) [] refl refl (refl, tt)

recalled_is_fit_example :
    All (λ m. is_fit lower (call_at 0 none) m ≡ true) (recall lower (call_at 0 none) store []).0
    × (length (recall lower (call_at 0 none) store []).0 ≤ max 1 5)
recalled_is_fit_example = recalled_is_fit lower (call_at 0 none) store []

abbrev drawn : Drawn
drawn = record { record_id = "r1"; message_uuid = "u1"; now = 1000 }

abbrev no_sessions : SceneOrchestrator
no_sessions = record { session_stacks = []; records = [] }

abbrev alarm : Message
alarm = record {
  child_id = "c1";
  session_id = "s1";
  text = codes "我不想活了";
  time_period = TimePeriod.homework_time;
  parent_goals = [];
  homework_context = none;
  recognized_type = none;
}

-- identifiers that are distinct
abbrev name : ℕ → String
name zero = "m"
name (suc n) = String.◌∷◌ "x" (name n)

length-name : (n : ℕ) → length (codes (name n)) ≡ suc n
length-name zero = refl
length-name (suc n) = ap suc (length-name n)

abbrev stamp : ℕ → ℕ × String
stamp n = (200 + n, name n)

stamp-AreFresh : AreFresh stamp
stamp-AreFresh i j h =
    omega (arith, ap (λ (s : String). length (codes s)) h, length-name i, length-name j)

abbrev alarm_turn : Turn
unfolding turn_of
alarm_turn = turn_of lower drawn alarm no_sessions

turn_is_stored_example :
    (rs : List MemoryCreateRequest) × (memory_requests_for_turn lower 200 alarm_turn store
      ≡ some rs)
    × (record_turn lower 200 stamp alarm_turn store
        ≡ some (
          Outcome.returned (map kept (stamped stamp 0 rs)),
          with_all (map kept (stamped stamp 0 rs)) store,
        ))
    × AllAnswer stamp 0 rs (map kept (stamped stamp 0 rs))
unfolding alarm_turn
turn_is_stored_example = turn_is_stored lower refl alarm_turn refl refl 200 stamp store

alarm_is_remembered_example :
    Remembers
      (turn_of lower drawn alarm no_sessions)
      (record_turn lower 200 stamp (turn_of lower drawn alarm no_sessions) store)
unfolding classify_input input_hits normalize strip without contains_any summarise risk_rank highest
alarm_is_remembered_example =
    alarm_is_remembered lower refl drawn alarm no_sessions 200 stamp store stamp-AreFresh refl refl
      refl

watched_turn_is_silent_example :
    (retrieve_context lower (recall_of lower drawn alarm no_sessions 200 0) store []).0 ≡ []
unfolding classify_input input_hits normalize strip without contains_any summarise risk_rank highest
    is_at_least
watched_turn_is_silent_example =
    watched_turn_is_silent lower drawn alarm no_sessions 200 0 store [] refl

abbrev refusal : Message
refusal = record alarm { text = codes "别问了" }

abbrev dinosaur_question : Message
dinosaur_question = record alarm { text = codes "你记得我的恐龙吗" }

refusal_is_respected_example :
    (retrieve_context lower
      (recall_of lower drawn dinosaur_question no_sessions 200 (299 * second))
      store
      (after_calls lower ((recall_of lower drawn refusal no_sessions 200 0, store) ∷ []) [])).0
    ≡ []
unfolding strip without contains_any
refusal_is_respected_example =
    refusal_is_respected lower refusal refl drawn drawn no_sessions no_sessions dinosaur_question
      200 0 200 (299 * second) store store [] [] refl tt refl refl
