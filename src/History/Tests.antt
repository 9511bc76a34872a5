-- ===== src/History/Tests.antt =====
-- Runs of the history, and its theorems at a concrete sequence of calls.
use ai_child.Prelude.{◌≡◌, List, [], ◌∷◌, map, lookup_or, insert, arith, refl}
use ai_child.PyText.{codes, strip}
use ai_child.History.{Role, model_message, get_recent_model_messages, record_turn, said}
use ai_child.History.Log.{Event, turn, log_of, last}
use ai_child.History.Refinement.{run, new_service, empty_log, recent_of_log}

abbrev events : List Event
events =
    turn 1 2 "s1" (codes "你好") (codes "你好呀")
    ∷ turn 3 4 "s2" (codes "在吗") (codes "我在")
    ∷ turn 5 6 "s1" (codes " ") (codes "慢慢说")
    ∷ []

-- a blank message is not kept, and the oldest message is forgotten
kept :
    get_recent_model_messages "s1" 6 (run events (new_service 2))
    ≡ record { role = Role.assistant; content = codes "你好呀" }
      ∷ record { role = Role.assistant; content = codes "慢慢说" }
      ∷ []
unfolding get_recent_model_messages record_turn lookup_or insert said strip
kept = refl

recent_of_log_example :
    get_recent_model_messages "s1" 2 (run events (new_service 2))
    ≡ map model_message (last 2 (log_of events empty_log "s1"))
recent_of_log_example = recent_of_log 2 2 "s1" events (omega arith) (omega arith)
