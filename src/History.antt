-- ===== src/History.antt =====
-- backend/app/services/conversation_history_service.py: the last messages of each session, for the
-- model. The limit of a service is a natural number, and the times of the messages are arguments.
pub mod Log
pub mod Refinement
mod Tests
use ai_child.Prelude.{
  ℕ, zero, suc, ◌-◌, String, Bool, List, [], ◌∷◌, ◌++◌, map, length, drop, ltb, if◌then◌else◌, Dict,
  lookup_or, insert, remove,
}
use ai_child.PyText.{PyText, strip}

pub data Role : Type 0 where
  user assistant : Role

pub record ConversationHistoryMessage : Type 0 where
  pub role : Role
  pub text : PyText
  pub created_at : ℕ

-- domain/model_types.py: ModelMessage
pub record ModelMessage : Type 0 where
  pub role : Role
  pub content : PyText

pub record ConversationHistoryService : Type 0 where
  pub max_messages_per_session : ℕ
  pub messages_by_session : Dict (List ConversationHistoryMessage)

-- `ModelMessage(role=..., content=message.text)`
unfoldable pub model_message : ConversationHistoryMessage → ModelMessage
model_message m = record { role = m.role; content = m.text }

-- `messages[-limit:]`; `messages[-0:]` is the whole list
unfoldable pub slice_from_end {ℓ} : {A : Type ℓ} → ℕ → List A → List A
slice_from_end zero xs = xs
slice_from_end (suc n) xs = drop (length xs - suc n) xs

-- get_recent_model_messages
unfoldable pub get_recent_model_messages :
    String → ℕ → ConversationHistoryService → List ModelMessage
unfolding slice_from_end model_message
get_recent_model_messages session limit s =
    map model_message (slice_from_end limit (lookup_or [] session s.messages_by_session))

-- `if text.strip(): messages.append(...)`
unfoldable pub said_stripped : Role → ℕ → PyText → List ConversationHistoryMessage
said_stripped role now [] = []
said_stripped role now (c ∷ text) = record { role = role; text = c ∷ text; created_at = now } ∷ []

unfoldable pub said : Role → ℕ → PyText → List ConversationHistoryMessage
unfolding said_stripped
said role now text = said_stripped role now (strip text)

-- `if len(messages) > max: del messages[: len(messages) - max]`
unfoldable pub trim {ℓ} : {A : Type ℓ} → ℕ → List A → List A
trim n xs = if ltb n (length xs) then drop (length xs - n) xs else xs

-- record_turn, with the times of the two messages
unfoldable pub record_turn :
    ℕ → ℕ → String → PyText → PyText → ConversationHistoryService → ConversationHistoryService
unfolding said trim
record_turn asked answered session child_text agent_text s =
    let messages = lookup_or [] session s.messages_by_session in
    record s {
      messages_by_session =
          insert session
            (trim s.max_messages_per_session (
              messages
              ++ (said Role.user asked child_text ++ said Role.assistant answered agent_text)))
            s.messages_by_session;
    }

-- reset_session
unfoldable pub reset_session : String → ConversationHistoryService → ConversationHistoryService
reset_session session s = record s { messages_by_session = remove session s.messages_by_session }
