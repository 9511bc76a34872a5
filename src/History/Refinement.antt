-- ===== src/History/Refinement.antt =====
-- conversation_history_service.py: runs of the service against the log.
use ai_child.Prelude.{
  ℕ, ◌≤◌, ◌≡◌, String, List, [], ◌∷◌, ◌++◌, map, refl, ap, ◌∙◌, arith, str_eq, lookup_or,
  lookup_or-insert, lookup_or-remove, length, drop, length-drop, sym, subst, Bool-cases, inl, inr,
  eq_iff, ◌-◌,
}
use ai_child.History.{
  ConversationHistoryMessage, ConversationHistoryService, Role, model_message, said,
  get_recent_model_messages, trim, record_turn, reset_session,
}
use ai_child.History.Log.{
  Event, turn, reset, Log, extend, log_of, last, last-last-append, last-last, trim-eq-last,
  slice-eq-last,
}

-- A call of the service.
abbrev pub step : Event → ConversationHistoryService → ConversationHistoryService
step (turn asked answered session child_text agent_text) s =
    record_turn asked answered session child_text agent_text s
step (reset session) s = reset_session session s

abbrev pub run : List Event → ConversationHistoryService → ConversationHistoryService
run [] s = s
run (e ∷ events) s = run events (step e s)

-- Every session keeps the end of its log.
abbrev pub Keeps : ConversationHistoryService → Log → Type 0
Keeps s log =
    (session : String)
    → lookup_or [] session s.messages_by_session ≡ last s.max_messages_per_session (log session)

pub step-max :
    (e : Event) (s : ConversationHistoryService)
    → (step e s).max_messages_per_session ≡ s.max_messages_per_session
unfolding record_turn reset_session
step-max (turn asked answered session child_text agent_text) s = refl
step-max (reset session) s = refl

-- A trimmed addition to the end of a log is the end of the log with the addition.
trimmed :
    {A : Type 0} (n : ℕ) (kept log new : List A)
    → kept ≡ last n log
    → trim n (kept ++ new) ≡ last n (log ++ new)
trimmed n kept log new e =
    trim-eq-last n (kept ++ new) ∙ ap (λ k. last n (k ++ new)) e ∙ last-last-append n log new

last-nil : {A : Type 0} (n : ℕ) → last {A = A} n [] ≡ []
last-nil n = let e : 0 - n ≡ 0 = omega arith in ap (λ k. drop k []) e

step-Keeps :
    (e : Event) (s : ConversationHistoryService) (log : Log)
    → Keeps s log
    → Keeps (step e s) (extend e log)
unfolding record_turn reset_session
step-Keeps (turn asked answered session child_text agent_text) s log h other =
    elim (Bool-cases (str_eq session other)) [
      | inl e ↦
          rw (lookup_or-insert, e)
            (subst
              (λ (o : String).
                trim n (lookup_or [] session s.messages_by_session ++ new) ≡ last n (log o ++ new))
              ((eq_iff session other).0 e) (trimmed n _ (log session) new (h session)))
      | inr e ↦ rw (lookup_or-insert, e) (h other)
    ]
  where
    n : ℕ
    n = s.max_messages_per_session

    new : List ConversationHistoryMessage
    new = said Role.user asked child_text ++ said Role.assistant answered agent_text
step-Keeps (reset session) s log h other = elim (Bool-cases (str_eq session other)) [
  | inl e ↦ rw (lookup_or-remove, e) (sym (last-nil s.max_messages_per_session))
  | inr e ↦ rw (lookup_or-remove, e) (h other)
]

run-Keeps :
    (events : List Event) (s : ConversationHistoryService) (log : Log)
    → Keeps s log
    → Keeps (run events s) (log_of events log)
      × ((run events s).max_messages_per_session ≡ s.max_messages_per_session)
run-Keeps [] s log h = (h, refl)
run-Keeps (e ∷ events) s log h =
    let (k, m) = run-Keeps events (step e s) (extend e log) (step-Keeps e s log h) in
    (k, m ∙ step-max e s)

-- a service without messages
abbrev pub new_service : ℕ → ConversationHistoryService
new_service n = record { max_messages_per_session = n; messages_by_session = [] }

abbrev pub empty_log : Log
empty_log session = []

-- After any sequence of turns and resets, a positive number of messages up to the limit that the model
-- is given of a session are the last ones that were said there since it was last reset: what the
-- service forgets is never asked for.
pub recent_of_log :
    (n limit : ℕ) (session : String) (events : List Event)
    → 1 ≤ limit
    → limit ≤ n
    → get_recent_model_messages session limit (run events (new_service n))
      ≡ map model_message (last limit (log_of events empty_log session))
unfolding get_recent_model_messages lookup_or
recent_of_log n limit session events positive within =
    let (k, m) = run-Keeps events (new_service n) empty_log (λ other. sym (last-nil n)) in
    ap (map model_message) (
      slice-eq-last limit _ positive
      ∙ ap (last limit) (k session ∙ ap (λ j. last j (log_of events empty_log session)) m)
      ∙ last-last limit n (log_of events empty_log session) within)

-- After any sequence of turns and resets, no session holds more messages than the limit.
pub length-history :
    (n : ℕ) (session : String) (events : List Event)
    → length (lookup_or [] session (run events (new_service n)).messages_by_session) ≤ n
unfolding lookup_or
length-history n session events =
    let (k, m) = run-Keeps events (new_service n) empty_log (λ other. sym (last-nil n)) in
    let log = log_of events empty_log session in
    omega (
      arith,
      ap length (k session),
      m,
      length-drop (length log - n) log,
      length-drop (length log - (run events (new_service n)).max_messages_per_session) log,
    )
