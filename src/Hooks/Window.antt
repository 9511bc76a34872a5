-- ===== src/Hooks/Window.antt =====
-- conversation_memory_hooks.py, `retrieve_context`: for how long a session recalls nothing.
use ai_child.Prelude.{
  ℕ, ◌+◌, ◌*◌, ◌≡◌, Bool, true, false, not, ◌&&◌, ◌||◌, List, [], ◌∷◌, Option, none, some, String,
  All, map, ltb, leb, str_eq, if◌then◌else◌, arith, refl, if_of, Bool-cases, inl, inr, ap, ◌∙◌,
}
use ai_child.Prelude.Sorting.{IfSome}
use ai_child.PyText.{PyText, text_is, opt_eq}
use ai_child.Memory.{MemoryItem}
use ai_child.Memory.Service.{Store, retrieve}
use ai_child.Hooks.Session.{
  SessionRecallState, SessionRecall, record_recall, is_topic_blocked, topic_recall_count,
  suppress_for, is_suppressed, second, get_session_state,
}
use ai_child.Hooks.Recall.{
  Recall, extract_recall_topic, is_passed_over, admit, admitted, with_memory, recall_from,
  recall_in_scene, recall_in_session, recall, is_safety_scene, memory_to_runtime_context,
  retrieve_context,
}
use ai_child.Hooks.States.{
  Calls, after_calls, recall-own, get_session_state-own, get_session_state-other,
}

abbrev HasUntil : ℕ → SessionRecallState → Type 0
HasUntil t s = s.suppress_until ≡ t

module _ (c : Recall) where
  -- a refusal, or another sign that the child wants no more
  unfoldable pub is_signal : Bool
  unfolding opt_eq
  is_signal =
      opt_eq c.child_engagement "refused"
      || opt_eq c.child_engagement "boundary"
      || opt_eq c.child_engagement "short_or_flat"

  -- the time until which a call that is such a sign is to keep its session quiet
  unfoldable pub quiet_until : ℕ
  unfolding opt_eq
  quiet_until = c.clock + (if opt_eq c.child_engagement "refused" then 300 else 120) * second

  admit-until :
      (topic : PyText) (s : SessionRecallState)
      → IfSome (HasUntil s.suppress_until) (admit true c.clock topic s)
  unfolding admit record_recall
  admit-until topic s =
      if_of (IfSome (HasUntil s.suppress_until)) (not (text_is topic []))
        (λ _.
          if_of (IfSome (HasUntil s.suppress_until))
            (is_topic_blocked s topic || leb 1 (topic_recall_count s topic)) (λ _. tt) (λ _. refl))
        (λ _. refl)

  admitted-until :
      (m : MemoryItem) (s : SessionRecallState)
      → IfSome (HasUntil s.suppress_until) (admitted true c m s)
  unfolding admitted
  admitted-until m s =
      if_of (IfSome (HasUntil s.suppress_until)) (is_passed_over c m) (λ _. tt)
        (λ _. admit-until (extract_recall_topic m) s)

  recall_from-until :
      (ms : List MemoryItem) (n : ℕ) (s : SessionRecallState)
      → HasUntil s.suppress_until (recall_from true c ms n s).1
  unfolding recall_from
  recall_from-until [] n s = refl
  recall_from-until (m ∷ ms) n s =
      step (admitted true c m s) (admitted-until m s) (recall_from-until ms n s)
        (λ next. recall_from-until ms (n + 1) next)
    where
      step :
          (o : Option SessionRecallState)
          → IfSome (HasUntil s.suppress_until) o
          → HasUntil s.suppress_until (recall_from true c ms n s).1
          → ((next : SessionRecallState)
              → HasUntil next.suppress_until (recall_from true c ms (n + 1) next).1)
          → HasUntil s.suppress_until
              (elim o as (λ _. List MemoryItem × SessionRecallState) [
                | none ↦ recall_from true c ms n s
                | some next ↦
                    let rest = recall_from true c ms (n + 1) next in
                    if leb c.limit (n + 1) then (m ∷ [], next) else with_memory m rest
              ]).1
      step none a without with = without
      step (some next) a without with =
          if_of (λ (r : List MemoryItem × SessionRecallState). HasUntil s.suppress_until r.1)
            (leb c.limit (n + 1)) (λ _. a) (λ _. with next ∙ a)

  module _ (lower : PyText → PyText) (store : Store) where
    -- what a call makes of the time until which its session is quiet
    recall_in_session-until :
        (s : SessionRecallState)
        → HasUntil
            (if is_signal then quiet_until else s.suppress_until)
            (recall_in_session lower c store s).1
    unfolding recall_in_session recall_in_scene is_signal quiet_until suppress_for
    recall_in_session-until s =
        if_of P (opt_eq c.child_engagement "refused") (λ h. ground (arith, h))
          (λ r.
            if_of P (opt_eq c.child_engagement "boundary") (λ h. ground (arith, h, r))
              (λ b.
                if_of P (opt_eq c.child_engagement "short_or_flat") (λ h. ground (arith, h, r, b))
                  (λ f.
                    if_of P (is_suppressed c.clock s) (λ _. ground (arith, r, b, f))
                      (λ _.
                        if_of P (is_safety_scene c.active_scene) (λ _. ground (arith, r, b, f))
                          (λ _. ground (
                            arith,
                            r,
                            b,
                            f,
                            recall_from-until
                                (retrieve lower c.now c.child_id c.current_text none (c.limit + 3)
                                  false store)
                                0 s,
                          ))))))
      where
        P : List MemoryItem × SessionRecallState → Type 0
        P r = HasUntil (if is_signal then quiet_until else s.suppress_until) r.1

    -- a quiet session takes no memory
    quiet_is_empty :
        (s : SessionRecallState)
        → ltb c.clock s.suppress_until ≡ true
        → (recall_in_session lower c store s).0 ≡ []
    unfolding recall_in_session is_suppressed
    quiet_is_empty s h = ground arith

-- a call that is no sign in a session
unfoldable pub is_neutral : String → Recall × Store → Bool
unfolding is_signal opt_eq
is_neutral id call = not (opt_eq call.0.session_id id && is_signal call.0)

module _ (lower : PyText → PyText) (id : String) (real : str_eq id "" ≡ false) where
  recall-until :
      (c : Recall) (store : Store) (sessions : SessionRecall)
      → HasUntil
          (if opt_eq c.session_id id && is_signal c
            then quiet_until c
            else (get_session_state id sessions).suppress_until)
          (get_session_state id (recall lower c store sessions).1)
  recall-until c store sessions = elim (Bool-cases (opt_eq c.session_id id)) [
    | inl e ↦
        rw (e, get_session_state-own lower id real c store sessions e)
          (recall_in_session-until c lower store (get_session_state id sessions))
    | inr e ↦ rw (e, get_session_state-other lower id real c store sessions e) refl
  ]

  neutral-until :
      (calls : Calls) (sessions : SessionRecall)
      → All (λ call. is_neutral id call ≡ true) calls
      → HasUntil
          (get_session_state id sessions).suppress_until
          (get_session_state id (after_calls lower calls sessions))
  unfolding is_neutral
  neutral-until [] sessions a = refl
  neutral-until ((c, store) ∷ calls) sessions a =
      neutral-until calls (recall lower c store sessions).1 a.1
      ∙ ground (arith, recall-until c store sessions, a.0)

  -- After a refusal, a change of the topic or a short answer, and then calls without such a sign in the
  -- session, its quiet time ends 300 seconds after the refusal, or 120 seconds after the other sign, however
  -- long an earlier sign asked for.
  pub last_signal_decides :
      (c : Recall) (store : Store) (calls : Calls) (sessions : SessionRecall)
      → opt_eq c.session_id id ≡ true
      → is_signal c ≡ true
      → All (λ call. is_neutral id call ≡ true) calls
      → (get_session_state id (after_calls lower ((c, store) ∷ calls) sessions)).suppress_until
        ≡ quiet_until c
  last_signal_decides c store calls sessions own sign a =
      neutral-until calls (recall lower c store sessions).1 a
      ∙ ground (arith, recall-until c store sessions, own, sign)

  -- Before that time no call of the session is given a memory.
  pub quiet_after_signal :
      (c : Recall) (store : Store) (calls : Calls) (sessions : SessionRecall) (d : Recall)
      (memories : Store)
      → opt_eq c.session_id id ≡ true
      → is_signal c ≡ true
      → All (λ call. is_neutral id call ≡ true) calls
      → opt_eq d.session_id id ≡ true
      → ltb d.clock (quiet_until c) ≡ true
      → (retrieve_context lower d memories (after_calls lower ((c, store) ∷ calls) sessions)).0 ≡ []
  unfolding retrieve_context
  quiet_after_signal c store calls sessions d memories own sign a own_too before =
      ap (map memory_to_runtime_context) (
        ap (λ (r : List MemoryItem × SessionRecall). r.0)
          (recall-own lower id real d memories after own_too)
        ∙ quiet_is_empty d lower memories (get_session_state id after)
            (rw (last_signal_decides c store calls sessions own sign a) before))
    where
      after : SessionRecall
      after = after_calls lower ((c, store) ∷ calls) sessions
