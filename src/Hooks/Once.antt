-- ===== src/Hooks/Once.antt =====
-- conversation_memory_hooks.py, `retrieve_context`: how often a topic is recalled in a session.
use ai_child.Prelude.{
  ◌≡◌, false, List, [], ◌∷◌, ◌++◌, String, str_eq, if◌then◌else◌, refl, map-append, Bool-cases, inl,
  inr, ap, sym, subst,
}
use ai_child.PyText.{PyText, opt_eq}
use ai_child.Memory.{MemoryItem}
use ai_child.Memory.Service.{Store}
use ai_child.Hooks.Session.{SessionRecallState, SessionRecall, get_session_state}
use ai_child.Hooks.Counts.{IsDistinct, Adds, no_topics_added, all_topics_added}
use ai_child.Hooks.States.{
  Calls, after_calls, recall-own, get_session_state-own, get_session_state-other,
}
use ai_child.Hooks.Taken.{topics, recall_in_session-Adds}
use ai_child.Hooks.Recall.{Recall, extract_recall_topic, recall}

module _ (lower : PyText → PyText) (id : String) where
  -- the memories that the calls of a session take
  abbrev pub recalled_in : Calls → SessionRecall → List MemoryItem
  recalled_in [] sessions = []
  recalled_in ((c, store) ∷ calls) sessions =
      let taken = recall lower c store sessions in
      (if opt_eq c.session_id id then taken.0 else []) ++ recalled_in calls taken.1

  AddsIn : SessionRecall → List MemoryItem → SessionRecall → Type 0
  AddsIn before ms after =
      Adds (get_session_state id before) (get_session_state id after) (topics ms)

  recall-AddsIn :
      str_eq id "" ≡ false
      → (c : Recall) (store : Store) (sessions : SessionRecall)
      → let taken = recall lower c store sessions in
        AddsIn sessions (if opt_eq c.session_id id then taken.0 else []) taken.1
  unfolding AddsIn
  recall-AddsIn real c store sessions = elim (Bool-cases (opt_eq c.session_id id)) [
    | inl e ↦ rw e (
        rw (get_session_state-own lower id real c store sessions e) (
          rw (recall-own lower id real c store sessions e)
            (recall_in_session-Adds c lower store (get_session_state id sessions))))
    | inr e ↦ rw e (
        no_topics_added _ _ (
          ap (λ (s : SessionRecallState). s.recalled_topics)
            (get_session_state-other lower id real c store sessions e)))
  ]

  calls-AddsIn :
      str_eq id "" ≡ false
      → (calls : Calls) (sessions : SessionRecall)
      → AddsIn sessions (recalled_in calls sessions) (after_calls lower calls sessions)
  unfolding AddsIn
  calls-AddsIn real [] sessions = no_topics_added _ _ refl
  calls-AddsIn real ((c, store) ∷ calls) sessions =
      let taken = recall lower c store sessions in
      subst
        (Adds (get_session_state id sessions)
          (get_session_state id (after_calls lower calls taken.1)))
        (sym (map-append extract_recall_topic _ (recalled_in calls taken.1)))
        (all_topics_added _ _ _ _ _ (recall-AddsIn real c store sessions)
          (calls-AddsIn real calls taken.1))

  -- The topics of all memories that the calls of a session take are distinct, whatever the calls signal,
  -- however the memories change between them, and whatever other sessions do: none is recalled twice.
  pub recalled_once :
      (calls : Calls) (sessions : SessionRecall)
      → str_eq id "" ≡ false
      → IsDistinct (topics (recalled_in calls sessions))
  unfolding AddsIn
  recalled_once calls sessions real = (calls-AddsIn real calls sessions).distinct
