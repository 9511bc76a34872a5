-- ===== src/Hooks/States.antt =====
-- conversation_memory_hooks.py, `retrieve_context`: the state of a session over calls of any sessions.
use ai_child.Prelude.{
  ◌≡◌, true, false, List, [], ◌∷◌, Option, none, some, String, str_eq, eq_iff, eq_refl, lookup_or,
  insert, lookup_or-insert, arith, refl, Bool-cases, inl, inr, ap, ◌∙◌,
}
use ai_child.PyText.{PyText, opt_eq}
use ai_child.Memory.{MemoryItem}
use ai_child.Memory.Service.{Store}
use ai_child.Hooks.Session.{SessionRecall, new_state, get_session_state}
use ai_child.Hooks.Recall.{Recall, recall_in_session, session_of, recall_for, recall}

-- The calls one after the other, each over the memories of its time.
abbrev pub Calls : Type 0
Calls = List (Recall × Store)

module _ (lower : PyText → PyText) where
  abbrev pub after_calls : Calls → SessionRecall → SessionRecall
  after_calls [] sessions = sessions
  after_calls ((c, store) ∷ calls) sessions = after_calls calls (recall lower c store sessions).1

module _ (lower : PyText → PyText) (id : String) (real : str_eq id "" ≡ false) (c : Recall)
    (store : Store) (sessions : SessionRecall) where
  -- what a call takes in its session, and what it leaves there
  pub recall-own :
      opt_eq c.session_id id ≡ true
      → let after = recall_in_session lower c store (get_session_state id sessions) in
        recall lower c store sessions ≡ (after.0, insert id after.1 sessions)
  unfolding recall session_of recall_for opt_eq
  recall-own = by_session c.session_id
    where
      by_session :
          (o : Option String)
          → opt_eq o id ≡ true
          → let after = recall_in_session lower c store (get_session_state id sessions) in
            recall_for lower c store (session_of o) sessions ≡ (after.0, insert id after.1 sessions)
      by_session none h = ground arith
      by_session (some j) h = rw ((eq_iff j id).0 h) (rw real refl)

  pub get_session_state-own :
      opt_eq c.session_id id ≡ true
      → get_session_state id (recall lower c store sessions).1
        ≡ (recall_in_session lower c store (get_session_state id sessions)).1
  unfolding get_session_state
  get_session_state-own h =
      let after = (recall_in_session lower c store (get_session_state id sessions)).1 in
      ap (λ (r : List MemoryItem × SessionRecall). lookup_or new_state id r.1) (recall-own h)
      ∙ ground (arith, lookup_or-insert new_state id id after sessions, eq_refl id)

  pub get_session_state-other :
      opt_eq c.session_id id ≡ false
      → get_session_state id (recall lower c store sessions).1 ≡ get_session_state id sessions
  unfolding recall session_of recall_for opt_eq get_session_state
  get_session_state-other = by_session c.session_id
    where
      by_session :
          (o : Option String)
          → opt_eq o id ≡ false
          → lookup_or new_state id (recall_for lower c store (session_of o) sessions).1
            ≡ lookup_or new_state id sessions
      by_session none h = refl
      by_session (some j) h = elim (Bool-cases (str_eq j "")) [
        | inl e ↦ rw e refl
        | inr e ↦
            let after = (recall_in_session lower c store (get_session_state j sessions)).1 in
            rw e (ground (arith, lookup_or-insert new_state j id after sessions, h))
      ]
