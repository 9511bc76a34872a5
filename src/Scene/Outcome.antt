-- ===== src/Scene/Outcome.antt =====
-- scene_orchestrator.py: the state after `route` and `reset_session`.
use mathlib.Core.List.{reverse, reverse-append}
use ai_child.Prelude.{
  ◌≡◌, String, List, [], ◌∷◌, ◌++◌, some, arith, inl, lookup_or-insert, lookup_or-remove, str_eq,
  if◌then◌else◌, ap, ◌∙◌, if_of,
}
use ai_child.PyText.{PyText}
use ai_child.Scene.{SceneId, SceneRouteRequest, SceneRouteDecision}
use ai_child.Scene.Router.{
  SceneOrchestrator, RoutingDecisionRecord, Drawn, decide, route, current_stack, stack_or,
  record_of, get_session_stack, reset_session, save_decision, latest_for_session, first_of_session,
}
use ai_child.Scene.Stack.{IsShallow, decide-IsShallow}
use ai_child.Scene.Guard.{decide-Carries}

first_of_session-cons :
    (session : String) (x : RoutingDecisionRecord) (records : List RoutingDecisionRecord)
    → first_of_session session (reverse (records ++ x ∷ []))
      ≡ (if str_eq x.session_id session then some x else first_of_session session (reverse records))
unfolding first_of_session
first_of_session-cons session x records = rw (reverse-append records (x ∷ []))

stack_or-IsShallow : (s t : List SceneId) → IsShallow s → IsShallow t → IsShallow (stack_or s t)
unfolding stack_or
stack_or-IsShallow [] t hs ht = ht
stack_or-IsShallow (x ∷ s) t hs ht = hs

-- Every session's stack is shallow.
abbrev pub AllShallow : SceneOrchestrator → Type 0
AllShallow o = (session : String) → IsShallow (get_session_stack session o)

module _ (lower : PyText → PyText) (drawn : Drawn) (r : SceneRouteRequest)
    (o : SceneOrchestrator) where
  abbrev pub decided : SceneRouteDecision
  decided = decide lower r (current_stack r o)

  -- After a call the session's stack is that of the decision, and every other session keeps its own.
  pub stack_after_route :
      (session : String)
      → get_session_stack session (route lower drawn r o).0
        ≡ (if str_eq r.session_id session then decided.scene_stack else get_session_stack session o)
  unfolding route get_session_stack
  stack_after_route session =
      lookup_or-insert [] r.session_id session decided.scene_stack o.session_stacks

  -- After a call the latest record of the session is that of the decision, and the latest record of
  -- every other session is the one it was.
  pub latest_after_route :
      (session : String)
      → latest_for_session session (route lower drawn r o).0.records ≡ (
          if str_eq r.session_id session
          then some (record_of drawn decided)
          else latest_for_session session o.records)
  unfolding route latest_for_session save_decision
  latest_after_route session =
      first_of_session-cons session (record_of drawn decided) o.records
      ∙ ap
          (λ (s : String).
            if str_eq s session
            then some (record_of drawn decided)
            else first_of_session session (reverse o.records))
          same_session
    where
      same_session : (record_of drawn decided).session_id ≡ r.session_id
      same_session = unfold record_of in (decide-Carries r (current_stack r o) lower).0

  shallow_after_route :
      IsShallow r.current_stack → AllShallow o → AllShallow (route lower drawn r o).0
  unfolding current_stack get_session_stack
  shallow_after_route hr ho session = rw stack_after_route (
      if_of IsShallow (str_eq r.session_id session)
        (λ _. decide-IsShallow r (current_stack r o) lower (
          stack_or-IsShallow r.current_stack (get_session_stack r.session_id o) hr
            (ho r.session_id)))
        (λ _. ho session))

-- A reset session has the empty stack, and every other session keeps its own.
pub stack_after_reset :
    (reset session : String) (o : SceneOrchestrator)
    → get_session_stack session (reset_session reset o)
      ≡ (if str_eq reset session then [] else get_session_stack session o)
unfolding reset_session get_session_stack
stack_after_reset reset session o = lookup_or-remove [] reset session o.session_stacks

-- The calls of the orchestrator, from a state to the next; a request's own stack must be shallow.
pub data Call (lower : PyText → PyText) : SceneOrchestrator → SceneOrchestrator → Type 0 where
  routes :
      (drawn : Drawn) (r : SceneRouteRequest) (o : SceneOrchestrator)
      → IsShallow r.current_stack
      → Call lower o (route lower drawn r o).0
  resets : (session : String) (o : SceneOrchestrator) → Call lower o (reset_session session o)

pub data Run (lower : PyText → PyText) (o : SceneOrchestrator) : SceneOrchestrator → Type 0 where
  here : Run lower o o
  next : {p q : SceneOrchestrator} → Run lower o p → Call lower p q → Run lower o q

AllShallow-Call :
    {lower : PyText → PyText} {o p : SceneOrchestrator}
    → Call lower o p
    → AllShallow o
    → AllShallow p
AllShallow-Call (routes drawn r o hr) ho = shallow_after_route _ drawn r o hr ho
AllShallow-Call (resets reset o) ho = λ session.
    rw stack_after_reset
      (if_of IsShallow (str_eq reset session) (λ _. inl (omega arith)) (λ _. ho session))

-- From a state in which every session's stack is shallow, any sequence of calls leads to such a state:
-- a stack never holds more than three scenes, and three only while a learning scene is on top.
pub Run-AllShallow :
    {lower : PyText → PyText} {o p : SceneOrchestrator}
    → Run lower o p
    → AllShallow o
    → AllShallow p
Run-AllShallow here ho = ho
Run-AllShallow (next run call) ho = AllShallow-Call call (Run-AllShallow run ho)
