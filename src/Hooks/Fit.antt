-- ===== src/Hooks/Fit.antt =====
-- conversation_memory_hooks.py, `retrieve_context`: which memories the model is given, and how many.
use ai_child.Prelude.{
  ℕ, ◌+◌, ◌≤◌, ◌≡◌, max, Bool, true, false, not, ◌&&◌, List, [], ◌∷◌, Option, none, some, String,
  All, any, ◌||◌, length, leb, if◌then◌else◌, arith, refl, ◌++◌, if_of,
}
use ai_child.Prelude.Sorting.{IfSome}
use ai_child.PyText.{PyText, codes, opt_eq, text_is, contains, contains_any, join}
use ai_child.Opening.Relations.{memory_relationship_topic}
use ai_child.Memory.{MemoryType, MemoryItem, is_safety, type_value}
use ai_child.Memory.Service.{Store, retrieve}
use ai_child.Memory.Retrieval.{is_asked, retrieve-IsAnswer}
use ai_child.Hooks.Session.{
  SessionRecallState, SessionRecall, new_state, is_suppressed, get_session_state,
}
use ai_child.Hooks.Recall.{
  Recall, type_topic, is_of_relationship, is_exciting_memory, is_off_topic, is_interest_or_event,
  bedtime_exciting_markers, extract_recall_topic, is_passed_over, admit, admitted, with_memory,
  recall_from, recall_in_scene, recall_in_session, session_of, recall_for, recall, is_safety_scene,
}

-- The value of a type is not empty.
type-text :
    (kind : MemoryType) (text : PyText)
    → (text_is (codes (type_value kind)) [] ≡ false)
      × (text_is (codes (type_value kind) ++ text) [] ≡ false)
unfolding type_value text_is
type-text MemoryType.interest text = (refl, refl)
type-text MemoryType.learning_pattern text = (refl, refl)
type-text MemoryType.expression_pattern text = (refl, refl)
type-text MemoryType.emotion_observation text = (refl, refl)
type-text MemoryType.event text = (refl, refl)
type-text MemoryType.safety text = (refl, refl)
type-text MemoryType.parent_rule text = (refl, refl)
type-text MemoryType.strategy text = (refl, refl)

-- What a memory is recalled by is not empty.
recall_topic-text : (m : MemoryItem) → text_is (extract_recall_topic m) [] ≡ false
unfolding extract_recall_topic type_topic type_value
recall_topic-text m =
    if_of (λ t. text_is t [] ≡ false)
      (is_of_relationship m && not (text_is (memory_relationship_topic m) [])) (λ h. ground arith)
      (λ h. by_tags m.tags)
  where
    by_tags : (tags : List PyText) → text_is (type_topic m.memory_type tags) [] ≡ false
    by_tags [] = (type-text m.memory_type []).0
    by_tags (tag ∷ tags) = (type-text m.memory_type (codes ":" ++ tag)).1

module _ (lower : PyText → PyText) (c : Recall) where
  abbrev asked : MemoryItem → Bool
  asked = is_asked lower c.now c.child_id c.current_text none false

  -- at bedtime, a memory with an exciting word in its content or tags
  abbrev pub is_too_exciting : MemoryItem → Bool
  is_too_exciting m =
      c.bedtime && contains_any (join (codes " ") (m.content ∷ m.tags)) bedtime_exciting_markers

  -- in the learning scene, an interest or an event of the relationship that has a topic or was shown
  abbrev pub is_off_work : MemoryItem → Bool
  is_off_work m =
      opt_eq c.active_scene "learning.homework_help"
      && is_interest_or_event m.memory_type
      && is_of_relationship m
      && (not (text_is (memory_relationship_topic m) [])
          || any (contains (codes "show_and_tell")) m.tags)

  -- A memory that the call asks for, that is none of a safety signal, and that neither the scene nor the time of
  -- day rules out.
  abbrev pub is_fit : MemoryItem → Bool
  is_fit m =
      asked m && not (is_safety m.memory_type) && not (is_too_exciting m) && not (is_off_work m)

  passed-fits : (m : MemoryItem) → asked m ≡ true → is_passed_over c m ≡ false → is_fit m ≡ true
  unfolding is_passed_over is_exciting_memory is_off_topic
  passed-fits m a e = ground (arith, recall_topic-text m)

  -- From n memories on, the memories that are taken are fit, and few enough.
  AreFit : ℕ → List MemoryItem → Type 0
  AreFit n ms = All (λ m. is_fit m ≡ true) ms × (length ms + n ≤ max (n + 1) c.limit)

  none_fits : (n : ℕ) → AreFit n []
  unfolding AreFit
  none_fits n = (tt, omega arith)

  admitted-passed :
      (tracked : Bool) (m : MemoryItem) (s : SessionRecallState)
      → IfSome (λ after. is_passed_over c m ≡ false) (admitted tracked c m s)
  unfolding admitted
  admitted-passed tracked m s =
      if_of (IfSome (λ after. is_passed_over c m ≡ false)) (is_passed_over c m) (λ _. tt)
        (λ e. trivial (admit tracked c.clock (extract_recall_topic m) s) e)
    where
      trivial :
          (o : Option SessionRecallState)
          → is_passed_over c m ≡ false
          → IfSome (λ after. is_passed_over c m ≡ false) o
      trivial none e = tt
      trivial (some after) e = e

  recall_from-AreFit :
      (tracked : Bool) (ms : List MemoryItem) (n : ℕ) (s : SessionRecallState)
      → All (λ m. asked m ≡ true) ms
      → AreFit n (recall_from tracked c ms n s).0
  unfolding recall_from
  recall_from-AreFit tracked [] n s a = none_fits n
  recall_from-AreFit tracked (m ∷ ms) n s a =
      step (admitted tracked c m s) (admitted-passed tracked m s)
        (recall_from-AreFit tracked ms n s a.1)
        (λ next. recall_from-AreFit tracked ms (n + 1) next a.1)
    where
      step :
          (o : Option SessionRecallState)
          → IfSome (λ after. is_passed_over c m ≡ false) o
          → AreFit n (recall_from tracked c ms n s).0
          → ((next : SessionRecallState) → AreFit (n + 1) (recall_from tracked c ms (n + 1) next).0)
          → AreFit n
              (elim o as (λ _. List MemoryItem × SessionRecallState) [
                | none ↦ recall_from tracked c ms n s
                | some next ↦
                    let rest = recall_from tracked c ms (n + 1) next in
                    if leb c.limit (n + 1) then (m ∷ [], next) else with_memory m rest
              ]).0
      step none e without with = without
      step (some next) e without with =
          unfold AreFit in
          if_of (λ (r : List MemoryItem × SessionRecallState). AreFit n r.0) (leb c.limit (n + 1))
            (λ h. ((passed-fits m a.0 e, tt), omega arith))
            (λ h. ((passed-fits m a.0 e, (with next).0), ground (arith, h, (with next).1)))

  module _ (store : Store) where
    recall_in_scene-AreFit :
        (tracked : Bool) (s : SessionRecallState)
        → AreFit 0 (recall_in_scene lower c store tracked s).0
    unfolding recall_in_scene
    recall_in_scene-AreFit tracked s =
        if_of (λ (r : List MemoryItem × SessionRecallState). AreFit 0 r.0)
          (is_safety_scene c.active_scene) (λ _. none_fits 0)
          (λ _.
            recall_from-AreFit tracked
              (retrieve lower c.now c.child_id c.current_text none (c.limit + 3) false store) 0 s
              (retrieve-IsAnswer lower c.now c.child_id c.current_text none false (c.limit + 3)
                store).asked)

    recall_in_session-AreFit :
        (s : SessionRecallState) → AreFit 0 (recall_in_session lower c store s).0
    unfolding recall_in_session
    recall_in_session-AreFit s =
        if_of P (opt_eq c.child_engagement "refused") (λ _. none_fits 0)
          (λ _.
            if_of P (opt_eq c.child_engagement "boundary") (λ _. none_fits 0)
              (λ _.
                if_of P (opt_eq c.child_engagement "short_or_flat") (λ _. none_fits 0)
                  (λ _.
                    if_of P (is_suppressed c.clock s) (λ _. none_fits 0)
                      (λ _. recall_in_scene-AreFit true s))))
      where
        P : List MemoryItem × SessionRecallState → Type 0
        P r = AreFit 0 r.0

    -- The memories that a call takes are the child's own, not expired, match its text, are none of a safety
    -- signal, and are ruled out neither by bedtime nor by the learning scene; they are as many as the limit
    -- at most, or one.
    pub recalled_is_fit :
        (sessions : SessionRecall)
        → All (λ m. is_fit m ≡ true) (recall lower c store sessions).0
          × (length (recall lower c store sessions).0 ≤ max 1 c.limit)
    unfolding recall recall_for AreFit
    recalled_is_fit sessions = by_session (session_of c.session_id)
      where
        by_session :
            (o : Option String)
            → All (λ m. is_fit m ≡ true) (recall_for lower c store o sessions).0
              × (length (recall_for lower c store o sessions).0 ≤ max 1 c.limit)
        by_session none =
            let fit = recall_in_scene-AreFit false new_state in (fit.0, omega (arith, fit.1))
        by_session (some id) =
            let fit = recall_in_session-AreFit (get_session_state id sessions) in
            (fit.0, omega (arith, fit.1))
