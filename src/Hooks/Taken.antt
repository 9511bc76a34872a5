-- ===== src/Hooks/Taken.antt =====
-- conversation_memory_hooks.py, `retrieve_context`: what one call adds to the topics of its session.
use ai_child.Prelude.{
  ℕ, ◌+◌, ◌≤◌, ◌≡◌, true, false, ◌||◌, List, [], ◌∷◌, ◌++◌, Option, none, some, map, leb,
  if◌then◌else◌, arith, refl, if_of, append-nil, ◌∙◌, Bool-cases, inl, inr, ap, sym,
}
use ai_child.Prelude.Sorting.{IfSome}
use ai_child.PyText.{PyText, codes, text_is, text_is_refl, text_is→eq, opt_eq}
use ai_child.Memory.{MemoryType, MemoryItem, type_value}
use ai_child.Memory.Service.{Store, retrieve}
use ai_child.Hooks.Session.{
  SessionRecallState, recall_count, set_recall_count, topic_recall_count, record_recall,
  is_topic_blocked, block_topic, block_topics, block_recalled, suppress_for, is_suppressed,
}
use ai_child.Hooks.Counts.{
  IsDistinct, Adds, no_topics_added, all_topics_added, recall_count-set_recall_count,
}
use ai_child.Hooks.Recall.{
  Recall, extract_recall_topic, type_topic, is_passed_over, admit, admitted, with_memory,
  recall_from, recall_in_scene, recall_in_session, is_safety_scene,
}

type_value-given :
    (kind : MemoryType) (rest : PyText) → text_is (codes (type_value kind) ++ rest) [] ≡ false
unfolding text_is type_value
type_value-given MemoryType.interest rest = refl
type_value-given MemoryType.learning_pattern rest = refl
type_value-given MemoryType.expression_pattern rest = refl
type_value-given MemoryType.emotion_observation rest = refl
type_value-given MemoryType.event rest = refl
type_value-given MemoryType.safety rest = refl
type_value-given MemoryType.parent_rule rest = refl
type_value-given MemoryType.strategy rest = refl

type_topic-given :
    (kind : MemoryType) (tags : List PyText) → text_is (type_topic kind tags) [] ≡ false
unfolding type_topic
type_topic-given kind [] =
    ap (λ t. text_is t []) (sym (append-nil (codes (type_value kind)))) ∙ type_value-given kind []
type_topic-given kind (tag ∷ tags) = type_value-given kind (codes ":" ++ tag)

-- every memory has a topic
topic_is_given : (m : MemoryItem) → text_is (extract_recall_topic m) [] ≡ false
unfolding extract_recall_topic
topic_is_given m = ground (arith, type_topic-given m.memory_type m.tags)

module _ (clock : ℕ) (topic : PyText) (s : SessionRecallState) where
  record_recall-Adds :
      topic_recall_count s topic ≡ 0 → Adds s (record_recall clock topic s) (topic ∷ [])
  unfolding record_recall topic_recall_count IsDistinct
  record_recall-Adds h = record {
    distinct = (tt, tt);
    fresh = (h, tt);
    counted = (ground (arith, after topic, text_is_refl topic), tt);
    stays = λ t. ground (arith, after t, stays t);
  }
    where
      after :
          (t : PyText)
          → recall_count t
              (set_recall_count topic (recall_count topic s.recalled_topics + 1) s.recalled_topics)
            ≡ (if text_is topic t
                then recall_count topic s.recalled_topics + 1
                else recall_count t s.recalled_topics)
      after t =
          recall_count-set_recall_count topic t (recall_count topic s.recalled_topics + 1)
            s.recalled_topics

      stays :
          (t : PyText)
          → recall_count t s.recalled_topics ≤ (
              if text_is topic t
              then recall_count topic s.recalled_topics + 1
              else recall_count t s.recalled_topics)
      stays t = elim (Bool-cases (text_is topic t)) [
        | inl e ↦
            let f = ap (λ u. recall_count u s.recalled_topics) (text_is→eq topic t e) in
            ground (arith, e, f)
        | inr e ↦ ground (arith, e)
      ]

  admit-Adds :
      text_is topic [] ≡ false
      → IfSome (λ after. Adds s after (topic ∷ [])) (admit true clock topic s)
  unfolding admit
  admit-Adds given = rw given (
      if_of (IfSome (λ after. Adds s after (topic ∷ [])))
        (is_topic_blocked s topic || leb 1 (topic_recall_count s topic)) (λ _. tt)
        (λ h. record_recall-Adds (ground arith)))

-- the topics of memories
abbrev pub topics : List MemoryItem → List PyText
topics = map extract_recall_topic

module _ (c : Recall) where
  admitted-Adds :
      (m : MemoryItem) (s : SessionRecallState)
      → IfSome (λ after. Adds s after (extract_recall_topic m ∷ [])) (admitted true c m s)
  unfolding admitted
  admitted-Adds m s =
      if_of (IfSome (λ after. Adds s after (extract_recall_topic m ∷ []))) (is_passed_over c m)
        (λ _. tt) (λ _. admit-Adds c.clock (extract_recall_topic m) s (topic_is_given m))

  abbrev AddsTopics : SessionRecallState → List MemoryItem × SessionRecallState → Type 0
  AddsTopics s taken = Adds s taken.1 (topics taken.0)

  recall_from-Adds :
      (ms : List MemoryItem) (n : ℕ) (s : SessionRecallState)
      → AddsTopics s (recall_from true c ms n s)
  unfolding recall_from
  recall_from-Adds [] n s = no_topics_added s s refl
  recall_from-Adds (m ∷ ms) n s =
      step (admitted true c m s) (admitted-Adds m s) (recall_from-Adds ms n s)
        (λ next. recall_from-Adds ms (n + 1) next)
    where
      step :
          (o : Option SessionRecallState)
          → IfSome (λ after. Adds s after (extract_recall_topic m ∷ [])) o
          → AddsTopics s (recall_from true c ms n s)
          → ((next : SessionRecallState) → AddsTopics next (recall_from true c ms (n + 1) next))
          → AddsTopics s (elim o as (λ _. List MemoryItem × SessionRecallState) [
            | none ↦ recall_from true c ms n s
            | some next ↦
                let rest = recall_from true c ms (n + 1) next in
                if leb c.limit (n + 1) then (m ∷ [], next) else with_memory m rest
          ])
      step none a without with = without
      step (some next) a without with =
          if_of (AddsTopics s) (leb c.limit (n + 1)) (λ _. a)
            (λ _. all_topics_added s next _ (extract_recall_topic m ∷ []) _ a (with next))

  block_topics-recalled :
      (counts : List (PyText × ℕ)) (s : SessionRecallState)
      → (block_topics counts s).recalled_topics ≡ s.recalled_topics
  unfolding block_topics block_topic
  block_topics-recalled [] s = refl
  block_topics-recalled ((t, n) ∷ counts) s =
      block_topics-recalled counts _
      ∙ if_of (λ (r : SessionRecallState). r.recalled_topics ≡ s.recalled_topics)
          (is_topic_blocked s t) (λ _. refl) (λ _. refl)

  module _ (lower : PyText → PyText) (store : Store) where
    recall_in_scene-Adds :
        (s : SessionRecallState) → AddsTopics s (recall_in_scene lower c store true s)
    unfolding recall_in_scene
    recall_in_scene-Adds s =
        if_of (AddsTopics s) (is_safety_scene c.active_scene) (λ _. no_topics_added s s refl)
          (λ _.
            recall_from-Adds
              (retrieve lower c.now c.child_id c.current_text none (c.limit + 3) false store) 0 s)

    pub recall_in_session-Adds :
        (s : SessionRecallState) → AddsTopics s (recall_in_session lower c store s)
    unfolding recall_in_session suppress_for block_recalled
    recall_in_session-Adds s =
        if_of (AddsTopics s) (opt_eq c.child_engagement "refused")
          (λ _. no_topics_added s _ (block_topics-recalled s.recalled_topics s))
          (λ _.
            if_of (AddsTopics s) (opt_eq c.child_engagement "boundary")
              (λ _. no_topics_added s _ (block_topics-recalled s.recalled_topics s))
              (λ _.
                if_of (AddsTopics s) (opt_eq c.child_engagement "short_or_flat")
                  (λ _. no_topics_added s _ refl)
                  (λ _.
                    if_of (AddsTopics s) (is_suppressed c.clock s) (λ _. no_topics_added s s refl)
                      (λ _. recall_in_scene-Adds s))))
