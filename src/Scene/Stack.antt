-- ===== src/Scene/Stack.antt =====
-- scene_orchestrator.py, the ladder of `route`: the stack that a decision leaves for its session.
use ai_child.Prelude.{
  if_of, ◌&&◌, ◌≤◌, ◌≡◌, ◌⊎◌, inl, inr, true, List, [], ◌∷◌, ◌++◌, length, length-append, arith,
  refl,
}
use ai_child.PyText.{PyText, opt_eq}
use ai_child.Scene.{SceneId, SceneRouteRequest, SceneRouteDecision, scene_eq}
use ai_child.Scene.Decisions.{
  has_text, base_scene_from_stack, last_or, ends_in, over_base, decision_of, safety_guardian,
  safety_gentle_checkin, privacy_boundary,
}
use ai_child.Scene.Everyday.{
  is_confident, stack_or_base, learning_stack, learning_homework_help, bedtime_reflection,
  after_school_checkin, emotion_open, open_conversation, popped, pop_to_previous_scene,
  checkin_decision, stack_or_scene,
}
use ai_child.Scene.Router.{decide, decide_cases}

-- The stack of a decision runs from its base scene to its active scene.
abbrev pub IsFramed : SceneRouteDecision → Type 0
IsFramed d =
    (1 ≤ length d.scene_stack)
    × (base_scene_from_stack d.scene_stack ≡ d.base_scene)
    × (last_or SceneId.open_conversation d.scene_stack ≡ d.active_scene)

-- At most two scenes, or three with the learning scene on top.
abbrev pub IsShallow : List SceneId → Type 0
IsShallow stack =
    (length stack ≤ 2)
    ⊎ ((length stack ≤ 3) × (ends_in SceneId.learning_homework_help stack ≡ true))

abbrev pub LeavesShallow : SceneRouteDecision → Type 0
LeavesShallow d = IsShallow d.scene_stack

last_or-append : (d e : SceneId) (xs : List SceneId) → last_or d (xs ++ e ∷ []) ≡ e
unfolding last_or
last_or-append d e [] = refl
last_or-append d e (x ∷ xs) = last_or-append x e xs

scene_eq→eq : (a b : SceneId) → scene_eq a b ≡ true → a ≡ b
unfolding scene_eq
scene_eq→eq a b h = ground arith

over_base-framed :
    (b s : SceneId)
    → (1 ≤ length (over_base b s))
      × (base_scene_from_stack (over_base b s) ≡ b)
      × (last_or SceneId.open_conversation (over_base b s) ≡ s)
unfolding over_base base_scene_from_stack last_or
over_base-framed b s = ground (arith, scene_eq→eq b s)

over_base-le : (b s : SceneId) → length (over_base b s) ≤ 2
unfolding over_base
over_base-le b s = ground arith

ends_in-last :
    (s : SceneId) (stack : List SceneId)
    → ends_in s stack ≡ true
    → last_or SceneId.open_conversation stack ≡ s
unfolding ends_in last_or
ends_in-last s [] h = cc
ends_in-last s (x ∷ stack) h = scene_eq→eq (last_or x stack) s h

scene_eq_refl : (s : SceneId) → scene_eq s s ≡ true
unfolding scene_eq
scene_eq_refl s = ground arith

ends_in-append : (s : SceneId) (stack : List SceneId) → ends_in s (stack ++ s ∷ []) ≡ true
unfolding ends_in
ends_in-append s [] = unfold last_or in scene_eq_refl s
ends_in-append s (x ∷ stack) = rw (last_or-append x s stack) (scene_eq_refl s)

-- the stack of the learning scene ends in it
ends_in-learning_stack :
    (stack : List SceneId) → ends_in SceneId.learning_homework_help (learning_stack stack) ≡ true
unfolding learning_stack
ends_in-learning_stack stack =
    if_of (λ st. ends_in SceneId.learning_homework_help st ≡ true)
      (ends_in SceneId.learning_homework_help (stack_or_base stack)) (λ e. e)
      (λ _. ends_in-append SceneId.learning_homework_help (stack_or_base stack))

one-le_of_ends_in : (s : SceneId) (stack : List SceneId) → ends_in s stack ≡ true → 1 ≤ length stack
unfolding ends_in
one-le_of_ends_in s [] h = cc
one-le_of_ends_in s (x ∷ stack) h = omega arith

learning_stack-IsShallow :
    (stack : List SceneId) → IsShallow stack → IsShallow (learning_stack stack)
unfolding learning_stack stack_or_base
learning_stack-IsShallow [] h = inl (omega arith)
learning_stack-IsShallow (s ∷ stack) h =
    if_of IsShallow (ends_in SceneId.learning_homework_help (s ∷ stack)) (λ _. h)
      λ e. inr (
        elim h [
          | inl le ↦ omega (arith, length-append stack (SceneId.learning_homework_help ∷ []))
          | inr deep ↦ cc (deep.1)
        ],
        ends_in-append SceneId.learning_homework_help (s ∷ stack),
      )

popped-framed : (stack : List SceneId) → 1 ≤ length (popped stack)
unfolding popped
popped-framed [] = omega arith
popped-framed (s ∷ []) = omega arith
popped-framed (s ∷ t ∷ []) = omega arith
popped-framed (s ∷ t ∷ u ∷ rest) = omega arith

popped-le :
    (stack : List SceneId)
    → IsShallow stack
    → ends_in SceneId.learning_homework_help stack ≡ true
    → length (popped stack) ≤ 2
unfolding popped ends_in
popped-le [] h e = cc
popped-le (s ∷ []) h e = omega arith
popped-le (s ∷ t ∷ []) h e = omega arith
popped-le (s ∷ t ∷ u ∷ []) h e = omega arith
popped-le (s ∷ t ∷ u ∷ v ∷ rest) h e = absurd (omega arith)

stack_or_scene_lem :
    (s : SceneId) (stack : List SceneId) → 1 ≤ length stack → stack_or_scene s stack ≡ stack
unfolding stack_or_scene
stack_or_scene_lem s [] h = absurd (omega arith)
stack_or_scene_lem s (x ∷ stack) h = refl

module _ (r : SceneRouteRequest) (stack : List SceneId) where
  learning-IsFramed : IsFramed (learning_homework_help r stack)
  unfolding learning_homework_help decision_of
  learning-IsFramed =
      if_of IsFramed (opt_eq r.sub_intent "direct_answer_request") (λ _. framed)
        λ _.
          if_of IsFramed
            (has_text r.homework_problem_text && is_confident r.homework_problem_confidence)
            (λ _. framed) (λ _. framed)
    where
      ending : ends_in SceneId.learning_homework_help (learning_stack stack) ≡ true
      ending = ends_in-learning_stack stack

      framed :
          (1 ≤ length (learning_stack stack))
          × (base_scene_from_stack (learning_stack stack)
              ≡ base_scene_from_stack (learning_stack stack))
          × (last_or SceneId.open_conversation (learning_stack stack)
              ≡ SceneId.learning_homework_help)
      framed = (one-le_of_ends_in _ _ ending, refl, ends_in-last _ _ ending)

  pop-IsFramed : IsFramed (pop_to_previous_scene r stack)
  unfolding pop_to_previous_scene checkin_decision decision_of
  pop-IsFramed =
      if_of IsFramed
        (scene_eq (last_or SceneId.open_conversation (popped stack)) SceneId.open_conversation)
        (λ _. unfold base_scene_from_stack last_or in (omega arith, refl, refl))
        λ _.
          rw
            (stack_or_scene_lem (last_or SceneId.open_conversation (popped stack)) (popped stack)
              (popped-framed stack))
            (popped-framed stack, refl, refl)

  -- The stack of every decision is not empty, starts at its base scene and ends at its active scene.
  pub decide-IsFramed : (lower : PyText → PyText) → IsFramed (decide lower r stack)
  unfolding safety_guardian privacy_boundary safety_gentle_checkin bedtime_reflection
      after_school_checkin emotion_open open_conversation last_or
  decide-IsFramed lower =
      decide_cases IsFramed r stack lower (λ _. (omega arith, refl, refl))
        (over_base-framed (base_scene_from_stack stack) SceneId.privacy_boundary)
        (over_base-framed (base_scene_from_stack stack) SceneId.safety_gentle_checkin)
        (λ _. pop-IsFramed) learning-IsFramed (omega arith, refl, refl) (omega arith, refl, refl)
        (omega arith, refl, refl) (omega arith, refl, refl)

  learning-IsShallow : IsShallow stack → LeavesShallow (learning_homework_help r stack)
  unfolding learning_homework_help decision_of
  learning-IsShallow h =
      if_of LeavesShallow (opt_eq r.sub_intent "direct_answer_request") (λ _. shallow)
        λ _.
          if_of LeavesShallow
            (has_text r.homework_problem_text && is_confident r.homework_problem_confidence)
            (λ _. shallow) (λ _. shallow)
    where
      shallow : IsShallow (learning_stack stack)
      shallow = learning_stack-IsShallow stack h

  pop-IsShallow :
      IsShallow stack
      → ends_in SceneId.learning_homework_help stack ≡ true
      → LeavesShallow (pop_to_previous_scene r stack)
  unfolding pop_to_previous_scene checkin_decision decision_of
  pop-IsShallow h e =
      if_of LeavesShallow
        (scene_eq (last_or SceneId.open_conversation (popped stack)) SceneId.open_conversation)
        (λ _. inl (omega arith))
        λ _.
          rw
            (stack_or_scene_lem (last_or SceneId.open_conversation (popped stack)) (popped stack)
              (popped-framed stack))
            (inl (popped-le stack h e))

  -- A decision over a shallow stack leaves a shallow stack.
  pub decide-IsShallow :
      (lower : PyText → PyText) → IsShallow stack → LeavesShallow (decide lower r stack)
  unfolding safety_guardian privacy_boundary safety_gentle_checkin bedtime_reflection
      after_school_checkin emotion_open open_conversation
  decide-IsShallow lower h =
      decide_cases LeavesShallow r stack lower (λ _. inl (omega arith))
        (inl (over_base-le (base_scene_from_stack stack) SceneId.privacy_boundary))
        (inl (over_base-le (base_scene_from_stack stack) SceneId.safety_gentle_checkin))
        (pop-IsShallow h) (learning-IsShallow h) (inl (omega arith)) (inl (omega arith))
        (inl (omega arith)) (inl (omega arith))
