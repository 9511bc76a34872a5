-- ===== src/Turn/OneLive.antt =====
-- conversation_service.py: the live companions of children over sequences of messages.
use ai_child.Prelude.{
  ℕ, ◌≡◌, String, true, List, [], ◌∷◌, Option, none, some, inl, inr, if_of, Option-cases, subst,
  leb, length, ◌&&◌, ◌||◌,
}
use ai_child.PyText.{PyText, opt_eq, strip, contains, contains_any}
use ai_child.Scene.{SceneId}
use ai_child.Companion.{
  CompanionObject, CompanionObjectCreateRequest, resolve_object_type_from_image,
}
use ai_child.Companion.Store.{get_active_by_child}
use ai_child.Companion.Rules.{CompanionService, Result, ok, err}
use ai_child.Companion.Pending.{
  begin_seed_naming, get_pending_seed_naming, clear_pending_seed_naming, begin_extension,
  get_pending_extension, clear_pending_extension,
}
use ai_child.Companion.Service.{is_live, create, mark_skipped}
use ai_child.Companion.Values.{Keeps}
use ai_child.Companion.Live.{active-found}
use ai_child.Companion.Single.{
  OneLive, StateSingle, create-OneLive, append-OneLive, skipped-OneLive, begun-OneLive,
}
use ai_child.Turn.Naming.{skip_signals, companion_name}
use ai_child.Turn.Seeds.{
  CompanionMessage, CompanionAction, Checked, seed_image, seed_source, seed_request,
  is_valid_request, created_or_none, try_create, begun, name_seed, name_pending_seed,
  check_pending_companion_seed_creation,
}
use ai_child.Turn.Companions.{
  appended, friend_summary, name_friend, check_pending_companion_extension, is_closed_scene,
  skipped_with, answer_companion, check_companion_action, first_action, then_extension,
  companion_action,
}

-- The state behind a check has one live companion of each child at most.
abbrev StaysSingle : Checked → Type 0
StaysSingle r = OneLive r.0

created-StaysSingle :
    (session : String) (s : CompanionService) (m : Result (CompanionService × CompanionObject))
    → OneLive s
    → Keeps StateSingle m
    → StaysSingle (created_or_none session s m)
unfolding created_or_none clear_pending_seed_naming
created-StaysSingle session s (err e) one h = one
created-StaysSingle session s (ok (t, c)) one h = h

begun-StaysSingle :
    (s : CompanionService) (m : Result CompanionService)
    → OneLive s
    → Keeps OneLive m
    → StaysSingle (begun s m)
unfolding begun
begun-StaysSingle s (err e) one h = one
begun-StaysSingle s (ok t) one h = h

appended-StaysSingle :
    (session : String) (name : PyText) (s : CompanionService)
    (m : Result (CompanionService × Option CompanionObject))
    → OneLive s
    → Keeps StateSingle m
    → StaysSingle (appended session name s m)
unfolding appended clear_pending_extension
appended-StaysSingle session name s (err e) one h = one
appended-StaysSingle session name s (ok (t, none)) one h = h
appended-StaysSingle session name s (ok (t, some c)) one h = h

skipped-StaysSingle :
    (c : CompanionObject) (s : CompanionService) (m : Result (CompanionService × CompanionObject))
    → OneLive s
    → Keeps StateSingle m
    → StaysSingle (skipped_with c s m)
unfolding skipped_with
skipped-StaysSingle c s (err e) one h = one
skipped-StaysSingle c s (ok (t, d)) one h = h

same_found : {o : Option CompanionObject} {c d : CompanionObject} → o ≡ some c → o ≡ some d → c ≡ d
same_found h k = cc

-- To go on with what may be found.
by_found :
    {A : Type 0} (o : Option A) (n : Checked) (k : A → Checked)
    → StaysSingle n
    → ((a : A) → o ≡ some a → StaysSingle (k a))
    → StaysSingle (elim o [ none ↦ n | some a ↦ k a ])
by_found o n k hn hk = elim (Option-cases o) [ inl e ↦ rw e hn | inr (a, e) ↦ rw e (hk a e) ]

module _ (now : ℕ) (id : String) (m : CompanionMessage) (s : CompanionService)
    (one : OneLive s) where
  try_create-StaysSingle :
      (r : CompanionObjectCreateRequest) → StaysSingle (try_create now id m.session_id r s)
  unfolding try_create
  try_create-StaysSingle r =
      if_of StaysSingle (is_valid_request r)
        (λ _.
          created-StaysSingle m.session_id s (create now id r s) one
            (create-OneLive now id s one r))
        (λ _. one)

  name_seed-StaysSingle : StaysSingle (name_seed now id m s)
  unfolding name_seed
  name_seed-StaysSingle =
      let naming : Result CompanionService =
        begin_seed_naming now m.session_id m.child_id
          (resolve_object_type_from_image (seed_image m)) "窗边" (seed_source m) (seed_image m) s in
      by_found (get_pending_extension m.session_id m.child_id s) _ (λ _. (s, ok none))
        (by_found (companion_name m.text) (begun s naming) _
          (begun-StaysSingle s naming one (
            begun-OneLive now m.session_id m.child_id
              (resolve_object_type_from_image (seed_image m)) "窗边" (seed_source m) (seed_image m) s
              one))
          λ name e.
            try_create-StaysSingle
              (seed_request m.child_id name (seed_image m) (seed_source m) "窗边"))
        (λ p e. one)

  seed-StaysSingle : StaysSingle (check_pending_companion_seed_creation now id m s)
  unfolding check_pending_companion_seed_creation name_pending_seed clear_pending_seed_naming
  seed-StaysSingle =
      if_of StaysSingle
        (opt_eq m.quick_action_id "companion_name" || opt_eq m.quick_action_id "give_name")
        (λ _. name_seed-StaysSingle)
        (λ _.
          if_of StaysSingle (opt_eq m.quick_action_id "companion_skip") (λ _. one)
            (λ _. by_found (get_pending_seed_naming m.session_id m.child_id s) _ _ one λ p e.
              by_found (companion_name m.text) _ _ one λ name e. try_create-StaysSingle (
                seed_request m.child_id name p.recognized_image_type p.source_type
                  p.light_location)))

  friend-StaysSingle : (companion_id : String) → StaysSingle (name_friend now m companion_id s)
  unfolding name_friend
  friend-StaysSingle companion_id = by_found (companion_name m.text) _ _ one λ name e.
      appended-StaysSingle m.session_id name s _ one
        (append-OneLive now companion_id s one (friend_summary name))

  extension-StaysSingle : StaysSingle (check_pending_companion_extension now m s)
  unfolding check_pending_companion_extension clear_pending_extension
  extension-StaysSingle =
      if_of StaysSingle (opt_eq m.quick_action_id "companion_skip") (λ _. one)
        λ _.
          if_of StaysSingle (opt_eq m.quick_action_id "companion_friend_image") (λ _. one)
            λ _. by_found (get_pending_extension m.session_id m.child_id s) _ _ one λ p e.
              if_of StaysSingle (opt_eq m.quick_action_id "companion_friend_name")
                (λ _. friend-StaysSingle p.companion_id)
                (λ _.
                  if_of StaysSingle (contains_any (strip m.text) skip_signals) (λ _. one)
                    (λ _. friend-StaysSingle p.companion_id))

  -- The companion that a message skips is the active one that was found.
  skip-StaysSingle :
      (c : CompanionObject)
      → get_active_by_child m.child_id s.items ≡ some c
      → StaysSingle (skipped_with c s (mark_skipped now c.id (some m.session_id) s))
  skip-StaysSingle c e =
      let found = active-found m.child_id s.items c one.keyed e in
      skipped-StaysSingle c s _ one (
        skipped-OneLive now c.id s one (some m.session_id)
          λ d h. subst (λ x. is_live x ≡ true) (same_found found.0 h) (found.1))

  answer-StaysSingle :
      (c : CompanionObject)
      → get_active_by_child m.child_id s.items ≡ some c
      → StaysSingle (answer_companion now m c s)
  unfolding answer_companion begin_extension
  answer-StaysSingle c e =
      if_of StaysSingle (opt_eq m.quick_action_id "companion_skip") (λ _. skip-StaysSingle c e)
        λ _.
          if_of StaysSingle (opt_eq m.quick_action_id "companion_continue") (λ _. one)
            λ _.
              if_of StaysSingle (contains_any (strip m.text) skip_signals)
                (λ _. skip-StaysSingle c e)
                λ _.
                  if_of StaysSingle (leb 1 (length c.name) && contains c.name (strip m.text))
                    (λ _. one) (λ _. one)

  check-StaysSingle : (scene : SceneId) → StaysSingle (check_companion_action now scene m s)
  unfolding check_companion_action
  check-StaysSingle scene =
      if_of StaysSingle (is_closed_scene scene) (λ _. one)
        λ _. by_found (get_active_by_child m.child_id s.items) _ _ one λ c e.
          by_found (get_pending_extension m.session_id m.child_id s) _ _ (answer-StaysSingle c e)
            (λ p h. one)

module _ (now : ℕ) (id : String) (scene : SceneId) (m : CompanionMessage) where
  first-StaysSingle :
      (created : Option CompanionAction) (r : Checked)
      → StaysSingle r
      → StaysSingle (first_action now scene m created r)
  unfolding first_action
  first-StaysSingle created (s, err e) h = h
  first-StaysSingle (some a) (s, ok extension) h = h
  first-StaysSingle none (s, ok (some a)) h = h
  first-StaysSingle none (s, ok none) h = check-StaysSingle now id m s h scene

  then-StaysSingle : (r : Checked) → StaysSingle r → StaysSingle (then_extension now scene m r)
  unfolding then_extension
  then-StaysSingle (s, err e) h = h
  then-StaysSingle (s, ok created) h =
      first-StaysSingle created _ (extension-StaysSingle now id m s h)

  action-StaysSingle :
      (s : CompanionService) → OneLive s → StaysSingle (companion_action now id scene m s)
  unfolding companion_action
  action-StaysSingle s one = then-StaysSingle _ (seed-StaysSingle now id m s one)

-- a message with its time, a fresh identifier and its scene
pub record CompanionTurn : Type 0 where
  pub now : ℕ
  pub id : String
  pub scene : SceneId
  pub message : CompanionMessage

-- The state behind a list of messages, whatever they return or raise.
unfoldable pub after_turns : List CompanionTurn → CompanionService → CompanionService
after_turns [] s = s
after_turns (t ∷ turns) s = after_turns turns (companion_action t.now t.id t.scene t.message s).0

-- Any list of messages, of any children, in any scenes and with any quick actions, leaves each child with
-- one live companion at most, if each had one at most before: also where a message raises an error. A live
-- companion is active or paused, and before and after each companion stands under its own identifier.
pub turns-OneLive :
    (turns : List CompanionTurn) (s : CompanionService) → OneLive s → OneLive (after_turns turns s)
unfolding after_turns
turns-OneLive [] s one = one
turns-OneLive (t ∷ turns) s one =
    turns-OneLive turns _ (action-StaysSingle t.now t.id t.scene t.message s one)
