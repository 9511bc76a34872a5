-- ===== src/Turn/Companions.antt =====
-- conversation_service.py: what a message does to the companion of a child: its new name, a friend for
-- it, or a sign to go on or to skip.
use ai_child.Prelude.{
  ℕ, String, Bool, true, false, ◌&&◌, ◌++◌, Option, none, some, length, leb, if◌then◌else◌,
}
use ai_child.PyText.{PyText, codes, strip, contains, contains_any, opt_eq}
use ai_child.Scene.{SceneId}
use ai_child.Companion.{CompanionObject}
use ai_child.Companion.Store.{get_active_by_child}
use ai_child.Companion.Rules.{CompanionService, Result, ok, err}
use ai_child.Companion.Pending.{begin_extension, get_pending_extension, clear_pending_extension}
use ai_child.Companion.Service.{update_safe_summary_append, mark_skipped}
use ai_child.Turn.Naming.{skip_signals, companion_name}
use ai_child.Turn.Seeds.{
  CompanionMessage, CompanionAction, Checked, done_with, skip_alone,
  check_pending_companion_seed_creation,
}

-- what follows `svc.update_safe_summary_append`
unfoldable pub appended :
    String
    → PyText
    → CompanionService
    → Result (CompanionService × Option CompanionObject)
    → Checked
unfolding clear_pending_extension
appended session name s (err e) = (s, err e)
appended session name s (ok (t, none)) = (clear_pending_extension session t, ok none)
appended session name s (ok (t, some c)) = (
  clear_pending_extension session t,
  ok (some (record { action = "extension_done"; companion = some c; friend_name = some name })),
)

-- append_text
unfoldable pub friend_summary : PyText → PyText
friend_summary name = codes "孩子给小屋小客人加了一个小伙伴：" ++ name

-- the name of a friend for the companion that waits for one
unfoldable pub name_friend : ℕ → CompanionMessage → String → CompanionService → Checked
unfolding companion_name appended update_safe_summary_append friend_summary
name_friend now m companion_id s = elim (companion_name m.text) [
  | none ↦ (s, ok none)
  | some name ↦
      appended m.session_id name s
        (update_safe_summary_append now companion_id (friend_summary name) s)
]

-- _check_pending_companion_extension
unfoldable pub check_pending_companion_extension : ℕ → CompanionMessage → CompanionService → Checked
unfolding opt_eq clear_pending_extension get_pending_extension name_friend strip contains_any
check_pending_companion_extension now m s =
    if opt_eq m.quick_action_id "companion_skip"
    then (clear_pending_extension m.session_id s, ok (some skip_alone))
    else if opt_eq m.quick_action_id "companion_friend_image"
    then (s, ok none)
    else elim (get_pending_extension m.session_id m.child_id s) [
      | none ↦ (s, ok none)
      | some p ↦
          if opt_eq m.quick_action_id "companion_friend_name"
          then name_friend now m p.companion_id s
          else if contains_any (strip m.text) skip_signals
          then (clear_pending_extension m.session_id s, ok (some skip_alone))
          else name_friend now m p.companion_id s
    ]

-- the scenes in which a companion is left alone
unfoldable pub is_closed_scene : SceneId → Bool
is_closed_scene SceneId.safety_guardian = true
is_closed_scene SceneId.safety_gentle_checkin = true
is_closed_scene SceneId.privacy_boundary = true
is_closed_scene SceneId.learning_homework_help = true
is_closed_scene SceneId.daily_bedtime_reflection = true
is_closed_scene _ = false

-- svc.mark_skipped(...); return the companion as it was found
unfoldable pub skipped_with :
    CompanionObject → CompanionService → Result (CompanionService × CompanionObject) → Checked
skipped_with c s (err e) = (s, err e)
skipped_with c s (ok (t, _)) = (t, ok (some (done_with "skip" c)))

-- an active companion for which no extension waits
unfoldable pub answer_companion :
    ℕ → CompanionMessage → CompanionObject → CompanionService → Checked
unfolding opt_eq skipped_with mark_skipped begin_extension strip contains_any contains
answer_companion now m c s =
    if opt_eq m.quick_action_id "companion_skip"
    then skipped_with c s (mark_skipped now c.id (some m.session_id) s)
    else if opt_eq m.quick_action_id "companion_continue"
    then (
      begin_extension now m.session_id m.child_id c.id c.name s,
      ok (some (done_with "co_create_guidance" c)),
    )
    else if contains_any (strip m.text) skip_signals
    then skipped_with c s (mark_skipped now c.id (some m.session_id) s)
    else if leb 1 (length c.name) && contains c.name (strip m.text)
    then (s, ok (some (done_with "co_create" c)))
    else (s, ok none)

-- _check_companion_action
unfoldable pub check_companion_action : ℕ → SceneId → CompanionMessage → CompanionService → Checked
unfolding is_closed_scene get_active_by_child get_pending_extension answer_companion
check_companion_action now scene m s =
    if is_closed_scene scene then (s, ok none) else elim (get_active_by_child m.child_id s.items) [
      | none ↦ (s, ok none)
      | some c ↦ elim (get_pending_extension m.session_id m.child_id s) [
        | some _ ↦ (s, ok none)
        | none ↦ answer_companion now m c s
      ]
    ]

-- `created or extension or self._check_companion_action(...)`
unfoldable pub first_action :
    ℕ → SceneId → CompanionMessage → Option CompanionAction → Checked → Checked
unfolding check_companion_action
first_action now scene m created (s, err e) = (s, err e)
first_action now scene m (some a) (s, ok extension) = (s, ok (some a))
first_action now scene m none (s, ok (some a)) = (s, ok (some a))
first_action now scene m none (s, ok none) = check_companion_action now scene m s

-- the extension behind the creation
unfoldable pub then_extension : ℕ → SceneId → CompanionMessage → Checked → Checked
unfolding first_action check_pending_companion_extension
then_extension now scene m (s, err e) = (s, err e)
then_extension now scene m (s, ok created) =
    first_action now scene m created (check_pending_companion_extension now m s)

-- what `handle_message` does to companions, of a message that was routed to a scene
unfoldable pub companion_action :
    ℕ → String → SceneId → CompanionMessage → CompanionService → Checked
unfolding then_extension check_pending_companion_seed_creation
companion_action now id scene m s =
    then_extension now scene m (check_pending_companion_seed_creation now id m s)
