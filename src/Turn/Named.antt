-- ===== src/Turn/Named.antt =====
-- conversation_service.py: what becomes of a message that answers a waiting flow of a companion.
use ai_child.Prelude.{
  ℕ, ◌≡◌, true, false, String, List, [], none, some, refl, any, ap, ◌∙◌, str_eq, lookup, remove,
}
use ai_child.PyText.{PyText, strip, contains_any, opt_eq}
use ai_child.Scene.{SceneId, SceneRouteDecision}
use ai_child.Companion.{CompanionObject, CompanionObjectCreateRequest, light_locations}
use ai_child.Companion.Store.{save}
use ai_child.Companion.Rules.{
  CompanionService, PendingCompanionSeed, PendingCompanionExtension, ok, err, is_forbidden,
  validate_safe_summary, validate_location, forbidden_content,
}
use ai_child.Companion.Pending.{
  get_pending_seed_naming, clear_pending_seed_naming, get_pending_extension,
  clear_pending_extension,
}
use ai_child.Companion.Service.{
  create, new_companion, retire_existing, update_safe_summary_append, shortened, joined_summary,
}
use ai_child.Companion.Values.{Succeeds}
use ai_child.Turn.Naming.{skip_signals, companion_name}
use ai_child.Turn.Seeds.{
  CompanionMessage, skip_alone, done_with, seed_request, seed_summary, is_valid_request,
  created_or_none, try_create, name_pending_seed, check_pending_companion_seed_creation,
}
use ai_child.Turn.Companions.{
  appended, friend_summary, name_friend, check_pending_companion_extension, first_action,
  then_extension, companion_action,
}
use ai_child.Attachments.Modality.{QuickAction}
use ai_child.Turn.Reply.{
  meta_of, named_reply, parts_of_action, reply_parts, response_of, response_from_route_decision,
}

created :
    (now : ℕ) (id : String) (r : CompanionObjectCreateRequest) (s : CompanionService)
    → is_forbidden r.safe_summary ≡ false
    → any (str_eq r.light_location) light_locations ≡ true
    → create now id r s
      ≡ ok (
        record s { items = save (new_companion now id r) (retire_existing now r.child_id s.items) },
        new_companion now id r,
      )
unfolding create validate_safe_summary validate_location
created now id r s allowed placed = rw (allowed, placed) refl

tried :
    (now : ℕ) (id session : String) (r : CompanionObjectCreateRequest) (s : CompanionService)
    → is_valid_request r ≡ true
    → is_forbidden r.safe_summary ≡ false
    → any (str_eq r.light_location) light_locations ≡ true
    → try_create now id session r s ≡ (
      clear_pending_seed_naming session (record s {
        items = save (new_companion now id r) (retire_existing now r.child_id s.items);
      }),
      ok (some (done_with "co_create" (new_companion now id r))),
    )
unfolding try_create created_or_none
tried now id session r s valid allowed placed =
    rw (valid, try_create) (rw (created now id r s allowed placed) refl)

module _ (now : ℕ) (id : String) (scene : SceneId) (m : CompanionMessage)
    (s : CompanionService) where
  -- With the quick action `companion_skip` the waiting flows of the session end, and no companion is
  -- skipped: all companions, with their counts of skips, and what was recalled stay as they are.
  pub skip_button_skips_none :
      m.quick_action_id ≡ some "companion_skip"
      → companion_action now id scene m s ≡ (
        record s {
          pending_seed_naming = remove m.session_id s.pending_seed_naming;
          pending_extension = remove m.session_id s.pending_extension;
        },
        ok (some skip_alone),
      )
  unfolding companion_action check_pending_companion_seed_creation opt_eq clear_pending_seed_naming
      then_extension check_pending_companion_extension clear_pending_extension first_action
  skip_button_skips_none h = rw (h, companion_action) refl

  module _ (free : m.quick_action_id ≡ none) (name : PyText)
      (named : companion_name m.text ≡ some name) where
    seed_of_name :
        (p : PendingCompanionSeed)
        → get_pending_seed_naming m.session_id m.child_id s ≡ some p
        → check_pending_companion_seed_creation now id m s
          ≡ try_create now id m.session_id
              (seed_request m.child_id name p.recognized_image_type p.source_type p.light_location)
              s
    unfolding check_pending_companion_seed_creation name_pending_seed opt_eq
    seed_of_name p waits =
        rw (free, check_pending_companion_seed_creation)
          (rw (waits, name_pending_seed) (rw (named, name_pending_seed) refl))

    no_seed :
        get_pending_seed_naming m.session_id m.child_id s ≡ none
        → check_pending_companion_seed_creation now id m s ≡ (s, ok none)
    unfolding check_pending_companion_seed_creation name_pending_seed opt_eq
    no_seed alone =
        rw (free, check_pending_companion_seed_creation) (rw (alone, name_pending_seed) refl)

    nothing_extended :
        (t : CompanionService)
        → get_pending_extension m.session_id m.child_id t ≡ none
        → check_pending_companion_extension now m t ≡ (t, ok none)
    unfolding check_pending_companion_extension opt_eq
    nothing_extended t alone =
        rw (free, check_pending_companion_extension)
          (rw (alone, check_pending_companion_extension) refl)

    -- The companion is created, and nothing else is looked at.
    action_of_name :
        (p : PendingCompanionSeed) (r : CompanionObjectCreateRequest)
        → seed_request m.child_id name p.recognized_image_type p.source_type p.light_location ≡ r
        → get_pending_seed_naming m.session_id m.child_id s ≡ some p
        → get_pending_extension m.session_id m.child_id s ≡ none
        → is_valid_request r ≡ true
        → is_forbidden r.safe_summary ≡ false
        → any (str_eq r.light_location) light_locations ≡ true
        → companion_action now id scene m s ≡ (
          clear_pending_seed_naming m.session_id (record s {
            items = save (new_companion now id r) (retire_existing now r.child_id s.items);
          }),
          ok (some (done_with "co_create" (new_companion now id r))),
        )
    unfolding companion_action then_extension first_action
    action_of_name p r same waits alone valid allowed placed =
        ap (then_extension now scene m) (
          seed_of_name p waits
          ∙ ap (λ q. try_create now id m.session_id q s) same
          ∙ tried now id m.session_id r s valid allowed placed)
        ∙ ap (first_action now scene m (some (done_with "co_create" (new_companion now id r)))) (
            nothing_extended
              (clear_pending_seed_naming m.session_id (record s {
                items = save (new_companion now id r) (retire_existing now r.child_id s.items);
              }))
              (unfold get_pending_extension clear_pending_seed_naming in alone))

    -- A name that a waiting seed takes is replied to with the text for a new companion, and with no quick
    -- actions, whatever the scene and the route decision are, whatever the model replies, and whatever is
    -- offered. The words of the message are a name, its request is valid, its summary is allowed, the place
    -- is known, there is no quick action, and no extension waits.
    pub waiting_name_takes_over :
        (p : PendingCompanionSeed) (d : SceneRouteDecision) (reply : PyText)
        (offered : List QuickAction)
        → get_pending_seed_naming m.session_id m.child_id s ≡ some p
        → get_pending_extension m.session_id m.child_id s ≡ none
        → is_valid_request
            (seed_request m.child_id name p.recognized_image_type p.source_type p.light_location)
          ≡ true
        → is_forbidden (seed_summary p.source_type name) ≡ false
        → any (str_eq p.light_location) light_locations ≡ true
        → Succeeds
            (λ action.
              ((response_from_route_decision d reply offered action).text
                ≡ named_reply (
                    meta_of "co_create" (
                      new_companion now id (
                        seed_request m.child_id name p.recognized_image_type p.source_type
                          p.light_location))))
              × ((response_from_route_decision d reply offered action).ui_actions ≡ []))
            (companion_action now id scene m s).1
    unfolding response_from_route_decision reply_parts parts_of_action response_of
    waiting_name_takes_over p d reply offered waits alone valid allowed placed =
        rw
          (action_of_name p
            (seed_request m.child_id name p.recognized_image_type p.source_type p.light_location)
            refl waits alone valid (unfold seed_request in allowed) (unfold seed_request in placed))
          (refl, refl)

    friend_refused :
        (p : PendingCompanionExtension) (c : CompanionObject)
        → get_pending_extension m.session_id m.child_id s ≡ some p
        → contains_any (strip m.text) skip_signals ≡ false
        → lookup p.companion_id s.items ≡ some c
        → is_forbidden (shortened (joined_summary c.safe_summary (friend_summary name))) ≡ true
        → check_pending_companion_extension now m s ≡ (s, err forbidden_content)
    unfolding check_pending_companion_extension opt_eq name_friend update_safe_summary_append
        appended validate_safe_summary
    friend_refused p c waits told stored forbidden =
        rw (free, check_pending_companion_extension)
          (rw (waits, told, check_pending_companion_extension)
            (rw (named, name_friend)
              (rw (stored, update_safe_summary_append) (rw (forbidden, free) refl))))

    -- A friend's name that makes the summary of the waiting companion a forbidden one raises an error out of
    -- the message, and the state stays as it is: the extension waits on. There is no quick action, no sign to
    -- skip, and no seed waits.
    pub forbidden_friend_raises :
        (p : PendingCompanionExtension) (c : CompanionObject)
        → get_pending_seed_naming m.session_id m.child_id s ≡ none
        → get_pending_extension m.session_id m.child_id s ≡ some p
        → contains_any (strip m.text) skip_signals ≡ false
        → lookup p.companion_id s.items ≡ some c
        → is_forbidden (shortened (joined_summary c.safe_summary (friend_summary name))) ≡ true
        → companion_action now id scene m s ≡ (s, err forbidden_content)
    unfolding companion_action then_extension first_action
    forbidden_friend_raises p c alone waits told stored forbidden =
        ap (then_extension now scene m) (no_seed alone)
        ∙ ap (first_action now scene m none) (friend_refused p c waits told stored forbidden)
