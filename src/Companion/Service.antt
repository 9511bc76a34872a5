-- ===== src/Companion/Service.antt =====
-- backend/app/services/companion_object_service.py over the in-memory repository, which never fails:
-- the branches for a repository that is unavailable are not taken. The time and a fresh identifier are
-- arguments.
use ai_child.Prelude.{
  ℕ, ◌+◌, ◌-◌, ◌/◌, String, Bool, false, ◌&&◌, ◌||◌, List, [], ◌∷◌, ◌++◌, Option, none, some,
  length, take, nat_eq, ltb, leb, if◌then◌else◌, Dict, lookup,
}
use ai_child.PyText.{PyText, codes, strip}
use ai_child.Companion.{
  CompanionObject, CompanionObjectStatus, CompanionObjectCreateRequest,
  CompanionObjectUpdateRequest, status_eq, safe_summary_max_length, resolve_visual_kind,
}
use ai_child.Companion.Store.{Items, save, find, get_active_by_child, list_by_child}
use ai_child.Companion.Rules.{
  CompanionService, Result, day, err, fade_out, has_recalled, max_recall_per_7_days, ok, track,
  validate_location, validate_safe_summary, ◌>>◌, not_found,
}

-- `item.status in (ACTIVE, PAUSED)`
unfoldable pub is_live : CompanionObject → Bool
unfolding status_eq
is_live c =
    status_eq c.status CompanionObjectStatus.active
    || status_eq c.status CompanionObjectStatus.paused

-- _get_active_or_paused_by_child
unfoldable pub get_active_or_paused_by_child : String → Items → Option CompanionObject
unfolding find is_live list_by_child
get_active_or_paused_by_child child items = find is_live (list_by_child child items)

-- companion.model_copy(update={"status": RETIRED, "updated_at": now})
unfoldable pub retired_at : ℕ → CompanionObject → CompanionObject
retired_at now c = record c { status = CompanionObjectStatus.retired; updated_at = now }

-- "Retire existing active/paused companions" of `create`
unfoldable pub retire_existing : ℕ → String → Items → Items
unfolding retired_at save get_active_or_paused_by_child
retire_existing now child items = elim (get_active_or_paused_by_child child items) [
  | none ↦ items
  | some c ↦ save (retired_at now c) items
]

-- summary.strip()[:SAFE_SUMMARY_MAX_LENGTH]
unfoldable pub clip : PyText → PyText
clip summary = take safe_summary_max_length (strip summary)

-- the CompanionObject that `create` saves
unfoldable pub new_companion : ℕ → String → CompanionObjectCreateRequest → CompanionObject
unfolding clip resolve_visual_kind
new_companion now id r = record {
  id = id;
  child_id = r.child_id;
  name = strip r.name;
  object_type = r.object_type;
  source_type = r.source_type;
  safe_summary = clip r.safe_summary;
  light_location = r.light_location;
  status = CompanionObjectStatus.active;
  visual_kind = resolve_visual_kind r.object_type;
  last_recalled_at = none;
  recall_count = 0;
  skip_count = 0;
  created_at = now;
  updated_at = now;
}

-- create
unfoldable pub create :
    ℕ
    → String
    → CompanionObjectCreateRequest
    → CompanionService
    → Result (CompanionService × CompanionObject)
unfolding validate_safe_summary validate_location retire_existing new_companion save
create now id r s = do
  validate_safe_summary r.safe_summary
  validate_location r.light_location
  ok (
    record s { items = save (new_companion now id r) (retire_existing now r.child_id s.items) },
    new_companion now id r,
  )

-- the new summary of `update_safe_summary_append`
unfoldable pub joined_summary : PyText → PyText → PyText
joined_summary [] added = added
joined_summary (c ∷ summary) added = (c ∷ summary) ++ (codes "；" ++ added)

unfoldable pub shortened : PyText → PyText
shortened summary =
    if ltb safe_summary_max_length (length summary)
    then take (safe_summary_max_length - 1) summary ++ codes "…"
    else summary

-- update_safe_summary_append
unfoldable pub update_safe_summary_append :
    ℕ → String → PyText → CompanionService → Result (CompanionService × Option CompanionObject)
unfolding joined_summary shortened validate_safe_summary save
update_safe_summary_append now id added s = elim (lookup id s.items) [
  | none ↦ ok (s, none)
  | some c ↦
      let summary = shortened (joined_summary c.safe_summary added) in
      let updated = record c { safe_summary = summary; updated_at = now } in
      validate_safe_summary summary >> ok (record s { items = save updated s.items }, some updated)
]

-- _is_same_day
unfoldable pub is_same_day : ℕ → ℕ → Bool
is_same_day a b = nat_eq (a / day) (b / day)

-- the caps of `can_recall`
unfoldable pub is_capped : ℕ → CompanionObject → Option ℕ → Bool
unfolding is_same_day
is_capped now c none = false
is_capped now c (some last) =
    is_same_day last now || (leb max_recall_per_7_days c.recall_count && ltb (now - last) fade_out)

-- can_recall
unfoldable pub can_recall : ℕ → String → String → Bool → CompanionService → Option CompanionObject
unfolding has_recalled is_capped get_active_by_child
can_recall now child session is_bedtime s =
    if is_bedtime then none else elim (get_active_by_child child s.items) [
      | none ↦ none
      | some c ↦
          if has_recalled session child s.recalled
          then none
          else if is_capped now c c.last_recalled_at
          then none
          else some c
    ]

-- mark_recalled
unfoldable pub mark_recalled :
    ℕ → String → String → CompanionService → Result (CompanionService × CompanionObject)
unfolding track save
mark_recalled now id session s = elim (lookup id s.items) [
  | none ↦ err not_found
  | some c ↦
      let updated = record c {
        last_recalled_at = some now;
        recall_count = c.recall_count + 1;
        updated_at = now;
      } in
      ok (
        record s { items = save updated s.items; recalled = track session c.child_id s.recalled },
        updated,
      )
]

-- the companion after a skip
unfoldable pub skipped_at : ℕ → CompanionObject → CompanionObject
skipped_at now c = record c {
  skip_count = c.skip_count + 1;
  status = if leb 2 (c.skip_count + 1) then CompanionObjectStatus.paused else c.status;
  updated_at = now;
}

-- `if session_id is not None: self._session_tracker.mark_recalled(...)`
unfoldable pub track_if : Option String → String → Dict (List String) → Dict (List String)
unfolding track
track_if none child recalled = recalled
track_if (some session) child recalled = track session child recalled

-- mark_skipped
unfoldable pub mark_skipped :
    ℕ → String → Option String → CompanionService → Result (CompanionService × CompanionObject)
unfolding skipped_at track_if save
mark_skipped now id session s = elim (lookup id s.items) [
  | none ↦ err not_found
  | some c ↦ ok (
    record s {
      items = save (skipped_at now c) s.items;
      recalled = track_if session c.child_id s.recalled;
    },
    skipped_at now c,
  )
]

-- `if value is not None: validate(value)`
unfoldable pub validate_if {ℓ} :
    {A : Type ℓ} → (A → Result (Unit {0})) → Option A → Result (Unit {0})
validate_if f none = ok tt
validate_if f (some a) = f a

unfoldable pub given_or {ℓ} : {A : Type ℓ} → A → Option A → A
given_or a none = a
given_or a (some b) = b

-- the companion that `update` saves
unfoldable pub updated_at : ℕ → CompanionObjectUpdateRequest → CompanionObject → CompanionObject
unfolding given_or clip
updated_at now r c = record c {
  safe_summary = elim r.safe_summary [ none ↦ c.safe_summary | some t ↦ clip t ];
  light_location = given_or c.light_location r.light_location;
  updated_at = now;
}

-- update
unfoldable pub update :
    ℕ
    → String
    → CompanionObjectUpdateRequest
    → CompanionService
    → Result (CompanionService × CompanionObject)
unfolding validate_if validate_safe_summary validate_location updated_at save
update now id r s = elim (lookup id s.items) [
  | none ↦ err not_found
  | some c ↦
      validate_if validate_safe_summary r.safe_summary
      >> (validate_if validate_location r.light_location
          >> ok (record s { items = save (updated_at now r c) s.items }, updated_at now r c))
]

-- the companion after `unpause`
unfoldable pub unpaused_at : ℕ → CompanionObject → CompanionObject
unpaused_at now c = record c {
  status = CompanionObjectStatus.active;
  skip_count = 0;
  updated_at = now;
}

-- unpause
unfoldable pub unpause : ℕ → String → CompanionService → Result (CompanionService × CompanionObject)
unfolding unpaused_at save status_eq
unpause now id s = elim (lookup id s.items) [
  | none ↦ err not_found
  | some c ↦
      if status_eq c.status CompanionObjectStatus.paused
      then ok (record s { items = save (unpaused_at now c) s.items }, unpaused_at now c)
      else ok (s, c)
]

-- the loop of `retire_for_child`, with the count of those retired
unfoldable pub retire_all : ℕ → List CompanionObject → Items × ℕ → Items × ℕ
unfolding retired_at save status_eq
retire_all now [] done = done
retire_all now (c ∷ cs) (items, count) = retire_all now cs (
    if status_eq c.status CompanionObjectStatus.retired
    then (items, count)
    else (save (retired_at now c) items, count + 1))

-- retire_for_child
unfoldable pub retire_for_child : ℕ → String → CompanionService → CompanionService × ℕ
unfolding retire_all list_by_child
retire_for_child now child s =
    let (items, count) = retire_all now (list_by_child child s.items) (s.items, 0) in
    (record s { items = items }, count)

-- is_faded_out
unfoldable pub is_faded_out : ℕ → CompanionObject → Bool
unfolding status_eq given_or
is_faded_out now c =
    if status_eq c.status CompanionObjectStatus.paused
    then leb fade_out (now - given_or c.created_at c.last_recalled_at)
    else false
