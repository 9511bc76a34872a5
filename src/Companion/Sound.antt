-- ===== src/Companion/Sound.antt =====
-- companion_object_service.py: what a stored companion must be, and the companions that the operations
-- store.
use ai_child.Prelude.{
  ℕ, ◌≤◌, ◌≡◌, true, false, String, Option, none, some, any, length, arith, str_eq,
}
use ai_child.PyText.{PyText}
use ai_child.Companion.{
  CompanionObject, CompanionObjectStatus, CompanionObjectCreateRequest,
  CompanionObjectUpdateRequest, light_locations, safe_summary_max_length,
}
use ai_child.Companion.Rules.{ok, is_forbidden, validate_safe_summary, validate_location}
use ai_child.Companion.Service.{
  validate_if, retired_at, new_companion, clip, skipped_at, updated_at, given_or, unpaused_at,
}
use ai_child.Companion.Summary.{part_is_allowed, clip-IsPart, length-clip}

-- A stored companion: its summary is free of every forbidden marker and not too long, it stands at one
-- of the known places, and while it is active it has been skipped at most once.
pub record IsSound (c : CompanionObject) : Type 0 where
  pub allowed : is_forbidden c.safe_summary ≡ false
  pub short : length c.safe_summary ≤ safe_summary_max_length
  pub placed : any (str_eq c.light_location) light_locations ≡ true
  pub skipped : c.status ≡ CompanionObjectStatus.active → c.skip_count ≤ 1

pub retired_at-IsSound : (now : ℕ) (c : CompanionObject) → IsSound c → IsSound (retired_at now c)
unfolding retired_at
retired_at-IsSound now c h = record {
  allowed = h.allowed;
  short = h.short;
  placed = h.placed;
  skipped = λ e. ground arith;
}

pub unpaused_at-IsSound : (now : ℕ) (c : CompanionObject) → IsSound c → IsSound (unpaused_at now c)
unfolding unpaused_at
unpaused_at-IsSound now c h = record {
  allowed = h.allowed;
  short = h.short;
  placed = h.placed;
  skipped = λ e. omega arith;
}

pub skipped_at-IsSound : (now : ℕ) (c : CompanionObject) → IsSound c → IsSound (skipped_at now c)
unfolding skipped_at
skipped_at-IsSound now c h = record {
  allowed = h.allowed;
  short = h.short;
  placed = h.placed;
  skipped = λ e. ground arith;
}

pub new_companion-IsSound :
    (now : ℕ) (id : String) (r : CompanionObjectCreateRequest)
    → is_forbidden r.safe_summary ≡ false
    → any (str_eq r.light_location) light_locations ≡ true
    → IsSound (new_companion now id r)
unfolding new_companion
new_companion-IsSound now id r h p = record {
  allowed = part_is_allowed (clip r.safe_summary) r.safe_summary (clip-IsPart r.safe_summary) h;
  short = length-clip r.safe_summary;
  placed = p;
  skipped = λ e. omega arith;
}

pub is_allowed : (t : PyText) → validate_safe_summary t ≡ ok tt → is_forbidden t ≡ false
unfolding validate_safe_summary
is_allowed t h = ground arith

pub is_placed : (l : String) → validate_location l ≡ ok tt → any (str_eq l) light_locations ≡ true
unfolding validate_location
is_placed l h = ground arith

pub updated_at-IsSound :
    (now : ℕ) (r : CompanionObjectUpdateRequest) (c : CompanionObject)
    → validate_if validate_safe_summary r.safe_summary ≡ ok tt
    → validate_if validate_location r.light_location ≡ ok tt
    → IsSound c
    → IsSound (updated_at now r c)
unfolding validate_safe_summary validate_if given_or updated_at
updated_at-IsSound now r c hs hl h = record {
  allowed = text r.safe_summary hs;
  short = size r.safe_summary;
  placed = place r.light_location hl;
  skipped = h.skipped;
}
  where
    text :
        (o : Option PyText)
        → validate_if validate_safe_summary o ≡ ok tt
        → is_forbidden (elim o [ none ↦ c.safe_summary | some t ↦ clip t ]) ≡ false
    text none e = h.allowed
    text (some t) e = part_is_allowed (clip t) t (clip-IsPart t) (is_allowed t e)

    size :
        (o : Option PyText)
        → length (elim o [ none ↦ c.safe_summary | some t ↦ clip t ]) ≤ safe_summary_max_length
    size none = h.short
    size (some t) = length-clip t

    place :
        (o : Option String)
        → validate_if validate_location o ≡ ok tt
        → any (str_eq (given_or c.light_location o)) light_locations ≡ true
    place none e = h.placed
    place (some l) e = is_placed l e
