-- ===== src/Companion/Lifecycle.antt =====
-- companion_object_service.py, `create`, `mark_skipped` and `unpause`: how companions follow one another.
use ai_child.Prelude.{
  ℕ, ◌≤◌, ◌≡◌, true, false, String, Option, some, arith, refl, str_eq, eq_refl, eq_iff, lookup,
  lookup-insert, if◌then◌else◌, any, ◌∙◌,
}
use ai_child.Companion.{
  CompanionObject, CompanionObjectStatus, CompanionObjectCreateRequest, status_eq, light_locations,
}
use ai_child.Companion.Store.{Items, save}
use ai_child.Companion.Rules.{
  CompanionService, ok, ◌>>=◌, is_forbidden, validate_safe_summary, validate_location,
}
use ai_child.Companion.Service.{
  retired_at, retire_existing, get_active_or_paused_by_child, new_companion, create, skipped_at,
  track_if, mark_skipped, unpaused_at, unpause,
}
use ai_child.Companion.Values.{Succeeds}

-- What a child's new companion leaves in the repository: itself, and its predecessor retired.
abbrev pub Replaces : ℕ → String → CompanionObject → CompanionService × CompanionObject → Type 0
Replaces now id c r =
    (lookup id r.0.items ≡ some r.1)
    × (r.1.status ≡ CompanionObjectStatus.active)
    × (lookup c.id r.0.items ≡ some (retired_at now c))

saved :
    (now : ℕ) (id : String) (r : CompanionObjectCreateRequest) (items : Items) (k : String)
    → lookup k (save (new_companion now id r) items)
      ≡ (if str_eq id k then some (new_companion now id r) else lookup k items)
unfolding save new_companion
saved now id r items k = lookup-insert id k (new_companion now id r) items

retired :
    (now : ℕ) (c : CompanionObject) (items : Items)
    → lookup c.id (save (retired_at now c) items) ≡ some (retired_at now c)
unfolding save retired_at
retired now c items = ground (arith, lookup-insert c.id c.id (retired_at now c) items, eq_refl c.id)

-- An allowed summary at a known place creates a companion: it is stored as active under its new
-- identifier, and the child's active or paused companion of before is stored as retired.
pub create-Replaces :
    (now : ℕ) (id : String) (r : CompanionObjectCreateRequest) (s : CompanionService)
    (c : CompanionObject)
    → is_forbidden r.safe_summary ≡ false
    → any (str_eq r.light_location) light_locations ≡ true
    → get_active_or_paused_by_child r.child_id s.items ≡ some c
    → str_eq id c.id ≡ false
    → Succeeds (Replaces now id c) (create now id r s)
unfolding create validate_safe_summary validate_location
create-Replaces now id r s c allowed placed old fresh =
    rw (allowed, placed, Succeeds)
      (
        unfold new_companion in
            ground (arith, saved now id r (retire_existing now r.child_id s.items) id, eq_refl id),
        refl,
        kept,
      )
  where
    kept :
        lookup c.id (save (new_companion now id r) (retire_existing now r.child_id s.items))
        ≡ some (retired_at now c)
    kept =
        saved now id r (retire_existing now r.child_id s.items) c.id
        ∙ rw fresh (rw (old, retire_existing) (retired now c s.items))

skip_found :
    (now : ℕ) (id : String) (session : Option String) (s : CompanionService) (c : CompanionObject)
    → lookup id s.items ≡ some c
    → mark_skipped now id session s
      ≡ ok (
        record s {
          items = save (skipped_at now c) s.items;
          recalled = track_if session c.child_id s.recalled;
        },
        skipped_at now c,
      )
unfolding mark_skipped
skip_found now id session s c h = rw (h, mark_skipped) refl

unpause_found :
    (now : ℕ) (id : String) (s : CompanionService) (c : CompanionObject)
    → lookup id s.items ≡ some c
    → status_eq c.status CompanionObjectStatus.paused ≡ true
    → unpause now id s
      ≡ ok (record s { items = save (unpaused_at now c) s.items }, unpaused_at now c)
unfolding unpause
unpause_found now id s c h p = rw (h, p, unpause) refl

at_own_id :
    (id : String) (c d : CompanionObject) (items : Items)
    → d.id ≡ id
    → lookup id (save d items) ≡ some d
unfolding save
at_own_id id c d items e = ground (arith, lookup-insert d.id id d items, eq_iff d.id id)

-- A companion that is skipped for the second time is paused, and an `unpause` makes it active, with its
-- skips forgotten: whatever its status was before, a retired one included.
pub skip-then-unpause :
    (now later : ℕ) (id : String) (session : Option String) (s : CompanionService)
    (c : CompanionObject)
    → lookup id s.items ≡ some c
    → c.id ≡ id
    → 1 ≤ c.skip_count
    → Succeeds
        (λ r.
          (r.1.status ≡ CompanionObjectStatus.active)
          × (r.1.skip_count ≡ 0)
          × (lookup id r.0.items ≡ some r.1))
        (mark_skipped now id session s >>= λ r. unpause later id r.0)
unfolding mark_skipped
skip-then-unpause now later id session s c h same skips =
    rw (skip_found now id session s c h, Succeeds)
      (rw
        (
          unpause_found later id
              (record s {
                items = save (skipped_at now c) s.items;
                recalled = track_if session c.child_id s.recalled;
              })
              (skipped_at now c)
              (at_own_id id c (skipped_at now c) s.items (unfold skipped_at in same)) paused,
          Succeeds,
        )
        (
          unfold unpaused_at in refl,
          unfold unpaused_at in refl,
          at_own_id id c (unpaused_at later (skipped_at now c)) _
              (unfold skipped_at unpaused_at in same),
        ))
  where
    paused : status_eq (skipped_at now c).status CompanionObjectStatus.paused ≡ true
    paused = unfold skipped_at status_eq in ground arith
