-- ===== src/Companion/Recall.antt =====
-- companion_object_service.py, `can_recall`, `mark_recalled` and `mark_skipped`.
use ai_child.Prelude.{
  ℕ, ◌+◌, ◌/◌, ◌≤◌, ◌<◌, ◌≡◌, ◌⊎◌, inl, inr, Bool, true, false, ◌&&◌, String, List, [], ◌∷◌, Option,
  none, some, arith, refl, str_eq, eq_refl, nat_eq_refl, lookup, lookup_or, lookup_or-insert, Dict,
  if◌then◌else◌,
}
use ai_child.Companion.{CompanionObject, CompanionObjectStatus, status_eq}
use ai_child.Companion.Store.{get_active_by_child, find, values, is_of_child}
use ai_child.Companion.Rules.{CompanionService, track, has_recalled, day, fade_out}
use ai_child.Companion.Service.{
  track_if, is_same_day, is_capped, can_recall, mark_recalled, mark_skipped,
}
use ai_child.Companion.Values.{Succeeds, find-passes}

-- A child is marked in the session that marked it, and the marks of every other session stay.
pub has_recalled-track :
    (session marked child : String) (recalled : Dict (List String))
    → has_recalled session child (track marked child recalled)
      ≡ (if str_eq marked session then true else has_recalled session child recalled)
unfolding has_recalled track
has_recalled-track session marked child recalled = ground (
  arith,
  eq_refl child,
  lookup_or-insert [] marked session (child ∷ lookup_or [] marked recalled) recalled,
)

marked :
    (session child : String) (recalled : Dict (List String))
    → has_recalled session child (track session child recalled) ≡ true
marked session child recalled =
    ground (arith, eq_refl session, has_recalled-track session session child recalled)

nothing_to_recall :
    (now : ℕ) (child session : String) (bed : Bool) (s : CompanionService)
    → has_recalled session child s.recalled ≡ true
    → can_recall now child session bed s ≡ none
unfolding can_recall
nothing_to_recall now child session true s h = refl
nothing_to_recall now child session false s h = cases (get_active_by_child child s.items)
  where
    cases :
        (o : Option CompanionObject)
        → elim o as (λ _. Option CompanionObject) [
          | none ↦ none
          | some c ↦
              if has_recalled session child s.recalled
              then none
              else if is_capped now c c.last_recalled_at
              then none
              else some c
        ]
          ≡ none
    cases none = refl
    cases (some c) = rw h refl

-- Once a companion was recalled in a session, or skipped there, its child has nothing to recall in
-- that session, at any later time.
pub once_per_session :
    (now later : ℕ) (id session : String) (bed : Bool) (s : CompanionService) (c : CompanionObject)
    → lookup id s.items ≡ some c
    → Succeeds
        (λ r. can_recall later c.child_id session bed r.0 ≡ none)
        (mark_recalled now id session s)
      × Succeeds
          (λ r. can_recall later c.child_id session bed r.0 ≡ none)
          (mark_skipped now id (some session) s)
unfolding mark_recalled mark_skipped track_if
once_per_session now later id session bed s c h =
    rw (h, Succeeds)
      (
        nothing_to_recall later c.child_id session bed _ (marked session c.child_id s.recalled),
        nothing_to_recall later c.child_id session bed _ (marked session c.child_id s.recalled),
      )

-- What can be recalled.
abbrev pub MayRecall : ℕ → String → String → Bool → CompanionService → CompanionObject → Type 0
MayRecall now child session bed s c =
    (bed ≡ false)
    × (c.status ≡ CompanionObjectStatus.active)
    × (str_eq c.child_id child ≡ true)
    × (has_recalled session child s.recalled ≡ false)
    × (is_capped now c c.last_recalled_at ≡ false)

active_of :
    (c : CompanionObject)
    → status_eq c.status CompanionObjectStatus.active ≡ true
    → c.status ≡ CompanionObjectStatus.active
unfolding status_eq
active_of c h = ground arith

-- A companion that `can_recall` offers is an active one of that child, it is not bedtime, nothing was
-- recalled in the session, and no cap stands against it.
pub can_recall-MayRecall :
    (now : ℕ) (child session : String) (bed : Bool) (s : CompanionService) (c : CompanionObject)
    → can_recall now child session bed s ≡ some c
    → MayRecall now child session bed s c
unfolding can_recall get_active_by_child
can_recall-MayRecall now child session true s c h = ground arith
can_recall-MayRecall now child session false s c h = cases _ refl h
  where
    test : CompanionObject → Bool
    test c = is_of_child child c && status_eq c.status CompanionObjectStatus.active

    cases :
        (o : Option CompanionObject)
        → find test (values s.items) ≡ o
        → elim o as (λ _. Option CompanionObject) [
          | none ↦ none
          | some d ↦
              if has_recalled session child s.recalled
              then none
              else if is_capped now d d.last_recalled_at
              then none
              else some d
        ]
          ≡ some c
        → MayRecall now child session false s c
    cases none e k = ground arith
    cases (some d) e k = ground (arith, find-passes test (values s.items) d e, active_of d)

-- A companion that was recalled on a day is not offered again on that day in any session; and once it
-- was recalled twice it is not offered again for seven days.
pub recall_is_capped :
    (now later : ℕ) (id session other : String) (bed : Bool) (s : CompanionService)
    (c : CompanionObject)
    → lookup id s.items ≡ some c
    → (now / day ≡ later / day) ⊎ ((1 ≤ c.recall_count) × (later < now + fade_out))
    → Succeeds
        (λ r. ¬ (can_recall later r.1.child_id other bed r.0 ≡ some r.1))
        (mark_recalled now id session s)
unfolding mark_recalled
recall_is_capped now later id session other bed s c h limit =
    rw (h, Succeeds)
      λ offered.
        absurd (capped limit ((can_recall-MayRecall later c.child_id other bed _ _ offered).4))
  where
    capped :
        (now / day ≡ later / day) ⊎ ((1 ≤ c.recall_count) × (later < now + fade_out))
        → is_capped later
            (record c {
              last_recalled_at = some now;
              recall_count = c.recall_count + 1;
              updated_at = now;
            })
            (some now)
          ≡ false
        → ⊥
    capped (inl e) k = unfold is_capped is_same_day in ground (arith, nat_eq_refl (later / day))
    capped (inr p) k = unfold is_capped is_same_day in ground arith
