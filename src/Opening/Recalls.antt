-- ===== src/Opening/Recalls.antt =====
-- opening_policy.py: which openings may recall a topic.
use ai_child.Prelude.{
  ℕ, ◌≡◌, Bool, true, false, not, ◌&&◌, ◌||◌, [], ◌∷◌, Option, none, some, String, lookup_or,
  insert, lookup_or-insert, eq_refl, arith, refl, if_of, ap, ◌∙◌,
}
use ai_child.TimePeriod.{TimePeriod}
use ai_child.PyText.{PyText}
use ai_child.Memory.Service.{Store}
use ai_child.Opening.{OpeningPolicy, OpeningPolicyBuilder}
use ai_child.Opening.Relations.{latest_topic_boundary, latest_low_expression_state}
use ai_child.Opening.Parents.{ParentPolicy, is_exciting_topic}
use ai_child.Opening.Policy.{
  boundary_info, is_boundary_active, choice_of, build, count_recall, count_boundary,
  record_policy_used, is_bedtime, is_there,
}
use ai_child.Opening.Choice.{Choice, first_choice, second_choice, is_some_topic, is_default}

-- A choice that recalls nothing, and that the second ladder does not change into one that does.
IsHeld : Choice → Type 0
IsHeld c = (c.seed_recall_allowed ≡ false) × (not (is_default c.mode) || c.recall_blocked ≡ true)

first_choice-IsHeld :
    (bedtime cooldown low : Bool) (kind : Option PyText) (seed profile : PyText)
    (blocked profile_blocked : Bool)
    → bedtime || cooldown || low || blocked ≡ true
    → IsHeld (first_choice bedtime cooldown low kind seed profile blocked profile_blocked)
unfolding first_choice IsHeld
first_choice-IsHeld true cooldown low kind seed profile blocked profile_blocked h =
    if_of IsHeld (is_some_topic seed && is_exciting_topic seed) (λ _. (refl, refl))
      (λ _. (refl, refl))
first_choice-IsHeld false true low kind seed profile blocked profile_blocked h = (refl, refl)
first_choice-IsHeld false false true kind seed profile blocked profile_blocked h = (refl, refl)
first_choice-IsHeld false false false kind [] profile true profile_blocked h =
    if_of IsHeld (is_some_topic profile && false) (λ e. elim (contradiction e) [ ])
      (λ _. (refl, refl))
  where
    contradiction : is_some_topic profile && false ≡ true → ⊥
    contradiction e = ground arith
first_choice-IsHeld false false false kind (c ∷ seed) profile true profile_blocked h = (refl, refl)
first_choice-IsHeld false false false kind seed profile false profile_blocked h =
    (ground arith, ground arith)

second_choice-held :
    (last : Bool) (hint : Option PyText) (c : Choice)
    → IsHeld c
    → (second_choice last hint c).seed_recall_allowed ≡ false
unfolding second_choice IsHeld
second_choice-held last hint c h = ground (arith, h.0, h.1)

choices_hold :
    (bedtime cooldown low : Bool) (kind : Option PyText) (seed profile : PyText)
    (blocked profile_blocked last : Bool) (hint : Option PyText)
    → bedtime || cooldown || low || blocked ≡ true
    → (second_choice last hint (
        first_choice bedtime cooldown low kind seed profile blocked
          profile_blocked)).seed_recall_allowed
      ≡ false
choices_hold bedtime cooldown low kind seed profile blocked profile_blocked last hint h =
    second_choice-held last hint _
      (first_choice-IsHeld bedtime cooldown low kind seed profile blocked profile_blocked h)

-- the record of the last opening
last-record_policy_used :
    (child : String) (policy : OpeningPolicy) (b : OpeningPolicyBuilder)
    → lookup_or false child (record_policy_used child policy b).last_opening_recalled
      ≡ policy.seed_recall_allowed
unfolding record_policy_used
last-record_policy_used child policy b =
    ap (lookup_or false child) (kept policy.boundary_kind)
    ∙ ground (
      arith,
      lookup_or-insert false child child policy.seed_recall_allowed
          (count_recall child policy b).last_opening_recalled,
      eq_refl child,
    )
  where
    noted : OpeningPolicyBuilder
    noted =
        let counted = count_recall child policy b in
        record counted {
          last_opening_recalled =
              insert child policy.seed_recall_allowed counted.last_opening_recalled;
        }

    kept :
        (kind : Option PyText)
        → (count_boundary child kind policy noted).last_opening_recalled
          ≡ noted.last_opening_recalled
    kept none = unfold count_boundary in refl
    kept (some kind) =
        unfold count_boundary in
        if_of (λ (x : OpeningPolicyBuilder). x.last_opening_recalled ≡ noted.last_opening_recalled)
          (policy.boundary_cooldown_active && is_some_topic kind) (λ _. refl) (λ _. refl)

module _ (to_int : PyText → Option ℕ) (now : ℕ) (store : Store) (child : String) (p : ParentPolicy)
    (period : TimePeriod) (b : OpeningPolicyBuilder) where
  -- No topic is recalled at bedtime, nor while a boundary of the child is in force, nor to a child whose
  -- memories tell of a low expression, nor if the last opening of the child recalled one.
  pub no_recall_if_guarded :
      is_bedtime period
          || is_boundary_active b child (boundary_info (latest_topic_boundary now child store))
          || is_there (latest_low_expression_state now child store)
          || lookup_or false child b.last_opening_recalled
        ≡ true
      → (build to_int now store child p period b).seed_recall_allowed ≡ false
  unfolding build choice_of
  no_recall_if_guarded h = choices_hold _ _ _ _ _ _ _ _ _ _ (ground arith)

  -- After an opening that recalled a topic was recorded, the next opening of the child recalls none, whatever
  -- the memories, the parent policy and the time of day are by then.
  pub no_two_recalls_in_a_row :
      (policy : OpeningPolicy)
      → policy.seed_recall_allowed ≡ true
      → (build to_int now store child p period
          (record_policy_used child policy b)).seed_recall_allowed
        ≡ false
  unfolding build choice_of
  no_two_recalls_in_a_row policy recalled =
      let after = last-record_policy_used child policy b in
      choices_hold _ _ _ _ _ _ _ _ _ _ (ground (arith, after, recalled))
