-- ===== src/Opening/Once.antt =====
-- opening_policy.py: how often a topic is recalled.
use ai_child.Prelude.{
  ℕ, ◌≡◌, Bool, true, false, not, ◌&&◌, ◌||◌, List, [], ◌∷◌, Option, none, some, String, ltb, arith,
  refl, if_of, ap,
}
use ai_child.TimePeriod.{TimePeriod}
use ai_child.PyText.{text_is→eq, PyText, codes, text_is, contains_any}
use ai_child.Memory.Service.{Store}
use ai_child.Opening.{OpeningMode, OpeningPolicy, OpeningPolicyBuilder}
use ai_child.Opening.Parents.{ParentPolicy, is_exciting_topic}
use ai_child.Opening.Policy.{interest_recall_count, choice_of, build, record_policy_used}
use ai_child.Opening.Choice.{Choice, first_choice, second_choice, is_some_topic, is_default}
use ai_child.Opening.Counts.{
  Topic, IsCounted, record-IsCounted, recalled-IsCounted, count-IsCounted,
}

-- A choice whose topic, if it is or may still be recalled, was not recalled before, by the counts n.
IsNew : (PyText → ℕ) → Choice → Type 0
IsNew n c =
    (not c.seed_recall_allowed || not c.recall_blocked ≡ true)
    × (not (c.seed_recall_allowed || is_default c.mode)
          || c.recall_blocked
          || not (ltb 0 (n c.seed_topic))
        ≡ true)

module _ (n : PyText → ℕ) where
  first_choice-IsNew :
      (bedtime cooldown low : Bool) (kind : Option PyText) (seed profile : PyText) (last : Bool)
      → IsNew n (
          first_choice bedtime cooldown low kind seed profile
            (ltb 0 (n seed) || last)
            (ltb 0 (n profile)))
  unfolding first_choice IsNew
  first_choice-IsNew true cooldown low kind seed profile last =
      if_of (IsNew n) (is_some_topic seed && is_exciting_topic seed) (λ _. (refl, refl))
        (λ _. (refl, refl))
  first_choice-IsNew false true low kind seed profile last = (refl, refl)
  first_choice-IsNew false false true kind seed profile last = (refl, refl)
  first_choice-IsNew false false false kind [] profile last =
      if_of (IsNew n) (is_some_topic profile && not ((ltb 0 (n []) || last) || ltb 0 (n profile)))
        (λ e. (ground arith, ground arith)) (λ _. (refl, ground arith))
  first_choice-IsNew false false false kind (c ∷ seed) profile last = (refl, ground arith)

  second_choice-IsNew :
      (last : Bool) (hint : Option PyText) (c : Choice)
      → IsNew n c
      → let d = second_choice last hint c in
        d.seed_recall_allowed ≡ true → ltb 0 (n d.seed_topic) ≡ false
  unfolding second_choice IsNew
  second_choice-IsNew last hint c h =
      if_of P (is_default c.mode && is_some_topic c.seed_topic && not c.recall_blocked)
        (λ e r. ground (arith, h.1))
        (λ _.
          if_of P (is_default c.mode && c.recall_blocked) (λ e r. ground (arith, h.0))
            (λ _.
              if_of P
                (is_default c.mode && elim hint as (λ _. Bool) [
                  | none ↦ false
                  | some text ↦ contains_any text ("家长" ∷ "爸爸妈妈" ∷ "爸爸" ∷ "妈妈" ∷ "一起告诉" ∷ [])
                ])
                {x = record c {
                  mode = OpeningMode.parent_bridge_light;
                  seed_recall_reason = codes "parent_bridge";
                }}
                {y = c} (λ _ r. ground (arith, h.0, h.1)) (λ _ r. ground (arith, h.0, h.1))))
    where
      P : Choice → Type 0
      P d = d.seed_recall_allowed ≡ true → ltb 0 (n d.seed_topic) ≡ false

not_both :
    (b t : Bool) (x y : PyText) (n : PyText → Bool)
    → (t ≡ true → x ≡ y)
    → (b ≡ true → n y ≡ false)
    → n x ≡ true
    → not b || not t ≡ true
not_both false t x y n same new old = refl
not_both true false x y n same new old = refl
not_both true true x y n same new old = ground (arith, ap n (same refl), new refl)

-- openings that are recorded, one after the other
abbrev pub record_all : List (String × OpeningPolicy) → OpeningPolicyBuilder → OpeningPolicyBuilder
record_all [] b = b
record_all ((child, policy) ∷ policies) b = record_all policies (record_policy_used child policy b)

record_all-IsCounted :
    (j : Topic) (policies : List (String × OpeningPolicy)) (b : OpeningPolicyBuilder)
    → IsCounted j b
    → IsCounted j (record_all policies b)
record_all-IsCounted j [] b h = h
record_all-IsCounted j ((child, policy) ∷ policies) b h =
    record_all-IsCounted j policies (record_policy_used child policy b)
      (record-IsCounted j child policy b h)

module _ (to_int : PyText → Option ℕ) (now : ℕ) (store : Store) (child : String) (p : ParentPolicy)
    (period : TimePeriod) where
  -- the topic of an opening that may recall one was not counted
  build-IsNew :
      (b : OpeningPolicyBuilder)
      → let next = build to_int now store child p period b in
        next.seed_recall_allowed ≡ true
        → ltb 0 (interest_recall_count b child next.seed_topic) ≡ false
  unfolding build choice_of
  build-IsNew b allowed =
      let n = interest_recall_count b child in
      rw allowed (second_choice-IsNew n _ _ _ (first_choice-IsNew n _ _ _ _ _ _ _) allowed)

  -- Once an opening that recalled a topic was recorded, no later opening of the child recalls the topic
  -- again, whatever openings were recorded in between.
  pub topic_once :
      (policy : OpeningPolicy) (policies : List (String × OpeningPolicy)) (b : OpeningPolicyBuilder)
      → policy.seed_recall_allowed ≡ true
      → is_some_topic policy.seed_topic ≡ true
      → let next =
          build to_int now store child p period
            (record_all policies (record_policy_used child policy b)) in
        not next.seed_recall_allowed || not (text_is policy.seed_topic next.seed_topic) ≡ true
  topic_once policy policies b allowed topic =
      not_both next.seed_recall_allowed (text_is policy.seed_topic next.seed_topic)
        policy.seed_topic next.seed_topic (λ t. ltb 0 (interest_recall_count after child t))
        (text_is→eq policy.seed_topic next.seed_topic) (build-IsNew after) counted
    where
      after : OpeningPolicyBuilder
      after = record_all policies (record_policy_used child policy b)

      next : OpeningPolicy
      next = build to_int now store child p period after

      counted : ltb 0 (interest_recall_count after child policy.seed_topic) ≡ true
      counted = count-IsCounted child policy.seed_topic after topic (
          record_all-IsCounted (child, policy.seed_topic) policies
            (record_policy_used child policy b) (recalled-IsCounted child policy b allowed topic))
