-- ===== src/Opening/Counts.antt =====
-- opening_policy.py: the counts of the topics that were recalled, under `record_policy_used`.
use ai_child.Prelude.{
  ℕ, ◌+◌, ◌≤◌, ◌≡◌, true, ◌&&◌, [], ◌∷◌, Option, none, some, String, ltb, insert, str_eq, eq_refl,
  eq_iff, if◌then◌else◌, arith, refl, if_of, Bool-cases, inl, inr, ap, sym, subst,
}
use ai_child.PyText.{text_is_refl, text_is→eq, PyText, text_is}
use ai_child.Opening.{OpeningPolicy, OpeningPolicyBuilder, Counts, count, set_count, same_topic}
use ai_child.Opening.Policy.{
  interest_recall_count, count_recall, count_boundary, record_policy_used,
}
use ai_child.Opening.Choice.{is_some_topic}

abbrev pub Topic : Type 0
Topic = String × PyText

pub same_topic→eq : (k j : Topic) → same_topic k j ≡ true → k ≡ j
same_topic→eq (child, topic) (child', topic') h =
    let e : str_eq child child' ≡ true = ground arith in
    let f : text_is topic topic' ≡ true = ground arith in
    cc ((eq_iff child child').0 e, text_is→eq topic topic' f)

pub same_topic_refl : (k : Topic) → same_topic k k ≡ true
same_topic_refl (child, topic) = ground (arith, eq_refl child, text_is_refl topic)

pub count-set_count :
    (k : Topic) (m : ℕ) (counts : Counts PyText)
    → count same_topic k (set_count same_topic k m counts) ≡ m
unfolding count set_count
count-set_count k m [] = ground (arith, same_topic_refl k)
count-set_count k m ((i, x) ∷ counts) =
    ground (arith, same_topic_refl k, count-set_count k m counts)

-- a topic that was counted stays counted
pub count-stays :
    (k j : Topic) (m : ℕ) (counts : Counts PyText)
    → 1 ≤ m
    → 1 ≤ count same_topic j counts
    → 1 ≤ count same_topic j (set_count same_topic k m counts)
unfolding count set_count
count-stays k j m [] hm h = ground arith
count-stays k j m ((i, x) ∷ counts) hm h = elim (Bool-cases (same_topic i k)) [
  | inl e ↦ rw e (replaced (same_topic→eq i k e))
  | inr e ↦
      rw e (
        behind (count same_topic j (set_count same_topic k m counts)) (count-stays k j m counts hm))
]
  where
    replaced : i ≡ k → 1 ≤ (if same_topic k j then m else count same_topic j counts)
    replaced f =
        let g : same_topic i j ≡ same_topic k j = ap (λ l. same_topic l j) f in ground (arith, g)

    behind :
        (n : ℕ) → (1 ≤ count same_topic j counts → 1 ≤ n) → 1 ≤ (if same_topic i j then x else n)
    behind n ih =
        if_of (λ y. 1 ≤ y) (same_topic i j) (λ e. ground (arith, e, h))
          (λ e. ih (ground (arith, e, h)))

-- the counts of topics after a record
pub recalls-record_policy_used :
    (child : String) (policy : OpeningPolicy) (b : OpeningPolicyBuilder)
    → (record_policy_used child policy b).interest_recall_counts
      ≡ (count_recall child policy b).interest_recall_counts
unfolding record_policy_used
recalls-record_policy_used child policy b = kept policy.boundary_kind
  where
    noted : OpeningPolicyBuilder
    noted =
        let counted = count_recall child policy b in
        record counted {
          last_opening_recalled =
              insert child policy.seed_recall_allowed counted.last_opening_recalled;
        }

    kept :
        (kind : Option PyText)
        → (count_boundary child kind policy noted).interest_recall_counts
          ≡ (count_recall child policy b).interest_recall_counts
    kept none = unfold count_boundary in refl
    kept (some kind) =
        unfold count_boundary in
        if_of
          (λ (x : OpeningPolicyBuilder).
            x.interest_recall_counts ≡ (count_recall child policy b).interest_recall_counts)
          (policy.boundary_cooldown_active && is_some_topic kind) (λ _. refl) (λ _. refl)

pub IsCounted : Topic → OpeningPolicyBuilder → Type 0
IsCounted j b = 1 ≤ count same_topic j b.interest_recall_counts

pub record-IsCounted :
    (j : Topic) (child : String) (policy : OpeningPolicy) (b : OpeningPolicyBuilder)
    → IsCounted j b
    → IsCounted j (record_policy_used child policy b)
unfolding IsCounted
record-IsCounted j child policy b h =
    subst (λ c. 1 ≤ count same_topic j c) (sym (recalls-record_policy_used child policy b)) counted
  where
    counted : 1 ≤ count same_topic j (count_recall child policy b).interest_recall_counts
    counted =
        unfold count_recall in
        if_of (λ (x : OpeningPolicyBuilder). 1 ≤ count same_topic j x.interest_recall_counts)
          (policy.seed_recall_allowed && is_some_topic policy.seed_topic)
          (λ _. count-stays (child, policy.seed_topic) j _ b.interest_recall_counts (omega arith) h)
          (λ _. h)

pub recalled-IsCounted :
    (child : String) (policy : OpeningPolicy) (b : OpeningPolicyBuilder)
    → policy.seed_recall_allowed ≡ true
    → is_some_topic policy.seed_topic ≡ true
    → IsCounted (child, policy.seed_topic) (record_policy_used child policy b)
unfolding IsCounted
recalled-IsCounted child policy b allowed topic =
    subst (λ c. 1 ≤ count same_topic (child, policy.seed_topic) c)
      (sym (recalls-record_policy_used child policy b)) counted
  where
    counted :
        1
        ≤ count same_topic
            (child, policy.seed_topic)
            (count_recall child policy b).interest_recall_counts
    counted =
        unfold count_recall in
        rw allowed (
          rw topic (
            omega (
              arith,
              count-set_count (child, policy.seed_topic)
                  (count same_topic (child, policy.seed_topic) b.interest_recall_counts + 1)
                  b.interest_recall_counts,
            )))

pub count-IsCounted :
    (child : String) (topic : PyText) (b : OpeningPolicyBuilder)
    → is_some_topic topic ≡ true
    → IsCounted (child, topic) b
    → ltb 0 (interest_recall_count b child topic) ≡ true
unfolding IsCounted interest_recall_count
count-IsCounted child [] b given h = ground arith
count-IsCounted child (c ∷ topic) b given h = ground (arith, h)
