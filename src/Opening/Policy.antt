-- ===== src/Opening/Policy.antt =====
-- backend/app/services/opening_policy.py: `build` and `record_policy_used` of OpeningPolicyBuilder.
use ai_child.Prelude.{
  ℕ, ◌+◌, ◌/◌, Bool, true, false, ◌&&◌, ◌||◌, List, [], ◌∷◌, ◌++◌, Option, none, some, String, ltb,
  lookup, lookup_or, insert, if◌then◌else◌,
}
use Prim.Native.Nat.{◌%◌}
use ai_child.TimePeriod.{TimePeriod}
use ai_child.PyText.{PyText, codes, text_is, contains_any}
use ai_child.Memory.{MemoryItem}
use ai_child.Memory.Service.{Store}
use ai_child.Opening.{
  OpeningMode, OpeningPolicy, OpeningPolicyBuilder, mode_value, count, set_count, same_topic,
  same_boundary,
}
use ai_child.Opening.Relations.{
  memory_relationship_topic, memory_relationship_metadata, latest_interest_seed,
  latest_topic_boundary, latest_low_expression_state,
}
use ai_child.Opening.Parents.{
  ParentPolicy, parent_text, age_band, age_limits, parent_goal_hint, no_school_check,
  profile_interest_seed,
}
use ai_child.Opening.Choice.{Choice, is_some_topic, first_choice, second_choice}

-- _boundary_info
unfoldable pub boundary_info : Option MemoryItem → Option PyText × PyText
boundary_info none = (none, [])
boundary_info (some boundary) =
    let topic = memory_relationship_topic boundary in
    (
      elim (lookup "boundary_kind" (memory_relationship_metadata boundary)) [
        | some kind ↦ some kind
        | none ↦ some (
            if text_is topic (codes "睡前收尾")
            then codes "bedtime_close"
            else if text_is topic (codes "换话题边界")
            then codes "topic_change"
            else codes "topic_boundary")
      ],
      topic,
    )

-- `topic or "*"`
unfoldable pub topic_or_star : PyText → PyText
topic_or_star [] = codes "*"
topic_or_star (c ∷ topic) = c ∷ topic

-- _boundary_cooldown_active
unfoldable pub is_boundary_active : OpeningPolicyBuilder → String → Option PyText × PyText → Bool
unfolding topic_or_star
is_boundary_active b child (none, topic) = false
is_boundary_active b child (some kind, topic) =
    let used =
      count same_boundary (child, (kind, topic_or_star topic)) b.boundary_cooldown_counts in
    if text_is kind (codes "topic_change")
    then ltb used 3
    else if text_is kind (codes "bedtime_close")
    then ltb used 1
    else if text_is kind (codes "refusal")
    then true
    else ltb used 1

-- _interest_recall_count
unfoldable pub interest_recall_count : OpeningPolicyBuilder → String → PyText → ℕ
interest_recall_count b child [] = 0
interest_recall_count b child (c ∷ topic) =
    count same_topic (child, c ∷ topic) b.interest_recall_counts

-- str(n) for n < 100
unfoldable pub digits : ℕ → PyText
digits n = if ltb n 10 then (b'0' + n) ∷ [] else (b'0' + n / 10) ∷ (b'0' + n % 10) ∷ []

abbrev pub rule_if : Bool → PyText → List PyText
rule_if holds rule = if holds then rule ∷ [] else []

-- the prompt_rules of _policy
unfoldable pub prompt_rules :
    OpeningMode
    → (max_chars max_spoken_options : ℕ) → PyText
    → (recall bedtime cooldown no_school : Bool) → Option PyText
    → List PyText
prompt_rules mode max_chars max_spoken_options topic recall bedtime cooldown no_school hint =
    (codes "opening_mode=" ++ codes (mode_value mode))
      ∷ (codes "max_chars=" ++ digits max_chars)
      ∷ (codes "max_spoken_options=" ++ digits max_spoken_options)
      ∷ codes "必须让孩子知道可以继续、换话题或不聊。"
      ∷ codes "不要暗示孩子必须延续上次话题。"
      ∷ codes "不要制造留存压力、奖励悬念、秘密关系或排他依赖。"
      ∷ rule_if (is_some_topic topic && recall) (codes "最多只轻轻回访一个低敏 topic：" ++ topic ++ codes "。")
    ++ rule_if bedtime (codes "睡前必须低刺激、短句、可收尾，不开启兴奋话题。")
    ++ rule_if cooldown (codes "尊重孩子上次表达的边界，不主动拉回旧话题。")
    ++ rule_if no_school (codes "家长要求不做日间经历查岗，不提固定场所。")
    ++ elim hint [ none ↦ [] | some text ↦ (codes "家长目标只能低压力转译：" ++ text) ∷ [] ]

abbrev pub is_bedtime : TimePeriod → Bool
is_bedtime TimePeriod.bedtime = true
is_bedtime _ = false

abbrev pub is_there : {A : Type 0} → Option A → Bool
is_there none = false
is_there (some a) = true

-- the topic of an interest, or none
unfoldable pub seed_of : Option MemoryItem → PyText
seed_of none = []
seed_of (some m) = memory_relationship_topic m

-- what build has chosen behind both ladders
unfoldable pub choice_of :
    ℕ → Store → String → ParentPolicy → TimePeriod → OpeningPolicyBuilder → Choice
choice_of now store child p period b =
    let seed = seed_of (latest_interest_seed now child store) in
    let info = boundary_info (latest_topic_boundary now child store) in
    let last = lookup_or false child b.last_opening_recalled in
    let profile = profile_interest_seed p info.1 in
    second_choice last (parent_goal_hint p (is_bedtime period)) (
      first_choice (is_bedtime period) (is_boundary_active b child info)
        (is_there (latest_low_expression_state now child store)) info.0 seed profile
        (ltb 0 (interest_recall_count b child seed) || last)
        (ltb 0 (interest_recall_count b child profile)))

module _ (to_int : PyText → Option ℕ) where
  -- build
  unfoldable pub build :
      ℕ → Store → String → ParentPolicy → TimePeriod → OpeningPolicyBuilder → OpeningPolicy
  unfolding choice_of
  build now store child p period b =
      let c = choice_of now store child p period b in
      let info = boundary_info (latest_topic_boundary now child store) in
      let limits = age_limits (age_band to_int p) in
      let hint = parent_goal_hint p (is_bedtime period) in
      let topic = if c.seed_recall_allowed || c.exciting_topic_deferred then c.seed_topic else [] in
      let cooldown = is_boundary_active b child info in
      record {
        mode = c.mode;
        age_band = age_band to_int p;
        max_chars = limits.0;
        max_spoken_options = limits.1;
        seed_topic = topic;
        seed_recall_allowed = c.seed_recall_allowed;
        seed_recall_reason = c.seed_recall_reason;
        boundary_kind = info.0;
        boundary_topic = info.1;
        boundary_cooldown_active = cooldown;
        bedtime = is_bedtime period;
        exciting_topic_deferred = c.exciting_topic_deferred;
        prefer_parent_bridge =
            is_bedtime period
            || contains_any (parent_text p) ("家长" ∷ "爸爸妈妈" ∷ "爸爸" ∷ "妈妈" ∷ "父母" ∷ []);
        parent_goal_hint = hint;
        prompt_rules =
            prompt_rules c.mode limits.0 limits.1 topic c.seed_recall_allowed (is_bedtime period)
              cooldown (no_school_check p) hint;
      }

-- record_policy_used: the count of the recalled topic
unfoldable pub count_recall : String → OpeningPolicy → OpeningPolicyBuilder → OpeningPolicyBuilder
count_recall child policy b =
    if policy.seed_recall_allowed && is_some_topic policy.seed_topic
    then record b {
      interest_recall_counts =
          set_count same_topic (child, policy.seed_topic)
            (count same_topic (child, policy.seed_topic) b.interest_recall_counts + 1)
            b.interest_recall_counts;
    }
    else b

-- record_policy_used: the count of the boundary
unfoldable pub count_boundary :
    String → Option PyText → OpeningPolicy → OpeningPolicyBuilder → OpeningPolicyBuilder
count_boundary child none policy b = b
count_boundary child (some kind) policy b =
    let key : String × (PyText × PyText) = (child, (kind, topic_or_star policy.boundary_topic)) in
    if policy.boundary_cooldown_active && is_some_topic kind
    then record b {
      boundary_cooldown_counts =
          set_count same_boundary key (count same_boundary key b.boundary_cooldown_counts + 1)
            b.boundary_cooldown_counts;
    }
    else b

-- record_policy_used
unfoldable pub record_policy_used :
    String → OpeningPolicy → OpeningPolicyBuilder → OpeningPolicyBuilder
unfolding count_recall count_boundary
record_policy_used child policy b =
    let counted = count_recall child policy b in
    count_boundary child policy.boundary_kind policy (record counted {
      last_opening_recalled = insert child policy.seed_recall_allowed counted.last_opening_recalled;
    })
