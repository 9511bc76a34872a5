-- ===== src/Opening/Tests.antt =====
-- Openings of concrete children.
use ai_child.Prelude.{
  ℕ, ◌≡◌, true, false, not, ◌||◌, [], ◌∷◌, Option, none, lookup, lookup_or, refl,
}
use ai_child.Prelude.Sorting.{keep, values, sorted}
use ai_child.TimePeriod.{TimePeriod}
use ai_child.PyText.{PyText, codes, text_is, contains, contains_any, strip, join}
use ai_child.Memory.Service.{list_memories, list_by_child}
use ai_child.Opening.{OpeningPolicy, OpeningPolicyBuilder, count}
use ai_child.Opening.Relations.{
  latest, latest_interest_seed, latest_topic_boundary, latest_low_expression_state,
}
use ai_child.Opening.Parents.{
  ParentPolicy, PreferenceValue, profile_interest_seed, first_candidate, interest_candidates,
  is_exciting_topic, parent_goal_hint, parent_text,
}
use ai_child.Opening.Policy.{
  build, choice_of, seed_of, interest_recall_count, record_policy_used, is_boundary_active,
  boundary_info,
}
use ai_child.Opening.Choice.{second_choice, first_choice, is_some_topic}
use ai_child.Opening.Recalls.{no_recall_if_guarded}
use ai_child.Opening.Once.{topic_once, record_all}

-- int on texts that are no numbers
abbrev no_number : PyText → Option ℕ
no_number t = none

abbrev new_builder : OpeningPolicyBuilder
new_builder = record {
  interest_recall_counts = [];
  boundary_cooldown_counts = [];
  last_opening_recalled = [];
}

-- a child who likes trains
abbrev likes_trains : ParentPolicy
likes_trains = record {
  goals = [];
  parent_message_raw = [];
  communication_preferences = ("child_interests", PreferenceValue.texts (codes "小火车" ∷ [])) ∷ [];
}

abbrev opening : OpeningPolicy
opening = build no_number 1 [] "c1" likes_trains TimePeriod.after_school new_builder

opening_recalls : opening.seed_recall_allowed ≡ true
unfolding build choice_of second_choice first_choice is_boundary_active boundary_info seed_of
    latest_interest_seed latest_topic_boundary latest_low_expression_state latest keep list_memories
    list_by_child sorted values profile_interest_seed first_candidate interest_candidates
    is_exciting_topic lookup lookup_or interest_recall_count text_is contains contains_any strip
    count parent_goal_hint parent_text join
opening_recalls = refl

opening_topic : is_some_topic opening.seed_topic ≡ true
unfolding build choice_of second_choice first_choice is_boundary_active boundary_info seed_of
    latest_interest_seed latest_topic_boundary latest_low_expression_state latest keep list_memories
    list_by_child sorted values profile_interest_seed first_candidate interest_candidates
    is_exciting_topic lookup lookup_or interest_recall_count text_is contains contains_any strip
    count parent_goal_hint parent_text join
opening_topic = refl

no_recall_if_guarded_example :
    (build no_number 1 [] "c1" likes_trains TimePeriod.bedtime new_builder).seed_recall_allowed
    ≡ false
no_recall_if_guarded_example =
    no_recall_if_guarded no_number 1 [] "c1" likes_trains TimePeriod.bedtime new_builder refl

topic_once_example :
    let next =
      build no_number 3 [] "c1" likes_trains TimePeriod.after_school
        (record_all [] (record_policy_used "c1" opening new_builder)) in
    not next.seed_recall_allowed || not (text_is opening.seed_topic next.seed_topic) ≡ true
topic_once_example =
    topic_once no_number 3 [] "c1" likes_trains TimePeriod.after_school opening [] new_builder
      opening_recalls opening_topic
