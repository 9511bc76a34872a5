-- ===== src/Opening/Choice.antt =====
-- backend/app/services/opening_policy.py: the two ladders of `build`, from what it reads to a choice.
use ai_child.Prelude.{
  Bool, true, false, not, ◌&&◌, ◌||◌, [], ◌∷◌, ◌++◌, Option, none, some, String, if◌then◌else◌,
}
use ai_child.PyText.{PyText, codes, contains_any}
use ai_child.Opening.{OpeningMode}
use ai_child.Opening.Parents.{is_exciting_topic}

-- the variables that the branches of build set
pub record Choice : Type 0 where
  pub mode : OpeningMode
  pub seed_topic : PyText
  pub recall_blocked : Bool
  pub seed_recall_allowed : Bool
  pub seed_recall_reason : PyText
  pub exciting_topic_deferred : Bool

abbrev pub chosen : OpeningMode → PyText → Bool → String → Choice
chosen mode topic blocked reason = record {
  mode = mode;
  seed_topic = topic;
  recall_blocked = blocked;
  seed_recall_allowed = false;
  seed_recall_reason = codes reason;
  exciting_topic_deferred = false;
}

-- a callback to a topic
abbrev pub callback : PyText → Bool → String → Choice
callback topic blocked reason = record (chosen OpeningMode.interest_callback topic blocked reason) {
  seed_recall_allowed = true;
}

abbrev pub is_default : OpeningMode → Bool
is_default OpeningMode.default_light = true
is_default _ = false

-- bool(topic)
abbrev pub is_some_topic : PyText → Bool
is_some_topic [] = false
is_some_topic (c ∷ topic) = true

-- the first ladder of build
unfoldable pub first_choice :
    (bedtime cooldown low : Bool)
    → (kind : Option PyText) → (seed profile : PyText) → (blocked profile_blocked : Bool) → Choice
first_choice bedtime cooldown low kind seed profile blocked profile_blocked =
    if bedtime
    then (if is_some_topic seed && is_exciting_topic seed
        then record (chosen OpeningMode.bedtime_defer_interest seed blocked
            "bedtime_defer_exciting_topic") { exciting_topic_deferred = true }
        else chosen OpeningMode.bedtime_closure seed blocked "bedtime_closure")
    else if cooldown
    then record (chosen OpeningMode.boundary_respect seed blocked "") {
      seed_recall_reason =
          codes "boundary_"
          ++ elim kind [ none ↦ codes "active" | some [] ↦ codes "active" | some (c ∷ k) ↦ c ∷ k ];
    }
    else if low
    then chosen OpeningMode.low_expression_support seed blocked "low_expression_state"
    else if not (is_some_topic seed)
    then (if is_some_topic profile && not (blocked || profile_blocked)
        then callback profile (blocked || profile_blocked) "profile_interest_seed"
        else chosen OpeningMode.default_light profile (blocked || profile_blocked) "no_seed")
    else chosen OpeningMode.default_light seed blocked "no_seed"

-- the second ladder of build
unfoldable pub second_choice : (last_recalled : Bool) → (hint : Option PyText) → Choice → Choice
second_choice last_recalled hint c =
    if is_default c.mode && is_some_topic c.seed_topic && not c.recall_blocked
    then callback c.seed_topic c.recall_blocked "low_sensitivity_interest_seed"
    else if is_default c.mode && c.recall_blocked
    then record c {
      seed_recall_reason =
          codes (if last_recalled then "consecutive_skip" else "recently_recalled");
    }
    else if is_default c.mode && elim hint [
      | none ↦ false
      | some text ↦ contains_any text ("家长" ∷ "爸爸妈妈" ∷ "爸爸" ∷ "妈妈" ∷ "一起告诉" ∷ [])
    ]
    then record c {
      mode = OpeningMode.parent_bridge_light;
      seed_recall_reason = codes "parent_bridge";
    }
    else c
