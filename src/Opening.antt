-- ===== src/Opening.antt =====
-- backend/app/services/opening_policy.py: how a conversation is opened, from the memories of a child, the
-- parent policy and the time of day. A topic that is None or empty is the empty text.
pub mod Relations
pub mod Parents
pub mod Choice
pub mod Policy
pub mod Recalls
pub mod Counts
pub mod Once
mod Tests
use ai_child.Prelude.{
  ℕ, Bool, true, false, not, ◌&&◌, List, [], ◌∷◌, Option, none, some, String, str_eq, if◌then◌else◌,
  Dict,
}
use ai_child.PyText.{PyText, text_is}
use Parents.{AgeBand}

pub data OpeningMode : Type 0 where
  default_light : OpeningMode
  interest_callback : OpeningMode
  boundary_respect : OpeningMode
  bedtime_closure : OpeningMode
  bedtime_defer_interest : OpeningMode
  parent_bridge_light : OpeningMode
  low_expression_support : OpeningMode

-- OpeningMode(...).value
unfoldable pub mode_value : OpeningMode → String
mode_value OpeningMode.default_light = "default_light"
mode_value OpeningMode.interest_callback = "interest_callback"
mode_value OpeningMode.boundary_respect = "boundary_respect"
mode_value OpeningMode.bedtime_closure = "bedtime_closure"
mode_value OpeningMode.bedtime_defer_interest = "bedtime_defer_interest"
mode_value OpeningMode.parent_bridge_light = "parent_bridge_light"
mode_value OpeningMode.low_expression_support = "low_expression_support"

-- The policy, without the companion's fields, which the opening service sets, and what is the same in every
-- policy: must_offer_topic_switch, must_allow_no_chat and forbidden_phrases.
pub record OpeningPolicy : Type 0 where
  pub mode : OpeningMode
  pub age_band : AgeBand
  pub max_chars : ℕ
  pub max_spoken_options : ℕ
  pub seed_topic : PyText
  pub seed_recall_allowed : Bool
  pub seed_recall_reason : PyText
  pub boundary_kind : Option PyText
  pub boundary_topic : PyText
  pub boundary_cooldown_active : Bool
  pub bedtime : Bool
  pub exciting_topic_deferred : Bool
  pub prefer_parent_bridge : Bool
  pub parent_goal_hint : Option PyText
  pub prompt_rules : List PyText

-- counts under a child and texts
abbrev pub Counts : Type 0 → Type 0
Counts K = List ((String × K) × ℕ)

pub record OpeningPolicyBuilder : Type 0 where
  pub interest_recall_counts : Counts PyText
  pub boundary_cooldown_counts : Counts (PyText × PyText)
  pub last_opening_recalled : Dict Bool

-- whether two keys are the same
abbrev pub same_topic : String × PyText → String × PyText → Bool
same_topic (child, topic) (child', topic') = str_eq child child' && text_is topic topic'

abbrev pub same_boundary : String × (PyText × PyText) → String × (PyText × PyText) → Bool
same_boundary (child, (kind, topic)) (child', (kind', topic')) =
    str_eq child child' && (text_is kind kind' && text_is topic topic')

module _ {K : Type 0} (same : String × K → String × K → Bool) where
  -- counts.get(key, 0)
  unfoldable pub count : String × K → Counts K → ℕ
  count key [] = 0
  count key ((k, n) ∷ counts) = if same k key then n else count key counts

  -- counts[key] = n
  unfoldable pub set_count : String × K → ℕ → Counts K → Counts K
  set_count key n [] = (key, n) ∷ []
  set_count key n ((k, m) ∷ counts) =
      if same k key then (key, n) ∷ counts else (k, m) ∷ set_count key n counts
