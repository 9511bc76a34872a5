-- ===== src/Opening/Parents.antt =====
-- backend/app/services/opening_policy.py: what the opening takes from the parent policy of
-- backend/app/domain/schemas/parent_policy.py. The reading of a number by int is an argument.
use ai_child.Prelude.{
  ℕ, Bool, not, ◌&&◌, ◌||◌, List, [], ◌∷◌, ◌++◌, Option, none, some, String, leb, nat_eq, lookup,
  take, map, if◌then◌else◌, Dict,
}
use ai_child.Prelude.Sorting.{keep}
use ai_child.PyText.{PyText, codes, strip, text_is, contains, contains_any, join}

-- a value of communication_preferences
pub data PreferenceValue : Type 0 where
  text : PyText → PreferenceValue
  number : ℕ → PreferenceValue
  texts : List PyText → PreferenceValue
  other : PreferenceValue

-- what the opening reads of a ParentPolicy; a message that is None is empty
pub record ParentPolicy : Type 0 where
  pub goals : List PyText
  pub parent_message_raw : PyText
  pub communication_preferences : Dict PreferenceValue

-- _parent_text
unfoldable pub parent_text : ParentPolicy → PyText
parent_text p = strip p.parent_message_raw

pub data AgeBand : Type 0 where
  age_5_6 : AgeBand
  age_7_8 : AgeBand
  age_9_10 : AgeBand
  unknown : AgeBand

-- _age_limits: characters and spoken options
unfoldable pub age_limits : AgeBand → ℕ × ℕ
age_limits AgeBand.age_5_6 = (36, 2)
age_limits AgeBand.age_9_10 = (60, 3)
age_limits AgeBand.unknown = (42, 2)
age_limits AgeBand.age_7_8 = (48, 2)

-- the explicit band of _age_band; a list under age_band, which cannot be looked up in a set, is left out
unfoldable pub explicit_band : Option PreferenceValue → Option AgeBand
explicit_band (some (PreferenceValue.text t)) =
    if text_is t (codes "age_5_6")
    then some AgeBand.age_5_6
    else if text_is t (codes "age_7_8")
    then some AgeBand.age_7_8
    else if text_is t (codes "age_9_10")
    then some AgeBand.age_9_10
    else if text_is t (codes "unknown")
    then some AgeBand.unknown
    else none
explicit_band value = none

-- `a or b` on values
unfoldable pub value_or : Option PreferenceValue → Option PreferenceValue → Option PreferenceValue
value_or none b = b
value_or (some (PreferenceValue.text [])) b = b
value_or (some (PreferenceValue.texts [])) b = b
value_or (some (PreferenceValue.number n)) b =
    if nat_eq n 0 then b else some (PreferenceValue.number n)
value_or (some value) b = some value

-- int(raw_age); None is a TypeError or a ValueError
unfoldable pub age_of : (PyText → Option ℕ) → Option PreferenceValue → Option ℕ
age_of to_int (some (PreferenceValue.text t)) = to_int t
age_of to_int (some (PreferenceValue.number n)) = some n
age_of to_int value = none

unfoldable pub band_of_age : Option ℕ → AgeBand
band_of_age none = AgeBand.age_7_8
band_of_age (some age) =
    if leb age 6 then AgeBand.age_5_6 else if leb 9 age then AgeBand.age_9_10 else AgeBand.age_7_8

-- _age_band
unfoldable pub age_band : (PyText → Option ℕ) → ParentPolicy → AgeBand
unfolding explicit_band value_or age_of band_of_age
age_band to_int p =
    let get = λ (key : String). lookup key p.communication_preferences in
    elim (explicit_band (get "age_band")) [
      | some band ↦ band
      | none ↦ band_of_age (age_of to_int (value_or (get "child_age") (get "age")))
    ]

-- _parent_goal_hint
unfoldable pub parent_goal_hint : ParentPolicy → Bool → Option PyText
unfolding parent_text
parent_goal_hint p bedtime =
    let text = join (codes " ") (p.goals ++ (parent_text p ∷ [])) in
    if bedtime || contains_any text ("早点睡" ∷ "睡眠" ∷ "睡觉" ∷ "早睡" ∷ [])
    then some (codes "低刺激收束，必要时提醒可以告诉家长后去休息。")
    else if contains_any text ("学习" ∷ "作业" ∷ "题目" ∷ "复习" ∷ [])
    then some (codes "如果孩子主动提到学习，只提供一个小问题或帮他拆开一点。")
    else if contains_any text ("家长" ∷ "爸爸妈妈" ∷ "父母" ∷ "告诉爸爸" ∷ "告诉妈妈" ∷ [])
    then some (codes "这句话也可以告诉家长，小白狐只先听一点点。")
    else none

-- _no_school_check
unfoldable pub no_school_check : ParentPolicy → Bool
unfolding parent_text
no_school_check p = contains_any (parent_text p) ("不要查岗学校" ∷ "不要问学校" ∷ "别问学校" ∷ [])

-- text.replace(c, d) for two characters
unfoldable pub replaced : ℕ → ℕ → PyText → PyText
replaced c d t = map (λ x. if nat_eq x c then d else x) t

-- the letters in front of the first separator, and the parts behind it
unfoldable pub split_on_from : ℕ → PyText → PyText × List PyText
split_on_from sep [] = ([], [])
split_on_from sep (c ∷ t) =
    let rest = split_on_from sep t in
    if nat_eq c sep then ([], rest.0 ∷ rest.1) else (c ∷ rest.0, rest.1)

-- text.split(sep)
unfoldable pub split_on : ℕ → PyText → List PyText
unfolding split_on_from
split_on sep t = let rest = split_on_from sep t in rest.0 ∷ rest.1

abbrev pub exciting_topics : List String
exciting_topics = "跑步比赛" ∷ "比赛" ∷ "游戏" ∷ "恐龙大战" ∷ "冒险故事" ∷ "故事想象" ∷ "挑战" ∷ "任务" ∷ "奖励" ∷ []

-- _is_exciting_topic
unfoldable pub is_exciting_topic : PyText → Bool
is_exciting_topic topic = contains_any topic exciting_topics

-- the candidates of _profile_interest_seed
unfoldable pub interest_candidates : Option PreferenceValue → List PyText
unfolding replaced split_on
interest_candidates (some (PreferenceValue.text t)) =
    keep (λ item. not (text_is item []))
      (map strip (split_on 0xff0c (replaced 0x2c 0xff0c (replaced 0x3001 0xff0c t))))
interest_candidates (some (PreferenceValue.texts ts)) =
    keep (λ item. not (text_is item [])) (map strip ts)
interest_candidates value = []

-- the loop of _profile_interest_seed, where None is the empty text
unfoldable pub first_candidate : PyText → List PyText → PyText
unfolding is_exciting_topic
first_candidate boundary [] = []
first_candidate boundary (candidate ∷ candidates) =
    let rest = first_candidate boundary candidates in
    if (not (text_is boundary []) && contains boundary candidate) || is_exciting_topic candidate
    then rest
    else take 40 candidate

-- _profile_interest_seed
unfoldable pub profile_interest_seed : ParentPolicy → PyText → PyText
unfolding first_candidate interest_candidates
profile_interest_seed p boundary_topic =
    first_candidate (strip boundary_topic)
      (interest_candidates (lookup "child_interests" p.communication_preferences))
