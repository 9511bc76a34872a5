-- ===== src/Registry/Lookup.antt =====
-- model_registry.py: the lookups of profiles, of their providers and of their fallbacks.
use ai_child.Prelude.{
  Bool, true, false, ◌&&◌, List, [], ◌∷◌, Option, none, some, String, str_eq, lookup, if◌then◌else◌,
}
use ai_child.Guards.Model.{ModelProviderType, ModelTaskType, ModelProfile}
use ai_child.Registry.{ModelError, BaseModelProvider, Result, ModelRegistry, task_eq}

abbrev pub is_mock : ModelProfile → Bool
is_mock p = elim p.provider_type as (λ _. Bool) [
  | ModelProviderType.mock ↦ true
  | ModelProviderType.openai_compatible ↦ false
]

-- task_profile_map.get(task_type)
unfoldable pub profile_name_of : ModelTaskType → List (ModelTaskType × String) → Option String
unfolding task_eq
profile_name_of task [] = none
profile_name_of task ((t, name) ∷ names) =
    if task_eq t task then some name else profile_name_of task names

-- _default_mock_task_profile_map, by the task
unfoldable pub default_mock_profile_name : ModelTaskType → String
default_mock_profile_name ModelTaskType.child_chat = "child_chat_primary"
default_mock_profile_name ModelTaskType.intent_classification = "intent_classifier_mock"
default_mock_profile_name ModelTaskType.safety_classification = "safety_classifier_mock"
default_mock_profile_name ModelTaskType.memory_extraction = "memory_extractor_mock"
default_mock_profile_name ModelTaskType.parent_report = "parent_report_mock"
default_mock_profile_name ModelTaskType.vision = "vision_mock"
default_mock_profile_name ModelTaskType.ocr = "ocr_mock"

-- the first of two that is there
unfoldable pub first_profile : Option ModelProfile → Option ModelProfile → Option ModelProfile
first_profile none second = second
first_profile (some p) second = some p

-- the profile under the fallback name, if it passes a test
unfoldable pub named_fallback : (String → Option ModelProfile) → ModelProfile → Option ModelProfile
named_fallback find p = elim p.fallback_profile_name [
  | none ↦ none
  | some name ↦ if str_eq name "" then none else find name
]

-- the mock profile of the task, if it is another one and passes a test
unfoldable pub mock_of_task :
    (String → Option ModelProfile) → ModelProfile → ModelTaskType → Option ModelProfile
unfolding default_mock_profile_name
mock_of_task find p task =
    let name = default_mock_profile_name task in
    if str_eq name p.profile_name then none else find name

abbrev pub only_if : (ModelProfile → Bool) → Option ModelProfile → Option ModelProfile
only_if test none = none
only_if test (some p) = if test p then some p else none

module _ (r : ModelRegistry) where
  -- _get_profile
  unfoldable pub get_profile : String → Result ModelProfile
  unfolding lookup
  get_profile name = elim (lookup name r.profiles) [
    | none ↦ Result.raised ModelError.profile_not_found
    | some p ↦ Result.returned p
  ]

  -- _get_primary_profile; a name that is empty is none
  unfoldable pub get_primary_profile : ModelTaskType → Result ModelProfile
  unfolding profile_name_of get_profile
  get_primary_profile task = elim (profile_name_of task r.task_profile_map) [
    | none ↦ Result.raised ModelError.profile_not_found
    | some name ↦
        if str_eq name "" then Result.raised ModelError.profile_not_found else get_profile name
  ]

  -- _provider_for_profile
  unfoldable pub provider_for_profile : ModelProfile → Result BaseModelProvider
  unfolding lookup
  provider_for_profile p =
      if p.enabled
      then elim (lookup p.provider_name r.providers) [
        | none ↦ Result.raised ModelError.provider_not_found
        | some provider ↦
            if provider.enabled then Result.returned provider else Result.raised ModelError.disabled
      ]
      else Result.raised ModelError.disabled

  -- _profile_allowed_for_runtime
  unfoldable pub profile_allowed_for_runtime : ModelProfile → Bool
  profile_allowed_for_runtime p = if is_mock p then r.allow_mock_runtime else true

  -- the test of _fallback_profile_for
  unfoldable pub usable_profile : String → Option ModelProfile
  unfolding profile_allowed_for_runtime lookup
  usable_profile name =
      only_if (λ p. p.enabled && profile_allowed_for_runtime p) (lookup name r.profiles)

  -- _fallback_profile_for
  unfoldable pub fallback_profile_for : ModelProfile → ModelTaskType → Option ModelProfile
  unfolding first_profile named_fallback mock_of_task usable_profile
  fallback_profile_for p task =
      first_profile (named_fallback usable_profile p) (mock_of_task usable_profile p task)

  -- the provider of a profile is registered and enabled
  unfoldable pub has_provider : ModelProfile → Bool
  unfolding lookup
  has_provider p = elim (lookup p.provider_name r.providers) [
    | none ↦ false
    | some provider ↦ provider.enabled
  ]

  -- _enabled_mock_profile
  unfoldable pub enabled_mock_profile : String → Option ModelProfile
  unfolding has_provider lookup
  enabled_mock_profile name =
      only_if (λ p. p.enabled && is_mock p && has_provider p) (lookup name r.profiles)

  -- _mock_fallback_profile_for
  unfoldable pub mock_fallback_profile_for : ModelProfile → ModelTaskType → Option ModelProfile
  unfolding first_profile named_fallback mock_of_task enabled_mock_profile
  mock_fallback_profile_for p task =
      if r.allow_mock_runtime
      then first_profile (named_fallback enabled_mock_profile p)
          (mock_of_task enabled_mock_profile p task)
      else none

  -- select_profile, behind the lookup of the provider
  unfoldable pub select_usable :
      ModelProfile → ModelTaskType → Result BaseModelProvider → Result ModelProfile
  unfolding fallback_profile_for
  select_usable p task (Result.returned provider) = Result.returned p
  select_usable p task (Result.raised e) = elim (fallback_profile_for p task) [
    | none ↦ Result.raised e
    | some fallback ↦ Result.returned fallback
  ]

  -- select_profile
  unfoldable pub select_profile : ModelTaskType → Result ModelProfile
  unfolding get_primary_profile provider_for_profile select_usable
  select_profile task = elim (get_primary_profile task) [
    | Result.raised e ↦ Result.raised e
    | Result.returned p ↦ select_usable p task (provider_for_profile p)
  ]
