-- ===== src/Registry/Calls.antt =====
-- model_registry.py, `generate`: what a request is sent to if it is blocked, or in a runtime without mocks, and
-- by the registry of the program.
use ai_child.Prelude.{
  ◌≡◌, true, false, not, ◌&&◌, ◌||◌, Option, none, some, String, Dict, All, str_eq, lookup,
  if◌then◌else◌, arith, refl, if_of,
}
use ai_child.Prelude.Sorting.{values, IfSome, All-values-lookup}
use ai_child.PyText.{PyText}
use ai_child.Guards.{Verdict}
use ai_child.Guards.Model.{ModelTaskType, ModelProfile, validate_model}
use ai_child.Guards.Verdicts.{is_accepted}
use ai_child.Registry.{ModelError, ModelRequest, BaseModelProvider, Result, ModelRegistry}
use ai_child.Registry.Lookup.{
  is_mock, get_primary_profile, get_profile, provider_for_profile, fallback_profile_for,
  mock_fallback_profile_for, profile_name_of, default_mock_profile_name, named_fallback,
  first_profile, mock_of_task, usable_profile,
}
use ai_child.Registry.Generate.{
  fall_back_blocked, call_guarded, call_provider, generate_under, generate,
}
use ai_child.Registry.Defaults.{default_profiles, default_registry}
use ai_child.Registry.Guarded.{
  sent, send_to_fallback-All, IfReturned, generate-All, IsAllowed, IsAllowedMock, only_if-keeps,
  IfSome-mono, fallback_is_allowed, mock_fallback_is_mock,
}

module _ (lower : PyText → PyText) (r : ModelRegistry) (q : ModelRequest) where
  blocked-IsAllowedMock :
      (p : ModelProfile) (provider : BaseModelProvider) (v : Verdict)
      → is_accepted v ≡ false
      → All (IsAllowedMock r) (sent (call_guarded lower r q p provider v))
  unfolding call_guarded fall_back_blocked
  blocked-IsAllowedMock p provider Verdict.accepted h = ground (arith, h)
  blocked-IsAllowedMock p provider (Verdict.blocked reasons) h =
      send_to_fallback-All (IsAllowedMock r) lower r q _ _ _ _ tt
        (mock_fallback_is_mock r p q.task_type)

  -- A request that the guard blocks for the primary profile of its task is sent to mocks only, and only in a
  -- runtime that allows them.
  pub blocked_stays_inside :
      (p : ModelProfile) (provider : BaseModelProvider)
      → get_primary_profile r q.task_type ≡ Result.returned p
      → provider_for_profile r p ≡ Result.returned provider
      → is_accepted (validate_model lower q.metadata p) ≡ false
      → All (λ f. is_mock f && r.allow_mock_runtime ≡ true) (sent (generate lower r q))
  unfolding generate generate_under call_provider
  blocked_stays_inside p provider primary found blocked =
      rw primary (rw found (blocked-IsAllowedMock p provider _ blocked))

  -- A request whose primary profile is no mock is sent to a mock only in a runtime that allows them.
  pub mocks_are_allowed :
      (p : ModelProfile)
      → get_primary_profile r q.task_type ≡ Result.returned p
      → is_mock p ≡ false
      → All (λ f. not (is_mock f) || r.allow_mock_runtime ≡ true) (sent (generate lower r q))
  mocks_are_allowed p primary real = generate-All (IsAllowed r) lower r q (
      rw primary (
        fallback_is_allowed r p q.task_type,
        λ _. ground (arith, real),
        IfSome-mono (IsAllowedMock r) (IsAllowed r) (mock_fallback_profile_for r p q.task_type)
            (λ f h. ground arith) (mock_fallback_is_mock r p q.task_type),
      ))

module _ (lower : PyText → PyText) (getenv : String → Option String)
    (providers : Dict BaseModelProvider) (q : ModelRequest) where
  abbrev registry : ModelRegistry
  registry = default_registry lower getenv providers

  -- a profile that the guard lets the request through for
  abbrev IsGuarded : ModelProfile → Type 0
  IsGuarded f = is_accepted (validate_model lower q.metadata f) ≡ true

  mock-IsGuarded : (f : ModelProfile) → is_mock f ≡ true → IsGuarded f
  unfolding validate_model
  mock-IsGuarded f h = ground (arith, h)

  default_mock :
      (task : ModelTaskType)
      → IfSome IsGuarded (lookup (default_mock_profile_name task) registry.profiles)
  unfolding default_mock_profile_name default_registry default_profiles lookup validate_model
  default_mock ModelTaskType.child_chat = refl
  default_mock ModelTaskType.intent_classification = refl
  default_mock ModelTaskType.safety_classification = refl
  default_mock ModelTaskType.memory_extraction = refl
  default_mock ModelTaskType.parent_report = refl
  default_mock ModelTaskType.vision = refl
  default_mock ModelTaskType.ocr = refl

  -- a profile that names no fallback
  abbrev NamesNone : ModelProfile → Type 0
  NamesNone p = p.fallback_profile_name ≡ none

  default_profiles-NamesNone : All NamesNone (values registry.profiles)
  unfolding default_registry default_profiles values
  default_profiles-NamesNone =
      (refl, (refl, (refl, (refl, (refl, (refl, (refl, (refl, (refl, (refl, (refl, tt)))))))))))

  NamesNone-sound :
      (p : ModelProfile)
      → NamesNone p
      → IfSome IsGuarded (fallback_profile_for registry p q.task_type)
  unfolding fallback_profile_for named_fallback first_profile mock_of_task usable_profile
  NamesNone-sound p h =
      let name = default_mock_profile_name q.task_type in
      rw h (
        if_of (IfSome IsGuarded) (str_eq name p.profile_name) (λ _. tt)
          (λ _.
            only_if-keeps IsGuarded _ (lookup name registry.profiles) (default_mock q.task_type)))

  -- what is asked of the primary profile
  abbrev IfSound : Result ModelProfile → Type 0
  IfSound = IfReturned IsGuarded lower registry q

  named-IfSound : (name : String) → IfSound (get_profile registry name)
  unfolding get_profile
  named-IfSound name =
      by_profile (lookup name registry.profiles)
        (All-values-lookup NamesNone name registry.profiles default_profiles-NamesNone)
    where
      by_profile :
          (o : Option ModelProfile)
          → IfSome NamesNone o
          → IfSound (elim o as (λ _. Result ModelProfile) [
            | none ↦ Result.raised ModelError.profile_not_found
            | some p ↦ Result.returned p
          ])
      by_profile none h = tt
      by_profile (some p) h = (
        NamesNone-sound p h,
        λ accepted. accepted,
        IfSome-mono (IsAllowedMock registry) IsGuarded
            (mock_fallback_profile_for registry p q.task_type)
            (λ f m. mock-IsGuarded f (ground arith)) (mock_fallback_is_mock registry p q.task_type),
      )

  primary-IfSound : IfSound (get_primary_profile registry q.task_type)
  unfolding get_primary_profile
  primary-IfSound = by_name (profile_name_of q.task_type registry.task_profile_map)
    where
      by_name :
          (o : Option String)
          → IfSound (elim o as (λ _. Result ModelProfile) [
            | none ↦ Result.raised ModelError.profile_not_found
            | some name ↦
                if str_eq name ""
                then Result.raised ModelError.profile_not_found
                else get_profile registry name
          ])
      by_name none = tt
      by_name (some name) = if_of IfSound (str_eq name "") (λ _. tt) (λ _. named-IfSound name)

  -- With the profiles of the program, whatever the environment and the providers are, a request is sent only
  -- under profiles for which the guard lets it through: fallbacks included.
  pub default_calls_are_guarded :
      All
        (λ f. is_accepted (validate_model lower q.metadata f) ≡ true)
        (sent (generate lower (default_registry lower getenv providers) q))
  default_calls_are_guarded = generate-All IsGuarded lower registry q primary-IfSound
