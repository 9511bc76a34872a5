-- ===== src/Registry/Tests.antt =====
-- The registry of the program in a concrete environment, and the theorems there.
use ai_child.Prelude.{
  ◌≡◌, true, ◌&&◌, ◌||◌, [], ◌∷◌, Option, none, some, String, Dict, All, map, str_eq, refl,
  if◌then◌else◌,
}
use ai_child.PyText.{PyText, codes}
use ai_child.Guards.Model.{
  ModelTaskType, ModelProfile, MetadataValue, validate_model, metadata_flag, model_reasons,
}
use ai_child.Guards.{verdict_of, reason_if}
use ai_child.Guards.Verdicts.{is_accepted}
use ai_child.Registry.{ModelRequest, Generated, BaseModelProvider, ModelRegistry}
use ai_child.Registry.Lookup.{is_mock, get_primary_profile, provider_for_profile}
use ai_child.Registry.Generate.{generate}
use ai_child.Registry.Defaults.{default_registry, mimo_profile}
use ai_child.Registry.Guarded.{sent}
use ai_child.Registry.Calls.{blocked_stays_inside, default_calls_are_guarded}

abbrev lower : PyText → PyText
lower text = text

-- MiMo and mocks are on, but a child's data may not go out
abbrev getenv : String → Option String
getenv name =
    if str_eq name "CHILD_AI_MIMO_ENABLED" || str_eq name "CHILD_AI_ALLOW_MOCK_RUNTIME"
    then some "true"
    else none

abbrev answer_of : String → ModelRequest → ModelProfile → Generated
answer_of name q p =
    Generated.answered (record { response_text = codes "ok"; provider_name = name; metadata = [] })

abbrev provider_of : String → BaseModelProvider
provider_of name = record { provider_name = name; enabled = true; generate = answer_of name }

abbrev providers : Dict BaseModelProvider
providers = ("mock", provider_of "mock") ∷ ("mimo", provider_of "mimo") ∷ []

abbrev registry : ModelRegistry
unfolding default_registry
registry = default_registry lower getenv providers

abbrev request : ModelRequest
request = record {
  task_type = ModelTaskType.child_chat;
  input_text = some (codes "你好");
  metadata = ("contains_child_data", MetadataValue.boolean true) ∷ [];
}

-- the request is blocked for MiMo and goes to the mock
sent_to_mock :
    map (λ (p : ModelProfile). p.profile_name) (sent (generate lower registry request))
    ≡ "child_chat_primary" ∷ []
unfolding registry generate verdict_of model_reasons reason_if metadata_flag
sent_to_mock = refl

abbrev chat_profile : ModelProfile
unfolding mimo_profile
chat_profile = mimo_profile lower getenv "mimo_child_chat" ModelTaskType.child_chat

blocked_stays_inside_example :
    All
      (λ f. is_mock f && registry.allow_mock_runtime ≡ true)
      (sent (generate lower registry request))
unfolding registry chat_profile get_primary_profile provider_for_profile validate_model verdict_of
    model_reasons reason_if metadata_flag
blocked_stays_inside_example =
    blocked_stays_inside lower registry request chat_profile (provider_of "mimo") refl refl refl

default_calls_are_guarded_example :
    All
      (λ f. is_accepted (validate_model lower request.metadata f) ≡ true)
      (sent (generate lower (default_registry lower getenv providers) request))
default_calls_are_guarded_example = default_calls_are_guarded lower getenv providers request
