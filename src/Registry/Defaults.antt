-- ===== src/Registry/Defaults.antt =====
-- model_registry.py: the profiles and the map of a registry that is given none. The environment is an argument.
use ai_child.Prelude.{
  Bool, true, false, List, [], ◌∷◌, Option, none, some, String, any, str_eq, Dict, if◌then◌else◌,
}
use ai_child.PyText.{PyText, codes, strip, text_is}
use ai_child.Guards.Model.{ModelProviderType, ModelTaskType, ModelProfile}
use ai_child.Registry.{BaseModelProvider, ModelRegistry}

module _ (lower : PyText → PyText) (getenv : String → Option String) where
  -- _env_bool, where the default is False
  unfoldable pub env_bool : String → Bool
  unfolding strip text_is
  env_bool name = elim (getenv name) [
    | none ↦ false
    | some raw ↦
        any (text_is (lower (strip (codes raw))))
          (codes "1" ∷ codes "true" ∷ codes "yes" ∷ codes "on" ∷ [])
  ]

  -- _mock_profile
  unfoldable pub mock_profile : String → ModelTaskType → Bool → ModelProfile
  mock_profile name task vision = record {
    profile_name = name;
    provider_name = "mock";
    provider_type = ModelProviderType.mock;
    task_type = task;
    data_policy = record {
      allow_child_data = true;
      allow_image = vision;
      allow_audio = false;
      external_transmission = false;
      retention_policy_checked = true;
    };
    enabled = true;
    fallback_profile_name = none;
  }

  -- _mimo_profile
  unfoldable pub mimo_profile : String → ModelTaskType → ModelProfile
  unfolding env_bool
  mimo_profile name task = record {
    profile_name = name;
    provider_name = "mimo";
    provider_type = ModelProviderType.openai_compatible;
    task_type = task;
    data_policy = record {
      allow_child_data = env_bool "CHILD_AI_MIMO_ALLOW_CHILD_DATA";
      allow_image = env_bool "CHILD_AI_MIMO_ALLOW_IMAGE";
      allow_audio = env_bool "CHILD_AI_MIMO_ALLOW_AUDIO";
      external_transmission = true;
      retention_policy_checked = env_bool "CHILD_AI_MIMO_RETENTION_POLICY_CHECKED";
    };
    enabled = env_bool "CHILD_AI_MIMO_ENABLED";
    fallback_profile_name = none;
  }

  -- _default_profiles
  unfoldable pub default_profiles : Dict ModelProfile
  unfolding mock_profile mimo_profile
  default_profiles =
      ("child_chat_primary", mock_profile "child_chat_primary" ModelTaskType.child_chat false)
      ∷ ("mimo_child_chat", mimo_profile "mimo_child_chat" ModelTaskType.child_chat)
      ∷ (
        "intent_classifier_mock",
        mock_profile "intent_classifier_mock" ModelTaskType.intent_classification false,
      )
      ∷ (
        "safety_classifier_mock",
        mock_profile "safety_classifier_mock" ModelTaskType.safety_classification false,
      )
      ∷ (
        "memory_extractor_mock",
        mock_profile "memory_extractor_mock" ModelTaskType.memory_extraction false,
      )
      ∷ ("parent_report_mock", mock_profile "parent_report_mock" ModelTaskType.parent_report false)
      ∷ ("mimo_parent_report", mimo_profile "mimo_parent_report" ModelTaskType.parent_report)
      ∷ ("vision_mock", mock_profile "vision_mock" ModelTaskType.vision true)
      ∷ ("ocr_mock", mock_profile "ocr_mock" ModelTaskType.ocr true)
      ∷ ("mimo_vision", mimo_profile "mimo_vision" ModelTaskType.vision)
      ∷ ("mimo_ocr", mimo_profile "mimo_ocr" ModelTaskType.ocr)
      ∷ []

  -- _env_provider_requested
  unfoldable pub env_provider_requested : List String → Bool
  unfolding strip text_is
  env_provider_requested [] = true
  env_provider_requested (name ∷ names) =
      let rest = env_provider_requested names in
      elim (getenv name) [
        | none ↦ rest
        | some raw ↦
            if text_is (strip (codes raw)) []
            then rest
            else text_is (lower (strip (codes raw))) (codes "mimo")
      ]

  -- `value or other`
  abbrev pub text_or : Option String → String → String
  text_or none other = other
  text_or (some value) other = if str_eq value "" then other else value

  -- the name of a profile: from the environment, of MiMo if that is asked for, or else of a mock
  unfoldable pub env_profile : String → Bool → String → String → String
  env_profile name requested mimo mock = text_or (getenv name) (if requested then mimo else mock)

  -- os.getenv("CHILD_AI_MODEL_PROVIDER", "mimo") == "mimo"
  unfoldable pub is_mimo_chat : Bool
  is_mimo_chat = elim (getenv "CHILD_AI_MODEL_PROVIDER") [
    | none ↦ true
    | some raw ↦ str_eq raw "mimo"
  ]

  -- _default_task_profile_map
  unfoldable pub default_profile_name : ModelTaskType → String
  unfolding env_profile is_mimo_chat env_provider_requested
  default_profile_name ModelTaskType.child_chat =
      env_profile "CHILD_AI_CHILD_CHAT_PROFILE" is_mimo_chat "mimo_child_chat" "child_chat_primary"
  default_profile_name ModelTaskType.intent_classification = "intent_classifier_mock"
  default_profile_name ModelTaskType.safety_classification = "safety_classifier_mock"
  default_profile_name ModelTaskType.memory_extraction = "memory_extractor_mock"
  default_profile_name ModelTaskType.parent_report =
      env_profile "CHILD_AI_PARENT_REPORT_PROFILE"
        (env_provider_requested
          ("CHILD_AI_PARENT_REPORT_PROVIDER" ∷ "CHILD_AI_MODEL_PROVIDER" ∷ []))
        "mimo_parent_report" "parent_report_mock"
  default_profile_name ModelTaskType.vision =
      env_profile "CHILD_AI_VISION_PROFILE"
        (env_provider_requested ("CHILD_AI_VISION_PROVIDER" ∷ "CHILD_AI_MODEL_PROVIDER" ∷ []))
        "mimo_vision" "vision_mock"
  default_profile_name ModelTaskType.ocr =
      env_profile "CHILD_AI_OCR_PROFILE"
        (env_provider_requested ("CHILD_AI_OCR_PROVIDER" ∷ "CHILD_AI_VISION_PROVIDER" ∷ []))
        "mimo_ocr" "ocr_mock"

  unfoldable pub default_task_profile_map : List (ModelTaskType × String)
  unfolding default_profile_name
  default_task_profile_map =
      (ModelTaskType.child_chat, default_profile_name ModelTaskType.child_chat)
      ∷ (
        ModelTaskType.intent_classification,
        default_profile_name ModelTaskType.intent_classification,
      )
      ∷ (
        ModelTaskType.safety_classification,
        default_profile_name ModelTaskType.safety_classification,
      )
      ∷ (ModelTaskType.memory_extraction, default_profile_name ModelTaskType.memory_extraction)
      ∷ (ModelTaskType.parent_report, default_profile_name ModelTaskType.parent_report)
      ∷ (ModelTaskType.vision, default_profile_name ModelTaskType.vision)
      ∷ (ModelTaskType.ocr, default_profile_name ModelTaskType.ocr)
      ∷ []

  -- ModelRegistry(providers=...)
  unfoldable pub default_registry : Dict BaseModelProvider → ModelRegistry
  unfolding default_profiles default_task_profile_map env_bool
  default_registry providers = record {
    providers = providers;
    profiles = default_profiles;
    task_profile_map = default_task_profile_map;
    allow_mock_runtime = env_bool "CHILD_AI_ALLOW_MOCK_RUNTIME";
  }
