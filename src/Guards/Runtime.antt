-- ===== src/Guards/Runtime.antt =====
-- runtime_provider_guard.py: what a service for children needs before it starts. Whether a path of the
-- repository exists is an argument.
use ai_child.Prelude.{
  Bool, true, false, not, ◌&&◌, List, [], ◌∷◌, ◌++◌, String, str_eq, if◌then◌else◌,
}
use ai_child.PyText.{PyText, codes, strip, text_is}
use ai_child.Guards.{Settings, Verdict, verdict_of, reason_if, is_given, effective_mimo_asr_api_key}

-- _require_mimo_model_policy
unfoldable pub mimo_model_policy : Settings → Bool → List String
mimo_model_policy s requires_image =
    reason_if (not s.mimo_enabled) "CHILD_AI_MIMO_ENABLED"
    ++ reason_if (not (is_given s.mimo_api_key)) "CHILD_AI_MIMO_API_KEY"
    ++ reason_if (not s.mimo_allow_child_data) "CHILD_AI_MIMO_ALLOW_CHILD_DATA"
    ++ reason_if (requires_image && not s.mimo_allow_image) "CHILD_AI_MIMO_ALLOW_IMAGE"
    ++ reason_if (not s.mimo_retention_policy_checked) "CHILD_AI_MIMO_RETENTION_POLICY_CHECKED"

-- _require_mimo_asr_policy
unfoldable pub mimo_asr_policy : Settings → List String
mimo_asr_policy s =
    reason_if (not s.mimo_asr_enabled) "CHILD_AI_MIMO_ASR_ENABLED"
    ++ reason_if (not (is_given (effective_mimo_asr_api_key s))) "CHILD_AI_MIMO_ASR_API_KEY"
    ++ reason_if (not s.mimo_asr_allow_child_audio) "CHILD_AI_MIMO_ASR_ALLOW_CHILD_AUDIO"
    ++ reason_if (not s.mimo_asr_retention_policy_checked)
        "CHILD_AI_MIMO_ASR_RETENTION_POLICY_CHECKED"
    ++ reason_if (not s.mimo_asr_no_training_confirmed) "CHILD_AI_MIMO_ASR_NO_TRAINING_CONFIRMED"

-- a list without a value
unfoldable pub without_value : String → List String → List String
without_value v [] = []
without_value v (w ∷ values) =
    let rest = without_value v values in if str_eq w v then rest else w ∷ rest

-- list(dict.fromkeys(values))
unfoldable pub distinct : List String → List String
unfolding without_value
distinct [] = []
distinct (v ∷ values) = v ∷ without_value v (distinct values)

module _ (exists : PyText → Bool) where
  -- _require_mimo_tts_policy
  unfoldable pub mimo_tts_policy : Settings → List String
  mimo_tts_policy s =
      reason_if (not s.mimo_tts_enabled) "CHILD_AI_MIMO_TTS_ENABLED"
      ++ reason_if (not (is_given s.mimo_tts_api_key)) "CHILD_AI_MIMO_TTS_API_KEY"
      ++ reason_if (not s.mimo_tts_allow_child_text) "CHILD_AI_MIMO_TTS_ALLOW_CHILD_TEXT"
      ++ reason_if (not s.mimo_tts_retention_policy_checked)
          "CHILD_AI_MIMO_TTS_RETENTION_POLICY_CHECKED"
      ++ reason_if (not (exists s.xiaobaihu_voice_sample_path))
          "CHILD_AI_XIAOBAIHU_VOICE_SAMPLE_PATH"

  -- _require_local_sensevoice
  unfoldable pub local_sensevoice : Settings → List String
  local_sensevoice s =
      reason_if (not s.local_sensevoice_enabled) "CHILD_AI_LOCAL_SENSEVOICE_ENABLED"
      ++ reason_if (not (exists s.local_sensevoice_model_path))
          "CHILD_AI_LOCAL_SENSEVOICE_MODEL_PATH"
      ++ reason_if (not (exists s.local_sensevoice_tokens_path))
          "CHILD_AI_LOCAL_SENSEVOICE_TOKENS_PATH"

module _ (lower : PyText → PyText) where
  -- value.strip().lower() == name
  unfoldable pub names : PyText → String → Bool
  names value name = text_is (lower (strip value)) (codes name)

  -- _mock_provider_violations
  unfoldable pub mock_provider_violations : Settings → List String
  unfolding names
  mock_provider_violations s =
      reason_if (names s.model_provider "mock") "CHILD_AI_MODEL_PROVIDER"
      ++ reason_if (names s.vision_provider "mock") "CHILD_AI_VISION_PROVIDER"
      ++ reason_if (names s.tts_provider "mock") "CHILD_AI_TTS_PROVIDER"
      ++ reason_if (names s.asr_provider "mock") "CHILD_AI_ASR_PROVIDER"
      ++ reason_if (names s.asr_fallback_provider "mock") "CHILD_AI_ASR_FALLBACK_PROVIDER"

  module _ (exists : PyText → Bool) where
    -- _formal_provider_config_violations
    unfoldable pub formal_violations : Settings → List String
    unfolding distinct names
    formal_violations s = distinct (
        (if names s.model_provider "mimo" then mimo_model_policy s false else [])
        ++ (if names s.vision_provider "mimo" then mimo_model_policy s true else [])
        ++ (if names s.tts_provider "mimo" then mimo_tts_policy exists s else [])
        ++ (if names s.asr_provider "local_sensevoice" then local_sensevoice exists s else [])
        ++ (if names s.asr_provider "mimo" then mimo_asr_policy s else [])
        ++ (if names s.asr_fallback_provider "mimo" then mimo_asr_policy s else []))

    -- RuntimeProviderGuard.validate
    unfoldable pub validate_runtime : Settings → Verdict
    unfolding mock_provider_violations formal_violations
    validate_runtime s =
        if s.allow_mock_runtime
        then Verdict.accepted
        else verdict_of (mock_provider_violations s ++ formal_violations s)
