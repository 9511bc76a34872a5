-- ===== src/Guards/Speech.antt =====
-- tts_data_policy_guard.py, asr_data_policy_guard.py, and the settings that backend/app/services/asr_service.py
-- builds for the latter.
use ai_child.Prelude.{Bool, not, ◌&&◌, ◌++◌}
use ai_child.Guards.{Settings, Verdict, verdict_of, reason_if, is_given, effective_mimo_asr_api_key}

pub data TtsProviderName : Type 0 where
  mock : TtsProviderName
  mimo : TtsProviderName
  sherpa_onnx : TtsProviderName

-- TtsDataPolicyGuard.validate
unfoldable pub validate_tts : TtsProviderName → Settings → Bool → Verdict
validate_tts TtsProviderName.mock s contains_child_text = Verdict.accepted
validate_tts TtsProviderName.sherpa_onnx s contains_child_text = Verdict.accepted
validate_tts TtsProviderName.mimo s contains_child_text = verdict_of (
    reason_if (not s.mimo_tts_enabled) "mimo_tts_disabled"
    ++ reason_if (not (is_given s.mimo_tts_api_key)) "missing_mimo_tts_api_key"
    ++ reason_if (contains_child_text && not s.mimo_tts_allow_child_text) "child_text_not_allowed"
    ++ reason_if (not s.mimo_tts_retention_policy_checked) "retention_policy_not_checked")

pub data AsrProviderName : Type 0 where
  mock : AsrProviderName
  mimo : AsrProviderName
  local_sensevoice : AsrProviderName

pub record AsrDataPolicySettings : Type 0 where
  pub provider : AsrProviderName
  pub provider_enabled : Bool
  pub api_key_present : Bool
  pub allow_child_audio : Bool
  pub retention_policy_checked : Bool
  pub no_training_confirmed : Bool

-- AsrDataPolicyGuard.validate
unfoldable pub validate_asr : AsrDataPolicySettings → Verdict
validate_asr a = elim a.provider [
  | AsrProviderName.mock ↦ Verdict.accepted
  | AsrProviderName.local_sensevoice ↦ Verdict.accepted
  | AsrProviderName.mimo ↦ verdict_of (
      reason_if (not a.provider_enabled) "mimo_asr_disabled"
      ++ reason_if (not a.api_key_present) "missing_mimo_asr_api_key"
      ++ reason_if (not a.allow_child_audio) "child_audio_not_allowed"
      ++ reason_if (not a.retention_policy_checked) "retention_policy_not_checked"
      ++ reason_if (not a.no_training_confirmed) "no_training_not_confirmed")
]

-- AsrService._build_policy_settings, from the name of the provider and whether it is enabled
unfoldable pub build_policy_settings : Settings → AsrProviderName → Bool → AsrDataPolicySettings
build_policy_settings s provider enabled = record {
  provider = provider;
  provider_enabled = enabled;
  api_key_present = is_given (effective_mimo_asr_api_key s);
  allow_child_audio = s.mimo_asr_allow_child_audio;
  retention_policy_checked = s.mimo_asr_retention_policy_checked;
  no_training_confirmed = s.mimo_asr_no_training_confirmed;
}
