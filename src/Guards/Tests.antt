-- ===== src/Guards/Tests.antt =====
-- The guards at concrete settings and requests.
use ai_child.Prelude.{Bool, true, false, ◌&&◌, ◌||◌, [], ◌∷◌, none, ◌≡◌, refl}
use ai_child.PyText.{PyText, codes, strip, text_is}
use ai_child.Guards.{Settings, Verdict, verdict_of, reason_if, is_given, effective_mimo_asr_api_key}
use ai_child.Guards.Model.{
  ModelProfile, ModelProviderType, ModelTaskType, MetadataValue, metadata_flag, validate_model,
}
use ai_child.Guards.Runtime.{
  mimo_model_policy, mimo_asr_policy, mimo_tts_policy, local_sensevoice, without_value,
  validate_runtime,
}
use ai_child.Guards.Verdicts.{is_accepted}
use ai_child.Guards.Startup.{may_send, no_mocks, providers_ready, validate_model_iff, started_iff}

-- str.lower on texts without capitals
abbrev same : PyText → PyText
same t = t

-- a disk on which every path exists
abbrev there : PyText → Bool
there path = true

-- everything through MiMo
abbrev formal : Settings
formal = record {
  model_provider = codes "mimo";
  vision_provider = codes " mimo";
  mimo_enabled = true;
  mimo_api_key = codes "k";
  mimo_allow_child_data = true;
  mimo_allow_image = true;
  mimo_retention_policy_checked = true;
  tts_provider = codes "mimo";
  mimo_tts_enabled = true;
  mimo_tts_api_key = codes "k";
  mimo_tts_allow_child_text = true;
  mimo_tts_retention_policy_checked = true;
  xiaobaihu_voice_sample_path = codes "voice.wav";
  asr_provider = codes "local_sensevoice";
  asr_fallback_provider = codes "mimo";
  local_sensevoice_enabled = true;
  local_sensevoice_model_path = codes "model";
  local_sensevoice_tokens_path = codes "tokens";
  mimo_asr_enabled = true;
  mimo_asr_api_key = [];
  mimo_asr_allow_child_audio = true;
  mimo_asr_retention_policy_checked = true;
  mimo_asr_no_training_confirmed = true;
  allow_mock_runtime = false;
}

formal_starts : is_accepted (validate_runtime same there formal) ≡ true
unfolding validate_runtime mimo_model_policy mimo_asr_policy mimo_tts_policy local_sensevoice
    reason_if verdict_of without_value text_is strip is_given effective_mimo_asr_api_key
formal_starts = refl

-- the same missing setting is named once
unchecked :
    validate_runtime same there (record formal { mimo_enabled = false })
    ≡ Verdict.blocked ("CHILD_AI_MIMO_ENABLED" ∷ [])
unfolding validate_runtime mimo_model_policy mimo_asr_policy mimo_tts_policy local_sensevoice
    reason_if verdict_of without_value text_is strip is_given effective_mimo_asr_api_key
unchecked = refl

-- a profile of a provider outside that may get a child's data
abbrev outside : ModelProfile
outside = record {
  profile_name = "p";
  provider_name = "mimo";
  provider_type = ModelProviderType.openai_compatible;
  task_type = ModelTaskType.vision;
  data_policy = record {
    allow_child_data = true;
    allow_image = false;
    allow_audio = false;
    external_transmission = true;
    retention_policy_checked = false;
  };
  enabled = true;
  fallback_profile_name = none;
}

validate_model_iff_example :
    is_accepted
      (validate_model same (("contains_child_data", MetadataValue.boolean true) ∷ []) outside)
    ≡ may_send true
        (metadata_flag same
          (("contains_child_data", MetadataValue.boolean true) ∷ [])
          "contains_child_data")
        (metadata_flag same
          (("contains_child_data", MetadataValue.boolean true) ∷ [])
          "contains_image")
        (metadata_flag same
          (("contains_child_data", MetadataValue.boolean true) ∷ [])
          "contains_audio")
        true
        false
        false
        false
validate_model_iff_example =
    validate_model_iff same (("contains_child_data", MetadataValue.boolean true) ∷ []) outside

started_iff_example :
    is_accepted (validate_runtime same there formal)
    ≡ (false || no_mocks there same formal && providers_ready there same formal)
started_iff_example = started_iff there same formal
