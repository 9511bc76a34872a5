-- ===== src/Guards/Startup.antt =====
-- runtime_provider_guard.py against the guards of what is sent: model_data_policy_guard.py,
-- tts_data_policy_guard.py and asr_data_policy_guard.py.
use ai_child.Prelude.{Bool, true, false, not, ◌&&◌, ◌||◌, ◌≡◌, arith, Dict}
use ai_child.PyText.{PyText}
use ai_child.Guards.{Settings, Verdict, verdict_of, reason_if, is_given, effective_mimo_asr_api_key}
use ai_child.Guards.Model.{
  ModelProfile, ModelProviderType, MetadataValue, metadata_flag, model_reasons, validate_model,
}
use ai_child.Guards.Speech.{
  TtsProviderName, AsrProviderName, validate_tts, validate_asr, build_policy_settings,
}
use ai_child.Guards.Runtime.{
  mimo_model_policy, mimo_asr_policy, mimo_tts_policy, local_sensevoice, names,
  mock_provider_violations, formal_violations, validate_runtime,
}
use ai_child.Guards.Verdicts.{
  is_accepted, is_empty, verdicts, ◌⇒◌, is_accepted→accepted, is_accepted-if,
}

-- what may be sent to a provider that is not a mock
abbrev pub may_send :
    (external child image audio : Bool) → (child_ok image_ok audio_ok checked : Bool) → Bool
may_send external child image audio child_ok image_ok audio_ok checked =
    (external && child ⇒ child_ok)
    && (image ⇒ image_ok)
    && (audio ⇒ audio_ok)
    && (external && (child || image) ⇒ checked)

module _ (lower : PyText → PyText) where
  -- The model guard lets a request through exactly if the provider is a mock, or an image or audio in it
  -- is allowed, a child's data is allowed where it leaves the system, and the retention policy of a
  -- provider outside was checked before it gets a child's data or an image.
  pub validate_model_iff :
      (metadata : Dict MetadataValue) (p : ModelProfile)
      → let policy = p.data_policy in
        is_accepted (validate_model lower metadata p) ≡ elim p.provider_type [
          | ModelProviderType.mock ↦ true
          | ModelProviderType.openai_compatible ↦
              may_send policy.external_transmission
                (metadata_flag lower metadata "contains_child_data")
                (metadata_flag lower metadata "contains_image")
                (metadata_flag lower metadata "contains_audio")
                policy.allow_child_data
                policy.allow_image
                policy.allow_audio
                policy.retention_policy_checked
        ]
  unfolding validate_model model_reasons verdict_of reason_if
  validate_model_iff metadata p = ground arith

-- what MiMo needs as a model, as a voice and as an ear, and what the local ear needs
abbrev pub mimo_model_ready : Settings → Bool → Bool
mimo_model_ready s images =
    s.mimo_enabled
    && is_given s.mimo_api_key
    && s.mimo_allow_child_data
    && (images ⇒ s.mimo_allow_image)
    && s.mimo_retention_policy_checked

abbrev pub mimo_asr_ready : Settings → Bool
mimo_asr_ready s =
    s.mimo_asr_enabled
    && is_given (effective_mimo_asr_api_key s)
    && s.mimo_asr_allow_child_audio
    && s.mimo_asr_retention_policy_checked
    && s.mimo_asr_no_training_confirmed

mimo_model_policy-ready :
    (s : Settings) (images : Bool)
    → is_empty (mimo_model_policy s images) ≡ mimo_model_ready s images
unfolding mimo_model_policy reason_if
mimo_model_policy-ready s images = ground arith

mimo_asr_policy-ready : (s : Settings) → is_empty (mimo_asr_policy s) ≡ mimo_asr_ready s
unfolding mimo_asr_policy reason_if
mimo_asr_policy-ready s = ground arith

accepted-asr :
    (s : Settings)
    → mimo_asr_ready s ≡ true
    → validate_asr (build_policy_settings s AsrProviderName.mimo s.mimo_asr_enabled)
      ≡ Verdict.accepted
unfolding validate_asr build_policy_settings verdict_of reason_if
accepted-asr s h = is_accepted→accepted _ (ground arith)

accepted-tts :
    (s : Settings)
    → s.mimo_tts_enabled
        && is_given s.mimo_tts_api_key
        && s.mimo_tts_allow_child_text
        && s.mimo_tts_retention_policy_checked
      ≡ true
    → validate_tts TtsProviderName.mimo s true ≡ Verdict.accepted
unfolding validate_tts verdict_of reason_if
accepted-tts s h = is_accepted→accepted _ (ground arith)

module _ (exists : PyText → Bool) where
  abbrev pub mimo_tts_ready : Settings → Bool
  mimo_tts_ready s =
      s.mimo_tts_enabled
      && is_given s.mimo_tts_api_key
      && s.mimo_tts_allow_child_text
      && s.mimo_tts_retention_policy_checked
      && exists s.xiaobaihu_voice_sample_path

  abbrev pub sensevoice_ready : Settings → Bool
  sensevoice_ready s =
      s.local_sensevoice_enabled
      && exists s.local_sensevoice_model_path
      && exists s.local_sensevoice_tokens_path

  mimo_tts_policy-ready : (s : Settings) → is_empty (mimo_tts_policy exists s) ≡ mimo_tts_ready s
  unfolding mimo_tts_policy reason_if
  mimo_tts_policy-ready s = ground arith

  sensevoice-ready : (s : Settings) → is_empty (local_sensevoice exists s) ≡ sensevoice_ready s
  unfolding local_sensevoice reason_if
  sensevoice-ready s = ground arith

  module _ (lower : PyText → PyText) where
    abbrev pub no_mocks : Settings → Bool
    no_mocks s =
        not (names lower s.model_provider "mock")
        && not (names lower s.vision_provider "mock")
        && not (names lower s.tts_provider "mock")
        && not (names lower s.asr_provider "mock")
        && not (names lower s.asr_fallback_provider "mock")

    abbrev pub providers_ready : Settings → Bool
    providers_ready s =
        (names lower s.model_provider "mimo" ⇒ mimo_model_ready s false)
        && (names lower s.vision_provider "mimo" ⇒ mimo_model_ready s true)
        && (names lower s.tts_provider "mimo" ⇒ mimo_tts_ready s)
        && (names lower s.asr_provider "local_sensevoice" ⇒ sensevoice_ready s)
        && (names lower s.asr_provider "mimo" ⇒ mimo_asr_ready s)
        && (names lower s.asr_fallback_provider "mimo" ⇒ mimo_asr_ready s)

    mocks-none : (s : Settings) → is_empty (mock_provider_violations lower s) ≡ no_mocks s
    unfolding mock_provider_violations reason_if
    mocks-none s = ground arith

    formal-ready : (s : Settings) → is_empty (formal_violations lower exists s) ≡ providers_ready s
    unfolding formal_violations
    formal-ready s = simp (
      verdicts, mimo_model_policy-ready, mimo_asr_policy-ready, mimo_tts_policy-ready,
      sensevoice-ready,
    )

    -- The runtime guard accepts exactly if mocks are allowed, or none of the five settings of providers names
    -- a mock, MiMo has what it needs as a model, for images, as a voice and as an ear where a setting names it
    -- for that, and the local SenseVoice has what it needs where it is named as the first ear. Nothing is asked
    -- of SenseVoice as the fallback, nor of any other name.
    pub started_iff :
        (s : Settings)
        → is_accepted (validate_runtime lower exists s)
          ≡ s.allow_mock_runtime || no_mocks s && providers_ready s
    unfolding validate_runtime
    started_iff s = simp (mocks-none, formal-ready, verdicts, is_accepted-if)

    -- A service that starts where mocks are not allowed and speaks through MiMo passes the guard of speech output for a
    -- child's text.
    pub started_tts :
        (s : Settings)
        → is_accepted (validate_runtime lower exists s) ≡ true
        → s.allow_mock_runtime ≡ false
        → names lower s.tts_provider "mimo" ≡ true
        → validate_tts TtsProviderName.mimo s true ≡ Verdict.accepted
    started_tts s h hm ht = accepted-tts s (ground (arith, started_iff s))

    -- A service that starts where mocks are not allowed and hears through MiMo, first or as a fallback, passes the guard of
    -- speech input with the settings that the speech service builds.
    pub started_asr :
        (s : Settings)
        → is_accepted (validate_runtime lower exists s) ≡ true
        → s.allow_mock_runtime ≡ false
        → names lower s.asr_provider "mimo" || names lower s.asr_fallback_provider "mimo" ≡ true
        → validate_asr (build_policy_settings s AsrProviderName.mimo s.mimo_asr_enabled)
          ≡ Verdict.accepted
    started_asr s h hm ha = accepted-asr s (ground (arith, started_iff s))
