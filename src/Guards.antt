-- ===== src/Guards.antt =====
-- backend/app/services/model_data_policy_guard.py, tts_data_policy_guard.py, asr_data_policy_guard.py and
-- runtime_provider_guard.py: what may be sent to a remote provider, and what may start. A guard that
-- raises answers with the reasons of its exception. Of the settings of backend/app/core/config.py the
-- fields that the guards read are kept.
pub mod Model
pub mod Speech
pub mod Runtime
pub mod Verdicts
pub mod Startup
mod Tests
use ai_child.Prelude.{Bool, true, false, List, [], ◌∷◌, String, if◌then◌else◌}
use ai_child.PyText.{PyText}

pub record Settings : Type 0 where
  pub model_provider : PyText
  pub vision_provider : PyText
  pub mimo_enabled : Bool
  pub mimo_api_key : PyText
  pub mimo_allow_child_data : Bool
  pub mimo_allow_image : Bool
  pub mimo_retention_policy_checked : Bool
  pub tts_provider : PyText
  pub mimo_tts_enabled : Bool
  pub mimo_tts_api_key : PyText
  pub mimo_tts_allow_child_text : Bool
  pub mimo_tts_retention_policy_checked : Bool
  pub xiaobaihu_voice_sample_path : PyText
  pub asr_provider : PyText
  pub asr_fallback_provider : PyText
  pub local_sensevoice_enabled : Bool
  pub local_sensevoice_model_path : PyText
  pub local_sensevoice_tokens_path : PyText
  pub mimo_asr_enabled : Bool
  pub mimo_asr_api_key : PyText
  pub mimo_asr_allow_child_audio : Bool
  pub mimo_asr_retention_policy_checked : Bool
  pub mimo_asr_no_training_confirmed : Bool
  pub allow_mock_runtime : Bool

-- bool(text)
unfoldable pub is_given : PyText → Bool
is_given [] = false
is_given (c ∷ text) = true

-- `a or b` on texts
unfoldable pub or_else : PyText → PyText → PyText
or_else [] b = b
or_else (c ∷ a) b = c ∷ a

-- Settings.effective_mimo_asr_api_key
unfoldable pub effective_mimo_asr_api_key : Settings → PyText
unfolding or_else
effective_mimo_asr_api_key s =
    or_else (or_else s.mimo_asr_api_key s.mimo_api_key) s.mimo_tts_api_key

-- a return, or the reasons of the exception
pub data Verdict : Type 0 where
  accepted : Verdict
  blocked : List String → Verdict

-- `if reasons: raise`
unfoldable pub verdict_of : List String → Verdict
verdict_of [] = Verdict.accepted
verdict_of (reason ∷ reasons) = Verdict.blocked (reason ∷ reasons)

-- reasons.append(reason) under a condition
unfoldable pub reason_if : Bool → String → List String
reason_if holds reason = if holds then reason ∷ [] else []
