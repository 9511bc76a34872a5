-- ===== src/Guards/Model.antt =====
-- model_data_policy_guard.py, with the types of backend/app/domain/model_types.py that it reads.
use ai_child.Prelude.{
  Bool, false, not, ◌&&◌, List, [], ◌∷◌, ◌++◌, Option, none, some, String, any, Dict, lookup,
}
use ai_child.PyText.{PyText, codes, strip, text_is}
use ai_child.Guards.{Verdict, verdict_of, reason_if}

pub data ModelProviderType : Type 0 where
  mock : ModelProviderType
  openai_compatible : ModelProviderType

pub record ModelDataPolicy : Type 0 where
  pub allow_child_data : Bool
  pub allow_image : Bool
  pub allow_audio : Bool
  pub external_transmission : Bool
  pub retention_policy_checked : Bool

pub data ModelTaskType : Type 0 where
  child_chat intent_classification safety_classification memory_extraction : ModelTaskType
  parent_report vision ocr : ModelTaskType

-- a profile without the name, the capabilities and the parameters of its model
pub record ModelProfile : Type 0 where
  pub profile_name : String
  pub provider_name : String
  pub provider_type : ModelProviderType
  pub task_type : ModelTaskType
  pub data_policy : ModelDataPolicy
  pub enabled : Bool
  pub fallback_profile_name : Option String

-- a value of the metadata of a request
pub data MetadataValue : Type 0 where
  boolean : Bool → MetadataValue
  text : PyText → MetadataValue
  other : MetadataValue

module _ (lower : PyText → PyText) where
  unfoldable pub is_true : MetadataValue → Bool
  is_true (MetadataValue.boolean b) = b
  is_true (MetadataValue.text t) =
      any (text_is (lower (strip t))) (codes "1" ∷ codes "true" ∷ codes "yes" ∷ codes "on" ∷ [])
  is_true MetadataValue.other = false

  -- _metadata_flag
  unfoldable pub metadata_flag : Dict MetadataValue → String → Bool
  unfolding is_true
  metadata_flag metadata key = elim (lookup key metadata) [
    | none ↦ false
    | some value ↦ is_true value
  ]

  -- the reasons of validate, for a provider that is not a mock
  unfoldable pub model_reasons : Dict MetadataValue → ModelDataPolicy → List String
  model_reasons metadata policy =
      let child = metadata_flag metadata "contains_child_data" in
      let image = metadata_flag metadata "contains_image" in
      let audio = metadata_flag metadata "contains_audio" in
      let external = policy.external_transmission in
      reason_if (external && child && not policy.allow_child_data) "child_data_not_allowed"
      ++ reason_if (external && child && not policy.retention_policy_checked)
          "retention_policy_not_checked"
      ++ reason_if (image && not policy.allow_image) "image_not_allowed"
      ++ reason_if (external && image && not policy.retention_policy_checked)
          "retention_policy_not_checked"
      ++ reason_if (audio && not policy.allow_audio) "audio_not_allowed"

  -- ModelDataPolicyGuard.validate
  unfoldable pub validate_model : Dict MetadataValue → ModelProfile → Verdict
  validate_model metadata profile = elim profile.provider_type [
    | ModelProviderType.mock ↦ Verdict.accepted
    | ModelProviderType.openai_compatible ↦ verdict_of (model_reasons metadata profile.data_policy)
  ]
