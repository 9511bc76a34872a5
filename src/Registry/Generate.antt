-- ===== src/Registry/Generate.antt =====
-- model_registry.py, `generate`, with the profiles that the request was sent under, in their order. The timing
-- log and the debug trace are left out.
use ai_child.Prelude.{
  Bool, true, false, List, [], ◌∷◌, ◌++◌, Option, none, some, String, insert, if◌then◌else◌,
}
use ai_child.PyText.{PyText, codes}
use ai_child.Guards.{Verdict}
use ai_child.Guards.Model.{ModelProfile, MetadataValue, validate_model}
use ai_child.Registry.{
  ModelRequest, ModelResponse, ModelError, Generated, BaseModelProvider, Result, ModelRegistry,
}
use ai_child.Registry.Lookup.{
  get_primary_profile, provider_for_profile, fallback_profile_for, mock_fallback_profile_for,
}

abbrev pub Exchange : Type 0
Exchange = List ModelProfile × Result ModelResponse

-- response.metadata.update({...}) of a fallback
unfoldable pub marked : Bool → ModelProfile → String → ModelResponse → ModelResponse
marked policy_blocked failed failure_type response =
    let used = insert "fallback_used" (MetadataValue.boolean true) response.metadata in
    let blocked =
      if policy_blocked then insert "policy_blocked" (MetadataValue.boolean true) used else used in
    record response {
      metadata = insert "failure_type" (MetadataValue.text (codes failure_type)) (
          insert "failed_provider" (MetadataValue.text (codes failed.provider_name))
            (insert "failed_profile" (MetadataValue.text (codes failed.profile_name)) blocked));
    }

-- the name of the class of an error
unfoldable pub class_name : ModelError → String
class_name ModelError.profile_not_found = "ModelProfileNotFoundError"
class_name ModelError.provider_not_found = "ModelProviderNotFoundError"
class_name ModelError.disabled = "ModelProviderDisabledError"
class_name ModelError.no_fallback = "ModelRegistryError"
class_name ModelError.no_mock_fallback = "ModelRegistryError"
class_name (ModelError.provider_error name) = name
class_name ModelError.unexpected = "Exception"

-- what the caller gets of a call of the fallback's provider
unfoldable pub fallback_result : (ModelResponse → ModelResponse) → Generated → Result ModelResponse
fallback_result mark (Generated.answered response) = Result.returned (mark response)
fallback_result mark (Generated.failed name) = Result.raised (ModelError.provider_error name)
fallback_result mark Generated.crashed = Result.raised ModelError.unexpected

-- the call of the fallback's provider, if it has one
unfoldable pub send_to :
    ModelRequest
    → List ModelProfile
    → (ModelResponse → ModelResponse)
    → ModelProfile
    → Result BaseModelProvider
    → Exchange
unfolding fallback_result
send_to q sent mark fallback (Result.raised e) = (sent, Result.raised e)
send_to q sent mark fallback (Result.returned provider) =
    (sent ++ fallback ∷ [], fallback_result mark (provider.generate q fallback))

module _ (lower : PyText → PyText) (r : ModelRegistry) (q : ModelRequest) where
  -- the fallback that was found, or the error that there is none
  unfoldable pub send_to_fallback :
      List ModelProfile
      → (ModelResponse → ModelResponse)
      → ModelError
      → Option ModelProfile
      → Exchange
  unfolding send_to provider_for_profile
  send_to_fallback sent mark missing none = (sent, Result.raised missing)
  send_to_fallback sent mark missing (some fallback) =
      send_to q sent mark fallback (provider_for_profile r fallback)

  -- the branch of an error of the registry or of a provider
  unfoldable pub fall_back : ModelProfile → List ModelProfile → ModelError → Exchange
  unfolding send_to_fallback marked class_name fallback_profile_for
  fall_back p sent e =
      send_to_fallback sent (marked false p (class_name e)) ModelError.no_fallback
        (fallback_profile_for r p q.task_type)

  -- the branch of a request that the guard blocks
  unfoldable pub fall_back_blocked : ModelProfile → Exchange
  unfolding send_to_fallback marked mock_fallback_profile_for
  fall_back_blocked p =
      send_to_fallback [] (marked true p "ModelDataPolicyBlockedError") ModelError.no_mock_fallback
        (mock_fallback_profile_for r p q.task_type)

  -- what comes of the call of the primary provider
  unfoldable pub after_call : ModelProfile → Generated → Exchange
  unfolding fall_back
  after_call p (Generated.answered response) = (p ∷ [], Result.returned response)
  after_call p (Generated.failed name) = fall_back p (p ∷ []) (ModelError.provider_error name)
  after_call p Generated.crashed = (p ∷ [], Result.raised ModelError.unexpected)

  -- the call of the primary provider, if the guard lets the request through
  unfoldable pub call_guarded : ModelProfile → BaseModelProvider → Verdict → Exchange
  unfolding after_call fall_back_blocked
  call_guarded p provider Verdict.accepted = after_call p (provider.generate q p)
  call_guarded p provider (Verdict.blocked reasons) = fall_back_blocked p

  unfoldable pub call_provider : ModelProfile → Result BaseModelProvider → Exchange
  unfolding call_guarded validate_model fall_back
  call_provider p (Result.raised e) = fall_back p [] e
  call_provider p (Result.returned provider) =
      call_guarded p provider (validate_model lower q.metadata p)

  unfoldable pub generate_under : Result ModelProfile → Exchange
  unfolding call_provider provider_for_profile
  generate_under (Result.raised e) = ([], Result.raised e)
  generate_under (Result.returned p) = call_provider p (provider_for_profile r p)

  -- generate
  unfoldable pub generate : Exchange
  unfolding generate_under get_primary_profile
  generate = generate_under (get_primary_profile r q.task_type)
