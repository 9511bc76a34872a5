-- ===== src/Registry.antt =====
-- backend/app/services/model_registry.py: which provider a request for a model is sent to. A provider of
-- backend/app/providers/model/base.py is a record with its method. An exception is an error value; of a
-- request and a response the fields are kept that the registry reads or writes.
pub mod Lookup
pub mod Generate
pub mod Defaults
pub mod Calls
pub mod Guarded
mod Tests
use mathlib.Core.Bool.{decide}
use ai_child.Prelude.{Bool, List, Option, String, Dict}
use ai_child.PyText.{PyText}
use ai_child.Guards.Model.{ModelTaskType, ModelProfile, MetadataValue}

unfoldable pub ModelTaskType-discrete : Discrete ModelTaskType
ModelTaskType-discrete = hlevel

unfoldable pub task_eq : ModelTaskType → ModelTaskType → Bool
unfolding ModelTaskType-discrete decide
task_eq a b = decide (ModelTaskType-discrete a b)

pub record ModelRequest : Type 0 where
  pub task_type : ModelTaskType
  pub input_text : Option PyText
  pub metadata : Dict MetadataValue

pub record ModelResponse : Type 0 where
  pub response_text : PyText
  pub provider_name : String
  pub metadata : Dict MetadataValue

-- the errors of the registry, of the providers and of the guard, and any other exception
pub data ModelError : Type 0 where
  profile_not_found provider_not_found disabled : ModelError
  no_fallback no_mock_fallback : ModelError
  provider_error : String → ModelError
  unexpected : ModelError

-- what a call of a provider comes to: a ModelProviderError has the name of its class
pub data Generated : Type 0 where
  answered : ModelResponse → Generated
  failed : String → Generated
  crashed : Generated

pub record BaseModelProvider : Type 0 where
  pub provider_name : String
  pub enabled : Bool
  pub generate : ModelRequest → ModelProfile → Generated

-- a result, or the error that is raised
pub data Result {ℓ} (Value : Type ℓ) : Type ℓ where
  raised : ModelError → Result Value
  returned : Value → Result Value

-- ModelRegistry; allow_mock_runtime is the answer of _allow_mock_runtime
pub record ModelRegistry : Type 0 where
  pub providers : Dict BaseModelProvider
  pub profiles : Dict ModelProfile
  pub task_profile_map : List (ModelTaskType × String)
  pub allow_mock_runtime : Bool
