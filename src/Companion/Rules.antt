-- ===== src/Companion/Rules.antt =====
-- companion_object_service.py: its constants, its exceptions, its state with the SessionRecallTracker,
-- and the validation of what is stored.
use ai_child.Prelude.{
  ℕ, ◌*◌, String, Bool, List, [], ◌∷◌, Option, any, str_eq, if◌then◌else◌, Dict, lookup_or, insert,
  remove,
}
use ai_child.PyText.{PyText, without, contains_any}
use ai_child.Companion.{
  CompanionObjectType, CompanionObjectSource, light_locations, forbidden_summary_markers,
}
use ai_child.Companion.Store.{Items}

abbrev pub day : ℕ
day = 86400000000

abbrev pub fade_out : ℕ
fade_out = 7 * day

abbrev pub max_recall_per_7_days : ℕ
max_recall_per_7_days = 2

-- the subclasses of CompanionObjectServiceError
pub data Error : Type 0 where
  not_found forbidden_content invalid_location : Error

-- what a method returns or raises
pub data Result {ℓ} (Value : Type ℓ) : Type ℓ where
  err : Error → Result Value
  ok : Value → Result Value

-- The rest of a method, which an exception skips.
infixl 5 ◌>>=◌ ◌>>◌
abbrev pub ◌>>=◌ {ℓ κ} :
    {Value : Type ℓ} {Next : Type κ} → Result Value → (Value → Result Next) → Result Next
err raised >>= rest = err raised
ok value >>= rest = rest value

abbrev pub ◌>>◌ {ℓ} : {Next : Type ℓ} → Result (Unit {0}) → Result Next → Result Next
err raised >> rest = err raised
ok _ >> rest = rest

pub record PendingCompanionSeed : Type 0 where
  pub child_id : String
  pub object_type : CompanionObjectType
  pub light_location : String
  pub source_type : CompanionObjectSource
  pub requested_at : ℕ
  pub recognized_image_type : Option String

pub record PendingCompanionExtension : Type 0 where
  pub child_id : String
  pub companion_id : String
  pub companion_name : PyText
  pub requested_at : ℕ

-- The repository, the children recalled in each session (SessionRecallTracker) and the pending flows.
pub record CompanionService : Type 0 where
  pub items : Items
  pub recalled : Dict (List String)
  pub pending_seed_naming : Dict PendingCompanionSeed
  pub pending_extension : Dict PendingCompanionExtension

-- SessionRecallTracker.mark_recalled and has_recalled
unfoldable pub track : String → String → Dict (List String) → Dict (List String)
track session child recalled = insert session (child ∷ lookup_or [] session recalled) recalled

unfoldable pub has_recalled : String → String → Dict (List String) → Bool
has_recalled session child recalled = any (str_eq child) (lookup_or [] session recalled)

-- SessionRecallTracker.clear_session
unfoldable pub clear_session : String → CompanionService → CompanionService
clear_session session s = record s { recalled = remove session s.recalled }

-- _validate_safe_summary
unfoldable pub is_forbidden : PyText → Bool
is_forbidden summary = contains_any (without 10 (without 0x20 summary)) forbidden_summary_markers

unfoldable pub validate_safe_summary : PyText → Result (Unit {0})
validate_safe_summary summary = if is_forbidden summary then err forbidden_content else ok tt

-- _validate_location
unfoldable pub validate_location : String → Result (Unit {0})
validate_location location =
    if any (str_eq location) light_locations then ok tt else err invalid_location
