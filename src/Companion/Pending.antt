-- ===== src/Companion/Pending.antt =====
-- companion_object_service.py: the naming of a seed and the extension of a companion that wait for a
-- child's next message.
use ai_child.PyText.{PyText}
use ai_child.Companion.{CompanionObjectType, CompanionObjectSource}
use ai_child.Prelude.{ℕ, String, Option, none, some, str_eq, if◌then◌else◌, lookup, insert, remove}
use ai_child.Companion.Rules.{
  CompanionService, PendingCompanionExtension, PendingCompanionSeed, Result, ok, validate_location,
  ◌>>◌,
}

-- begin_seed_naming
unfoldable pub begin_seed_naming :
    ℕ
    → String
    → String
    → CompanionObjectType
    → String
    → CompanionObjectSource
    → Option String
    → CompanionService
    → Result CompanionService
unfolding validate_location
begin_seed_naming now session child object_type location source_type recognized s = do
  validate_location location
  ok (record s {
    pending_seed_naming =
        insert session
          (record {
            child_id = child;
            object_type = object_type;
            light_location = location;
            source_type = source_type;
            requested_at = now;
            recognized_image_type = recognized;
          })
          s.pending_seed_naming;
  })

-- `None if pending is None or pending.child_id != child_id else pending`
unfoldable pub seed_of_child : String → Option PendingCompanionSeed → Option PendingCompanionSeed
seed_of_child child none = none
seed_of_child child (some p) = if str_eq p.child_id child then some p else none

-- get_pending_seed_naming
unfoldable pub get_pending_seed_naming :
    String → String → CompanionService → Option PendingCompanionSeed
unfolding seed_of_child
get_pending_seed_naming session child s = seed_of_child child (lookup session s.pending_seed_naming)

-- clear_pending_seed_naming
unfoldable pub clear_pending_seed_naming : String → CompanionService → CompanionService
clear_pending_seed_naming session s = record s {
  pending_seed_naming = remove session s.pending_seed_naming;
}

-- begin_extension
unfoldable pub begin_extension :
    ℕ → String → String → String → PyText → CompanionService → CompanionService
begin_extension now session child companion_id name s = record s {
  pending_extension =
      insert session
        (record {
          child_id = child;
          companion_id = companion_id;
          companion_name = name;
          requested_at = now;
        })
        s.pending_extension;
}

-- clear_pending_extension
unfoldable pub clear_pending_extension : String → CompanionService → CompanionService
clear_pending_extension session s = record s {
  pending_extension = remove session s.pending_extension;
}

unfoldable pub extension_of_child :
    String → Option PendingCompanionExtension → Option PendingCompanionExtension
extension_of_child child none = none
extension_of_child child (some p) = if str_eq p.child_id child then some p else none

-- get_pending_extension
unfoldable pub get_pending_extension :
    String → String → CompanionService → Option PendingCompanionExtension
unfolding extension_of_child
get_pending_extension session child s =
    extension_of_child child (lookup session s.pending_extension)
