-- ===== src/Companion/Waiting.antt =====
-- companion_object_service.py: the pending flows, as the child's next message finds them.
use ai_child.Prelude.{
  ℕ, ◌≡◌, true, String, Option, none, some, any, arith, str_eq, if◌then◌else◌, insert,
  lookup-insert, lookup-remove,
}
use ai_child.Companion.{CompanionObjectType, CompanionObjectSource, light_locations}
use ai_child.Companion.Rules.{CompanionService, PendingCompanionSeed, validate_location}
use ai_child.Companion.Pending.{
  begin_seed_naming, get_pending_seed_naming, clear_pending_seed_naming, seed_of_child,
}
use ai_child.Companion.Values.{Succeeds}

abbrev pub seed_from :
    ℕ
    → String
    → CompanionObjectType
    → String
    → CompanionObjectSource
    → Option String
    → PendingCompanionSeed
seed_from now child kind location source recognized = record {
  child_id = child;
  object_type = kind;
  light_location = location;
  source_type = source;
  requested_at = now;
  recognized_image_type = recognized;
}

-- A seed at a known place waits in its session for its own child only, every other session keeps what
-- waits there, and once the session is cleared nothing waits in it.
pub pending_seed :
    (now : ℕ) (session child : String) (kind : CompanionObjectType) (location : String)
    (source : CompanionObjectSource) (recognized : Option String) (s : CompanionService)
    → any (str_eq location) light_locations ≡ true
    → Succeeds
        (λ t.
          ((other asking : String)
            → get_pending_seed_naming other asking t ≡ (
                if str_eq session other
                then (if str_eq child asking
                    then some (seed_from now child kind location source recognized)
                    else none)
                else get_pending_seed_naming other asking s))
          × ((other asking : String)
              → get_pending_seed_naming other asking (clear_pending_seed_naming session t)
                ≡ (if str_eq session other then none else get_pending_seed_naming other asking s)))
        (begin_seed_naming now session child kind location source recognized s)
unfolding begin_seed_naming validate_location get_pending_seed_naming clear_pending_seed_naming
    seed_of_child
pending_seed now session child kind location source recognized s placed =
    rw (placed, Succeeds)
      (
        λ other asking. ground (
          arith,
          lookup-insert session other (seed_from now child kind location source recognized)
              s.pending_seed_naming,
        ),
        λ other asking. ground (
          arith,
          lookup-insert session other (seed_from now child kind location source recognized)
              s.pending_seed_naming,
          lookup-remove session other (
              insert session (seed_from now child kind location source recognized)
                s.pending_seed_naming),
        ),
      )
