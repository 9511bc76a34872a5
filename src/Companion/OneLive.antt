-- ===== src/Companion/OneLive.antt =====
-- companion_object_service.py: the live companions of children over sequences of calls.
use ai_child.Prelude.{◌≡◌, true, some, lookup}
use ai_child.Companion.{CompanionObject}
use ai_child.Companion.Store.{list_by_child}
use ai_child.Companion.Rules.{CompanionService, clear_session}
use ai_child.Companion.Pending.{begin_extension, clear_pending_seed_naming, clear_pending_extension}
use ai_child.Companion.Service.{is_live, retire_for_child}
use ai_child.Companion.Invariant.{Call, Run, returned}
use ai_child.Companion.Single.{
  OneLive, StateSingle, create-OneLive, append-OneLive, recalled-OneLive, skipped-OneLive,
  update-OneLive, unpause-OneLive, retire_all-IsSingle, begun-OneLive,
}

-- A skip is of a live companion; any other call is timely.
abbrev pub IsTimely : {s t : CompanionService} → Call s t → Type 0
IsTimely {s} (Call.skips now id session done e) =
    (c : CompanionObject) → lookup id s.items ≡ some c → is_live c ≡ true
IsTimely (Call.creates now id r done e) = Unit
IsTimely (Call.appends now id added done e) = Unit
IsTimely (Call.recalls now id session done e) = Unit
IsTimely (Call.updates now id r done e) = Unit
IsTimely (Call.unpauses now id done e) = Unit
IsTimely (Call.retires now child) = Unit
IsTimely (Call.begins_seed now session child kind location source recognized done e) = Unit
IsTimely (Call.clears_seed session) = Unit
IsTimely (Call.begins_extension now session child id name) = Unit
IsTimely (Call.clears_session session) = Unit
IsTimely (Call.clears_extension session) = Unit

abbrev pub AllTimely : {s t : CompanionService} → Run s t → Type 0
AllTimely Run.here = Unit
AllTimely (Run.next run call) = AllTimely run × IsTimely call

OneLive-Call : {s t : CompanionService} (call : Call s t) → IsTimely call → OneLive s → OneLive t
unfolding clear_session clear_pending_seed_naming begin_extension clear_pending_extension
    retire_for_child
OneLive-Call {s} (Call.creates now id r done e) h one =
    returned StateSingle _ done (create-OneLive now id s one r) e
OneLive-Call {s} (Call.appends now id added done e) h one =
    returned StateSingle _ done (append-OneLive now id s one added) e
OneLive-Call {s} (Call.recalls now id session done e) h one =
    returned StateSingle _ done (recalled-OneLive now id s one session) e
OneLive-Call {s} (Call.skips now id session done e) h one =
    returned StateSingle _ done (skipped-OneLive now id s one session h) e
OneLive-Call {s} (Call.updates now id r done e) h one =
    returned StateSingle _ done (update-OneLive now id s one r) e
OneLive-Call {s} (Call.unpauses now id done e) h one =
    returned StateSingle _ done (unpause-OneLive now id s one) e
OneLive-Call {s} (Call.retires now child) h one =
    retire_all-IsSingle now (list_by_child child s.items) s.items 0 one
OneLive-Call {s} (Call.begins_seed now session child kind location source recognized done e) h one =
    returned OneLive _ done (begun-OneLive now session child kind location source recognized s one)
      e
OneLive-Call (Call.clears_seed session) h one = one
OneLive-Call (Call.begins_extension now session child id name) h one = one
OneLive-Call (Call.clears_session session) h one = one
OneLive-Call (Call.clears_extension session) h one = one

-- From a state in which every child has one live companion at most, any sequence of calls in which only
-- live companions are skipped leads to such a state. A live one is active or paused, and in either state
-- each companion stands under its own identifier.
pub Run-OneLive : {s t : CompanionService} (run : Run s t) → AllTimely run → OneLive s → OneLive t
Run-OneLive Run.here h one = one
Run-OneLive (Run.next run call) h one = OneLive-Call call h.1 (Run-OneLive run h.0 one)
