-- ===== src/Companion/Tests.antt =====
-- Runs of the companion service, and its theorems at concrete companions.
use ai_child.Prelude.{◌≡◌, false, [], ◌∷◌, none, some, arith, refl, lookup, insert}
use ai_child.PyText.{codes, contains_any, without}
use ai_child.Companion.{
  CompanionObject, CompanionObjectStatus, CompanionObjectType, CompanionObjectSource, VisualKind,
  CompanionObjectCreateRequest, status_eq,
}
use ai_child.Companion.Store.{values, save, find, list_by_child, newest_first, select}
use ai_child.Companion.Rules.{
  CompanionService, Result, ok, err, ◌>>=◌, is_forbidden, validate_safe_summary, validate_location,
  has_recalled, day,
}
use ai_child.Companion.Service.{
  create, new_companion, retire_existing, get_active_or_paused_by_child, is_live, mark_skipped,
  skipped_at, unpause,
}
use ai_child.Companion.Values.{Succeeds}
use ai_child.Companion.Invariant.{AllSound, Run, Call, Run-AllSound}
use ai_child.Companion.Live.{live_count}
use ai_child.Companion.Single.{OneLive}
use ai_child.Companion.OneLive.{AllTimely, Run-OneLive}
use ai_child.Companion.Lifecycle.{skip-then-unpause}

-- a star by the window
abbrev star : CompanionObject
star = record {
  id = "o1";
  child_id = "c1";
  name = codes "小亮";
  object_type = CompanionObjectType.star;
  source_type = CompanionObjectSource.first_open;
  safe_summary = codes "会眨眼的星星";
  light_location = "窗边";
  status = CompanionObjectStatus.active;
  visual_kind = VisualKind.star;
  last_recalled_at = none;
  recall_count = 1;
  skip_count = 1;
  created_at = 0;
  updated_at = 0;
}

-- the same star, retired
abbrev old_star : CompanionObject
old_star = record star { status = CompanionObjectStatus.retired }

abbrev service_with : CompanionObject → CompanionService
service_with c = record {
  items = (c.id, c) ∷ [];
  recalled = [];
  pending_seed_naming = [];
  pending_extension = [];
}

abbrev no_companions : CompanionService
no_companions = record {
  items = [];
  recalled = [];
  pending_seed_naming = [];
  pending_extension = [];
}

abbrev cloud_request : CompanionObjectCreateRequest
cloud_request = record {
  child_id = "c1";
  name = codes " 棉花糖 ";
  object_type = CompanionObjectType.cloud;
  source_type = CompanionObjectSource.chat_story;
  safe_summary = codes " 软软的云 ";
  light_location = "窗外";
}

abbrev secret_request : CompanionObjectCreateRequest
secret_request = record cloud_request { safe_summary = codes "我们的秘 密" }

-- spaces do not hide a forbidden marker
secret_refused :
    create 5 "o2" secret_request no_companions ≡ err ai_child.Companion.Rules.forbidden_content
unfolding create validate_safe_summary is_forbidden without contains_any
secret_refused = refl

cloud_allowed : is_forbidden cloud_request.safe_summary ≡ false
unfolding is_forbidden without contains_any
cloud_allowed = refl

skip-then-unpause_example :
    Succeeds
      (λ r.
        (r.1.status ≡ CompanionObjectStatus.active)
        × (r.1.skip_count ≡ 0)
        × (lookup "o1" r.0.items ≡ some r.1))
      (mark_skipped 5 "o1" none (service_with old_star) >>= λ r. unpause 6 "o1" r.0)
unfolding lookup
skip-then-unpause_example =
    skip-then-unpause 5 6 "o1" none (service_with old_star) old_star refl refl (omega arith)

run :
    Run no_companions
      (record no_companions { items = ("o2", new_companion 5 "o2" cloud_request) ∷ [] })
unfolding create validate_safe_summary is_forbidden without contains_any validate_location
    retire_existing get_active_or_paused_by_child list_by_child newest_first select values find save
    insert new_companion
run =
    Run.next Run.here
      (Call.creates 5 "o2" cloud_request (_, new_companion 5 "o2" cloud_request) refl)

Run-AllSound_example :
    AllSound (record no_companions { items = ("o2", new_companion 5 "o2" cloud_request) ∷ [] })
unfolding values
Run-AllSound_example = Run-AllSound run tt

-- the cloud, skipped once
abbrev skipped_cloud : CompanionService
skipped_cloud = record no_companions {
  items = ("o2", skipped_at 6 (new_companion 5 "o2" cloud_request)) ∷ [];
}

run_skipped : Run no_companions skipped_cloud
unfolding mark_skipped lookup save insert new_companion skipped_at
run_skipped =
    Run.next run
      (Call.skips 6 "o2" none (_, skipped_at 6 (new_companion 5 "o2" cloud_request)) refl)

run_skipped-AllTimely : AllTimely run_skipped
unfolding run_skipped run lookup is_live status_eq new_companion
run_skipped-AllTimely = ((tt, tt), λ c h. ground arith)

Run-OneLive_example : OneLive skipped_cloud
unfolding live_count
Run-OneLive_example =
    Run-OneLive run_skipped run_skipped-AllTimely
      (record { keyed = tt; single = λ child. omega arith })
