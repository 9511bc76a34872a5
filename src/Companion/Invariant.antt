-- ===== src/Companion/Invariant.antt =====
-- companion_object_service.py: the calls of the service as steps between its states.
use ai_child.Prelude.{
  ℕ, ◌+◌, ◌≡◌, String, List, [], ◌∷◌, Option, none, some, All, refl, if_of, lookup,
}
use ai_child.PyText.{PyText}
use ai_child.Companion.{
  CompanionObjectType, CompanionObjectSource, CompanionObject, CompanionObjectStatus,
  CompanionObjectCreateRequest, CompanionObjectUpdateRequest, status_eq,
}
use ai_child.Companion.Store.{Items, values, save}
use ai_child.Companion.Rules.{
  CompanionService, Result, ok, err, ◌>>◌, validate_safe_summary, validate_location, clear_session,
}
use ai_child.Companion.Pending.{
  begin_seed_naming, begin_extension, clear_pending_seed_naming, clear_pending_extension,
}
use ai_child.Companion.Service.{
  validate_if, retired_at, retire_existing, get_active_or_paused_by_child, is_live, new_companion,
  create, shortened, joined_summary, update_safe_summary_append, mark_recalled, skipped_at,
  mark_skipped, updated_at, update, unpaused_at, unpause, retire_all, retire_for_child,
}
use ai_child.Companion.Store.{list_by_child}
use ai_child.Companion.Values.{Keeps, Holds, All-save, lookup_of, find_of, list_by_child_of}
use ai_child.Companion.Summary.{length-shortened}
use ai_child.Companion.Sound.{
  IsSound, retired_at-IsSound, unpaused_at-IsSound, skipped_at-IsSound, new_companion-IsSound,
  is_allowed, is_placed, updated_at-IsSound,
}

abbrev pub AllSound : CompanionService → Type 0
AllSound s = All IsSound (values s.items)

retire_existing-AllSound :
    (now : ℕ) (child : String) (items : Items)
    → All IsSound (values items)
    → All IsSound (values (retire_existing now child items))
unfolding retire_existing get_active_or_paused_by_child
retire_existing-AllSound now child items a =
    cases (get_active_or_paused_by_child child items)
      (find_of IsSound is_live (list_by_child child items) (list_by_child_of IsSound child items a))
  where
    cases :
        (o : Option CompanionObject)
        → Holds IsSound o
        → All IsSound (values (elim o [ none ↦ items | some c ↦ save (retired_at now c) items ]))
    cases none h = a
    cases (some c) h = All-save IsSound (retired_at now c) items (retired_at-IsSound now c h) a

-- To go on behind a validation.
pub after :
    {A : Type 0} (P : A → Type 0) (m : Result (Unit {0})) (k : Result A)
    → (m ≡ ok tt → Keeps P k)
    → Keeps P (m >> k)
after P (ok u) k h = h refl
after P (err e) k h = tt

-- The state that a call returns.
abbrev StateSound : {A : Type 0} → CompanionService × A → Type 0
StateSound r = AllSound r.0

module _ (now : ℕ) (id : String) (s : CompanionService) (sound : AllSound s) where
  create-AllSound : (r : CompanionObjectCreateRequest) → Keeps StateSound (create now id r s)
  unfolding create
  create-AllSound r = after StateSound (validate_safe_summary r.safe_summary) _ λ h.
      after StateSound (validate_location r.light_location) _ λ p.
        All-save IsSound (new_companion now id r) (retire_existing now r.child_id s.items)
          (new_companion-IsSound now id r (is_allowed r.safe_summary h)
            (is_placed r.light_location p))
          (retire_existing-AllSound now r.child_id s.items sound)

  -- A call that looks the companion up first.
  at_found :
      {A : Type 0} (P : A → Type 0) (n : Result A) (k : CompanionObject → Result A)
      → Keeps P n
      → ((c : CompanionObject) → IsSound c → Keeps P (k c))
      → Keeps P (elim (lookup id s.items) [ none ↦ n | some c ↦ k c ])
  at_found {A} P n k hn hk = cases (lookup id s.items) (lookup_of IsSound id s.items sound)
    where
      cases :
          (o : Option CompanionObject)
          → Holds IsSound o
          → Keeps P (elim o [ none ↦ n | some c ↦ k c ])
      cases none h = hn
      cases (some c) h = hk c h

  append-AllSound : (added : PyText) → Keeps StateSound (update_safe_summary_append now id added s)
  unfolding update_safe_summary_append
  append-AllSound added = at_found StateSound _ _ sound λ c h.
      after StateSound (validate_safe_summary (shortened (joined_summary c.safe_summary added))) _
        λ e.
          All-save IsSound _ s.items
            (record {
              allowed = is_allowed (shortened (joined_summary c.safe_summary added)) e;
              short = length-shortened (joined_summary c.safe_summary added);
              placed = h.placed;
              skipped = h.skipped;
            })
            sound

  recalled-AllSound : (session : String) → Keeps StateSound (mark_recalled now id session s)
  unfolding mark_recalled
  recalled-AllSound session = at_found StateSound _ _ tt λ c h.
      All-save IsSound _ s.items
        (record { allowed = h.allowed; short = h.short; placed = h.placed; skipped = h.skipped })
        sound

  skipped-AllSound : (session : Option String) → Keeps StateSound (mark_skipped now id session s)
  unfolding mark_skipped
  skipped-AllSound session =
      at_found StateSound _ _ tt
        λ c h. All-save IsSound (skipped_at now c) s.items (skipped_at-IsSound now c h) sound

  update-AllSound : (r : CompanionObjectUpdateRequest) → Keeps StateSound (update now id r s)
  unfolding update
  update-AllSound r = at_found StateSound _ _ tt λ c h.
      after StateSound (validate_if validate_safe_summary r.safe_summary) _ λ hs.
        after StateSound (validate_if validate_location r.light_location) _ λ hl.
          All-save IsSound (updated_at now r c) s.items (updated_at-IsSound now r c hs hl h) sound

  unpause-AllSound : Keeps StateSound (unpause now id s)
  unfolding unpause
  unpause-AllSound = at_found StateSound _ _ tt λ c h.
      if_of (Keeps StateSound) (status_eq c.status CompanionObjectStatus.paused)
        (λ _. All-save IsSound (unpaused_at now c) s.items (unpaused_at-IsSound now c h) sound)
        (λ _. sound)

retire_all-AllSound :
    (now : ℕ) (cs : List CompanionObject) (items : Items) (count : ℕ)
    → All IsSound cs
    → All IsSound (values items)
    → All IsSound (values (retire_all now cs (items, count)).0)
unfolding retire_all
retire_all-AllSound now [] items count h a = a
retire_all-AllSound now (c ∷ cs) items count h a =
    if_of (λ (d : Items × ℕ). All IsSound (values (retire_all now cs d).0))
      (status_eq c.status CompanionObjectStatus.retired)
      (λ _. retire_all-AllSound now cs items count h.1 a)
      (λ _.
        retire_all-AllSound now cs (save (retired_at now c) items) (count + 1) h.1
          (All-save IsSound (retired_at now c) items (retired_at-IsSound now c h.0) a))

retire_for_child-AllSound :
    (now : ℕ) (child : String) (s : CompanionService)
    → AllSound s
    → AllSound (retire_for_child now child s).0
unfolding retire_for_child
retire_for_child-AllSound now child s a =
    retire_all-AllSound now (list_by_child child s.items) s.items 0
      (list_by_child_of IsSound child s.items a) a

-- The calls of the service that return, from a state to the next.
pub data Call (s : CompanionService) : CompanionService → Type 0 where
  creates :
      (now : ℕ) (id : String) (r : CompanionObjectCreateRequest)
      (done : CompanionService × CompanionObject)
      → create now id r s ≡ ok done
      → Call s done.0
  appends :
      (now : ℕ) (id : String) (added : PyText) (done : CompanionService × Option CompanionObject)
      → update_safe_summary_append now id added s ≡ ok done
      → Call s done.0
  recalls :
      (now : ℕ) (id session : String) (done : CompanionService × CompanionObject)
      → mark_recalled now id session s ≡ ok done
      → Call s done.0
  skips :
      (now : ℕ) (id : String) (session : Option String) (done : CompanionService × CompanionObject)
      → mark_skipped now id session s ≡ ok done
      → Call s done.0
  updates :
      (now : ℕ) (id : String) (r : CompanionObjectUpdateRequest)
      (done : CompanionService × CompanionObject)
      → update now id r s ≡ ok done
      → Call s done.0
  unpauses :
      (now : ℕ) (id : String) (done : CompanionService × CompanionObject)
      → unpause now id s ≡ ok done
      → Call s done.0
  retires : (now : ℕ) (child : String) → Call s (retire_for_child now child s).0
  begins_seed :
      (now : ℕ) (session child : String) (kind : CompanionObjectType) (location : String)
      (source : CompanionObjectSource) (recognized : Option String) (done : CompanionService)
      → begin_seed_naming now session child kind location source recognized s ≡ ok done
      → Call s done
  clears_seed : (session : String) → Call s (clear_pending_seed_naming session s)
  begins_extension :
      (now : ℕ) (session child id : String) (name : PyText)
      → Call s (begin_extension now session child id name s)
  clears_session : (session : String) → Call s (clear_session session s)
  clears_extension : (session : String) → Call s (clear_pending_extension session s)

pub data Run (s : CompanionService) : CompanionService → Type 0 where
  here : Run s s
  next : {t u : CompanionService} → Run s t → Call t u → Run s u

pub returned : {A : Type 0} (P : A → Type 0) (m : Result A) (a : A) → Keeps P m → m ≡ ok a → P a
returned P m a h e = rw e at h

AllSound-Call : {s t : CompanionService} → Call s t → AllSound s → AllSound t
unfolding clear_session begin_seed_naming clear_pending_seed_naming begin_extension
    clear_pending_extension
AllSound-Call {s} (creates now id r done e) a =
    returned StateSound _ done (create-AllSound now id s a r) e
AllSound-Call {s} (appends now id added done e) a =
    returned StateSound _ done (append-AllSound now id s a added) e
AllSound-Call {s} (recalls now id session done e) a =
    returned StateSound _ done (recalled-AllSound now id s a session) e
AllSound-Call {s} (skips now id session done e) a =
    returned StateSound _ done (skipped-AllSound now id s a session) e
AllSound-Call {s} (updates now id r done e) a =
    returned StateSound _ done (update-AllSound now id s a r) e
AllSound-Call {s} (unpauses now id done e) a =
    returned StateSound _ done (unpause-AllSound now id s a) e
AllSound-Call {s} (retires now child) a = retire_for_child-AllSound now child s a
AllSound-Call {s} (begins_seed now session child kind location source recognized done e) a =
    returned AllSound _ done (after AllSound (validate_location location) _ (λ _. a)) e
AllSound-Call (clears_seed session) a = a
AllSound-Call (begins_extension now session child id name) a = a
AllSound-Call (clears_session session) a = a
AllSound-Call (clears_extension session) a = a

-- From a state with sound companions, any sequence of calls leads to such a state: whatever was
-- created, appended, updated, skipped or unpaused, no stored summary has a forbidden marker or more
-- than 200 characters, every place is known, and an active companion was skipped at most once.
pub Run-AllSound : {s t : CompanionService} → Run s t → AllSound s → AllSound t
Run-AllSound here a = a
Run-AllSound (next run call) a = AllSound-Call call (Run-AllSound run a)
