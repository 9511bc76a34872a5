-- ===== src/Companion/Single.antt =====
-- companion_object_service.py: what each call does to the number of live companions of a child.
use ai_child.Prelude.{
  ℕ, ◌+◌, ◌≤◌, ◌≡◌, true, String, List, [], ◌∷◌, Option, none, some, inl, inr, arith, refl, if_of,
  Option-cases, eq_iff, str_eq, false, subst, Bool-cases, lookup,
}
use ai_child.PyText.{PyText}
use ai_child.Companion.{
  CompanionObject, CompanionObjectStatus, CompanionObjectCreateRequest,
  CompanionObjectUpdateRequest, CompanionObjectType, CompanionObjectSource, status_eq,
}
use ai_child.Companion.Store.{Items, save, find, list_by_child}
use ai_child.Companion.Rules.{CompanionService, Result, validate_safe_summary, validate_location}
use ai_child.Companion.Pending.{begin_seed_naming}
use ai_child.Companion.Service.{
  validate_if, retired_at, retire_existing, get_active_or_paused_by_child, is_live, new_companion,
  create, shortened, joined_summary, update_safe_summary_append, mark_recalled, skipped_at,
  mark_skipped, updated_at, update, unpaused_at, unpause, retire_all,
}
use ai_child.Companion.Values.{Keeps}
use ai_child.Companion.Live.{
  weight, live_count, found_weight, IsKeyed, save-IsKeyed, live_count-save, id_of_found,
  live_count-none, live-found,
}
use ai_child.Companion.Invariant.{after}

-- A child has one live companion at most, and each stands under its own identifier.
pub record IsSingle (items : Items) : Type 0 where
  pub keyed : IsKeyed items
  pub single : (child : String) → live_count child items ≤ 1

abbrev pub OneLive : CompanionService → Type 0
OneLive s = IsSingle s.items

abbrev pub StateSingle : {A : Type 0} → CompanionService × A → Type 0
StateSingle r = OneLive r.0

-- A save that brings no child a further live companion.
save-IsSingle :
    (d : CompanionObject) (items : Items)
    → IsSingle items
    → ((child : String) → weight child d ≤ found_weight child (lookup d.id items))
    → IsSingle (save d items)
save-IsSingle d items h le = record {
  keyed = save-IsKeyed d items h.keyed;
  single = λ child. omega (arith, live_count-save child d items, le child, h.single child);
}

-- The companion found under an identifier is saved again, and no livelier than before.
replaced :
    (id : String) (c d : CompanionObject) (items : Items)
    → IsSingle items
    → lookup id items ≡ some c
    → d.id ≡ c.id
    → ((child : String) → weight child d ≤ weight child c)
    → IsSingle (save d items)
unfolding weight is_live
replaced id c d items h e same le =
    save-IsSingle d items h λ child. rw (same, id_of_found id items c h.keyed e, e) (le child)

retired-weight :
    (now : ℕ) (child : String) (c : CompanionObject) → weight child (retired_at now c) ≡ 0
unfolding weight retired_at is_live status_eq
retired-weight now child c = ground arith

-- A retirement adds no live companion.
save_retired-IsSingle :
    (now : ℕ) (c : CompanionObject) (items : Items)
    → IsSingle items
    → IsSingle (save (retired_at now c) items)
save_retired-IsSingle now c items h =
    save-IsSingle (retired_at now c) items h (λ child. omega (arith, retired-weight now child c))

-- The retirement of the live companion that is found leaves the child with none.
retired-count :
    (now : ℕ) (child : String) (items : Items) (c : CompanionObject)
    → IsSingle items
    → find is_live (list_by_child child items) ≡ some c
    → live_count child (save (retired_at now c) items) ≡ 0
retired-count now child items c h e =
    let found = live-found child items c h.keyed e in
    let weighs : found_weight child (lookup (retired_at now c).id items) ≡ 1 =
      unfold retired_at in rw found.0 (found.1) in
    omega (
      arith,
      live_count-save child (retired_at now c) items,
      retired-weight now child c,
      h.single child,
      weighs,
    )

-- Behind the retirement in `create` the child has no live companion, and no other child a further one.
retire_existing-IsSingle :
    (now : ℕ) (child : String) (items : Items)
    → IsSingle items
    → IsSingle (retire_existing now child items)
      × (live_count child (retire_existing now child items) ≡ 0)
unfolding retire_existing get_active_or_paused_by_child
retire_existing-IsSingle now child items h =
    elim (Option-cases (find is_live (list_by_child child items))) [
      | inl e ↦ rw (e, retire_existing) (h, live_count-none child items e)
      | inr (c, e) ↦
          rw (e, retire_existing)
            (save_retired-IsSingle now c items h, retired-count now child items c h e)
    ]

-- A companion counts once at most, and only for its own child.
weight_le : (child : String) (c : CompanionObject) → weight child c ≤ 1
unfolding weight
weight_le child c = ground arith

weight_other :
    (child : String) (c : CompanionObject) → str_eq c.child_id child ≡ false → weight child c ≡ 0
unfolding weight
weight_other child c h = rw h refl

-- A save for a child that has no live companion.
save_new-IsSingle :
    (c : CompanionObject) (items : Items)
    → IsSingle items
    → live_count c.child_id items ≡ 0
    → IsSingle (save c items)
save_new-IsSingle c items h free = record {
  keyed = save-IsKeyed c items h.keyed;
  single = λ child. elim (Bool-cases (str_eq c.child_id child)) [
    | inl own ↦
        let none_yet : live_count child items ≡ 0 =
          subst (λ k. live_count k items ≡ 0) ((eq_iff c.child_id child).0 own) free in
        omega (arith, live_count-save child c items, weight_le child c, none_yet)
    | inr other ↦
        omega (arith, live_count-save child c items, weight_other child c other, h.single child)
  ];
}

-- A skip makes no companion livelier that is live.
skipped-weight :
    (now : ℕ) (child : String) (c : CompanionObject)
    → is_live c ≡ true
    → weight child (skipped_at now c) ≤ weight child c
unfolding weight skipped_at
skipped-weight now child c live = rw live (ground arith)

unpaused-weight :
    (now : ℕ) (child : String) (c : CompanionObject)
    → status_eq c.status CompanionObjectStatus.paused ≡ true
    → weight child (unpaused_at now c) ≤ weight child c
unfolding weight unpaused_at is_live status_eq
unpaused-weight now child c paused = ground arith

module _ (now : ℕ) (id : String) (s : CompanionService) (one : OneLive s) where
  pub create-OneLive : (r : CompanionObjectCreateRequest) → Keeps StateSingle (create now id r s)
  unfolding create
  create-OneLive r = after StateSingle (validate_safe_summary r.safe_summary) _ λ _.
      after StateSingle (validate_location r.light_location) _ λ _.
        let retired = retire_existing-IsSingle now r.child_id s.items one in
        save_new-IsSingle (new_companion now id r) (retire_existing now r.child_id s.items)
          (retired.0) (unfold new_companion in (retired.1))

  -- A call that saves the companion found under an identifier, no livelier than before.
  at_found :
      {A : Type 0} (n : Result (CompanionService × A))
      (k : CompanionObject → Result (CompanionService × A))
      → Keeps StateSingle n
      → ((c : CompanionObject) → lookup id s.items ≡ some c → Keeps StateSingle (k c))
      → Keeps StateSingle (elim (lookup id s.items) [ none ↦ n | some c ↦ k c ])
  at_found n k hn hk = elim (Option-cases (lookup id s.items)) [
    | inl e ↦ rw e hn
    | inr (c, e) ↦ rw e (hk c e)
  ]

  pub append-OneLive :
      (added : PyText) → Keeps StateSingle (update_safe_summary_append now id added s)
  unfolding update_safe_summary_append
  append-OneLive added = at_found _ _ one λ c e.
      after StateSingle (validate_safe_summary (shortened (joined_summary c.safe_summary added))) _
        λ _.
          let d : CompanionObject = record c {
            safe_summary = shortened (joined_summary c.safe_summary added);
            updated_at = now;
          } in
          replaced id c d s.items one e refl (λ child. unfold weight is_live in omega arith)

  pub recalled-OneLive : (session : String) → Keeps StateSingle (mark_recalled now id session s)
  unfolding mark_recalled
  recalled-OneLive session = at_found _ _ tt λ c e.
      let d : CompanionObject = record c {
        last_recalled_at = some now;
        recall_count = c.recall_count + 1;
        updated_at = now;
      } in
      replaced id c d s.items one e refl (λ child. unfold weight is_live in omega arith)

  pub skipped-OneLive :
      (session : Option String)
      → ((c : CompanionObject) → lookup id s.items ≡ some c → is_live c ≡ true)
      → Keeps StateSingle (mark_skipped now id session s)
  unfolding mark_skipped
  skipped-OneLive session live = at_found _ _ tt λ c e.
      replaced id c (skipped_at now c) s.items one e (unfold skipped_at in refl)
        (λ child. skipped-weight now child c (live c e))

  pub update-OneLive : (r : CompanionObjectUpdateRequest) → Keeps StateSingle (update now id r s)
  unfolding update
  update-OneLive r = at_found _ _ tt λ c e.
      after StateSingle (validate_if validate_safe_summary r.safe_summary) _ λ _.
        after StateSingle (validate_if validate_location r.light_location) _ λ _.
          replaced id c (updated_at now r c) s.items one e (unfold updated_at in refl)
            (λ child. unfold weight is_live updated_at in omega arith)

  pub unpause-OneLive : Keeps StateSingle (unpause now id s)
  unfolding unpause
  unpause-OneLive = at_found _ _ tt λ c e.
      if_of (Keeps StateSingle) (status_eq c.status CompanionObjectStatus.paused)
        (λ paused.
          replaced id c (unpaused_at now c) s.items one e (unfold unpaused_at in refl)
            (λ child. unpaused-weight now child c paused))
        (λ _. one)

pub retire_all-IsSingle :
    (now : ℕ) (cs : List CompanionObject) (items : Items) (count : ℕ)
    → IsSingle items
    → IsSingle (retire_all now cs (items, count)).0
unfolding retire_all
retire_all-IsSingle now [] items count h = h
retire_all-IsSingle now (c ∷ cs) items count h =
    if_of (λ (d : Items × ℕ). IsSingle (retire_all now cs d).0)
      (status_eq c.status CompanionObjectStatus.retired)
      (λ _. retire_all-IsSingle now cs items count h)
      (λ _.
        retire_all-IsSingle now cs (save (retired_at now c) items) (count + 1)
          (save_retired-IsSingle now c items h))

pub begun-OneLive :
    (now : ℕ) (session child : String) (kind : CompanionObjectType) (location : String)
    (source : CompanionObjectSource) (recognized : Option String) (s : CompanionService)
    → OneLive s
    → Keeps OneLive (begin_seed_naming now session child kind location source recognized s)
unfolding begin_seed_naming
begun-OneLive now session child kind location source recognized s one =
    after OneLive (validate_location location) _ (λ _. one)
