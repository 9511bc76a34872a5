-- ===== src/Hooks/Alarm.antt =====
-- conversation_memory_hooks.py with the route of a message: what is remembered of an alarm.
use ai_child.Prelude.{
  ℕ, ◌+◌, ◌≡◌, Bool, true, false, not, ◌&&◌, ◌||◌, List, [], ◌∷◌, Option, none, some, String, any,
  map, All, lookup, ◌<◌, str_eq, eq_iff, eq_refl, Bool-cases, inl, inr, if◌then◌else◌, arith, ap,
  subst,
}
use ai_child.Prelude.Sorting.{IfSome}
use ai_child.PyText.{PyText, codes}
use ai_child.Enums.{RiskLevel, level_eq}
use ai_child.Safety.{classify_input}
use ai_child.Scene.{SceneId, scene_eq}
use ai_child.Scene.Router.{SceneOrchestrator, Drawn}
use ai_child.Memory.{MemoryCreateRequest, MemoryItem, is_within, is_safety, is_critical}
use ai_child.Memory.Rules.{normalize_safety_fields, is_watched}
use ai_child.Memory.Service.{Store, Outcome, item_of}
use ai_child.Memory.Extractor.{new_request}
use ai_child.Memory.Allowed.{request_of, kept, with_all, AreDistinct, with_all-found}
use ai_child.Memory.Batch.{Request}
use ai_child.Hooks.Notes.{Note, guardian_note}
use ai_child.Hooks.Requests.{Turn, note_request, request}
use ai_child.Hooks.Record.{
  turn_notes, followed_by, note_requests, memory_requests_for_turn,
  relationship_memory_requests_for_turn, stamped, record_turn,
}
use ai_child.Turn.{Message, turn_intent, route_turn}
use ai_child.Turn.Alarm.{route_turn-IsGuardian}
use ai_child.Hooks.Kept.{turn_is_stored}

-- a request for a memory that tells a parent of a safety signal, critical if the turn was
abbrev is_guardian_request : Turn → MemoryCreateRequest → Bool
is_guardian_request t r =
    is_safety r.memory_type
    && str_eq r.child_id t.child_id
    && (not (level_eq t.safety.risk_level RiskLevel.critical) || is_critical r.sensitivity)

-- such a memory
abbrev pub tells_parent : Turn → MemoryItem → Bool
tells_parent t m =
    is_safety m.memory_type
    && str_eq m.child_id t.child_id
    && m.visible_to_parent
    && m.requires_parent_attention
    && (not (level_eq t.safety.risk_level RiskLevel.critical) || is_critical m.sensitivity)

kept-tells_parent :
    (t : Turn) (x : Request)
    → is_guardian_request t (request_of x) ≡ true
    → tells_parent t (kept x) ≡ true
unfolding normalize_safety_fields is_watched item_of
kept-tells_parent t (now, id, q) h = ground arith

any-tells_parent :
    (t : Turn) (stamp : ℕ → ℕ × String) (n : ℕ) (rs : List MemoryCreateRequest)
    → any (is_guardian_request t) rs ≡ true
    → any (tells_parent t) (map kept (stamped stamp n rs)) ≡ true
unfolding stamped
any-tells_parent t stamp n [] h = h
any-tells_parent t stamp n (r ∷ rs) h = elim (Bool-cases (is_guardian_request t r)) [
  | inl e ↦ ground (arith, kept-tells_parent t ((stamp n).0, (stamp n).1, r) e)
  | inr e ↦ ground (arith, any-tells_parent t stamp (n + 1) rs (ground arith))
]

-- A memory has the identifier that its request was given.
kept-id : (x : Request) → (kept x).id ≡ (x.1)
unfolding normalize_safety_fields item_of
kept-id (now, id, q) = ground arith

-- identifiers that are drawn afresh
abbrev pub AreFresh : (ℕ → ℕ × String) → Type 0
AreFresh stamp = (i j : ℕ) → (stamp i).1 ≡ (stamp j).1 → i ≡ j

module _ (stamp : ℕ → ℕ × String) (fresh : AreFresh stamp) where
  other_id : (i j : ℕ) → i < j → str_eq (stamp j).1 (stamp i).1 ≡ false
  other_id i j h = elim (Bool-cases (str_eq (stamp j).1 (stamp i).1)) [
    | inl e ↦ absurd (omega (arith, fresh j i ((eq_iff (stamp j).1 (stamp i).1).0 e)))
    | inr e ↦ e
  ]

  later_ids :
      (i n : ℕ) (rs : List MemoryCreateRequest)
      → i < n
      → All (λ m. str_eq m.id (stamp i).1 ≡ false) (map kept (stamped stamp n rs))
  unfolding stamped
  later_ids i n [] h = tt
  later_ids i n (r ∷ rs) h = (
    rw (kept-id ((stamp n).0, (stamp n).1, r)) (other_id i n h),
    later_ids i (n + 1) rs (omega arith),
  )

  stamped-AreDistinct :
      (n : ℕ) (rs : List MemoryCreateRequest) → AreDistinct (map kept (stamped stamp n rs))
  unfolding stamped
  stamped-AreDistinct n [] = tt
  stamped-AreDistinct n (r ∷ rs) = (
    rw (kept-id ((stamp n).0, (stamp n).1, r)) (later_ids n (n + 1) rs (omega arith)),
    stamped-AreDistinct (n + 1) rs,
  )

module _ (t : Turn) where
  abbrev HasGuardian : Option (List MemoryCreateRequest) → Type 0
  HasGuardian = IfSome (λ rs. any (is_guardian_request t) rs ≡ true)

  guardian_in_front :
      (first : Option MemoryCreateRequest) (rest : Option (List MemoryCreateRequest))
      → IfSome (λ r. is_guardian_request t r ≡ true) first
      → HasGuardian (followed_by first rest)
  guardian_in_front none rest h = tt
  guardian_in_front (some r) none h = tt
  guardian_in_front (some r) (some rs) h = ground (arith, h)

  guardian_behind :
      (taken : Bool) (first : Option MemoryCreateRequest) (rest : Option (List MemoryCreateRequest))
      → HasGuardian rest
      → HasGuardian (if taken then followed_by first rest else rest)
  guardian_behind false first rest h = h
  guardian_behind true none rest h = tt
  guardian_behind true (some r) none h = tt
  guardian_behind true (some r) (some rs) h = ground (arith, h)

  checked :
      (b : Bool) (r : MemoryCreateRequest)
      → is_guardian_request t r ≡ true
      → IfSome (λ r. is_guardian_request t r ≡ true) (if b then some r else none)
  checked false r h = tt
  checked true r h = h

  request-guardian :
      IfSome
        (λ r. is_guardian_request t r ≡ true)
        (request t (guardian_note (level_eq t.safety.risk_level RiskLevel.critical)))
  unfolding request note_request new_request
  request-guardian = checked _ _ (ground (arith, eq_refl t.child_id))

  noted :
      (notes : List (Bool × Note)) (behind : Option (List MemoryCreateRequest)) (taken : Bool)
      (n : Note)
      → taken ≡ true
      → IfSome (λ r. is_guardian_request t r ≡ true) (request t n)
      → HasGuardian (note_requests t ((taken, n) ∷ notes) behind)
  unfolding note_requests
  noted notes behind taken n h g = rw h (guardian_in_front (request t n) _ g)

  noted_later :
      (notes : List (Bool × Note)) (behind : Option (List MemoryCreateRequest)) (b : Bool × Note)
      → HasGuardian (note_requests t notes behind)
      → HasGuardian (note_requests t (b ∷ notes) behind)
  unfolding note_requests
  noted_later notes behind (taken, n) g = guardian_behind taken (request t n) _ g

  guardian_is_noted :
      t.route_decision.active_scene ≡ SceneId.safety_guardian
      → (behind : Option (List MemoryCreateRequest))
      → HasGuardian (note_requests t (turn_notes t) behind)
  unfolding turn_notes scene_eq
  guardian_is_noted h behind = noted_later _ _ _ (
      noted_later _ _ _ (
        noted_later _ _ _
          (noted _ _ _ _ (ap (λ s. scene_eq s SceneId.safety_guardian) h) request-guardian)))

-- the turn that `handle_message` records of a message, with its route
unfoldable pub turn_of : (PyText → PyText) → Drawn → Message → SceneOrchestrator → Turn
unfolding route_turn turn_intent classify_input
turn_of lower drawn m o =
    let safety = classify_input lower m.text in
    record {
      child_id = m.child_id;
      session_id = m.session_id;
      child_text = m.text;
      safety = safety;
      intent = turn_intent lower m safety;
      route_decision = (route_turn lower drawn m o).1;
    }

-- what is left of a turn: a call that returns, and a memory that is stored, and tells a parent of it
abbrev pub Remembers : Turn → Option (Outcome (List MemoryItem) × Store) → Type 0
Remembers t done =
    (ms : List MemoryItem) × (after : Store) × (done ≡ some (Outcome.returned ms, after))
    × ((m : MemoryItem) × (lookup m.id after ≡ some m) × (tells_parent t m ≡ true))

module _ (lower : PyText → PyText)
    (same : lower (codes "conversation_summary") ≡ codes "conversation_summary") where
  -- A turn in the scene of the safety guardian, with identifiers of 1 to 120 characters and fresh ones for what
  -- is stored, leaves in the store a memory of the child that tells of a safety signal: visible to the parent,
  -- marked for attention, and critical if the turn was.
  pub guardian_turn_is_remembered :
      (t : Turn) (now : ℕ) (stamp : ℕ → ℕ × String) (store : Store)
      → AreFresh stamp
      → is_within 1 120 (codes t.child_id) ≡ true
      → is_within 1 120 (codes t.session_id) ≡ true
      → t.route_decision.active_scene ≡ SceneId.safety_guardian
      → Remembers t (record_turn lower now stamp t store)
  unfolding memory_requests_for_turn
  guardian_turn_is_remembered t now stamp store fresh child session scene =
      let stored = turn_is_stored lower same t child session now stamp store in
      (
        map kept (stamped stamp 0 stored.0),
        with_all (map kept (stamped stamp 0 stored.0)) store,
        stored.2,
        with_all-found (tells_parent t) (map kept (stamped stamp 0 stored.0)) store
            (stamped-AreDistinct stamp fresh 0 stored.0)
            (any-tells_parent t stamp 0 stored.0 (
              subst (HasGuardian t) stored.1 (
                guardian_is_noted t scene
                  (relationship_memory_requests_for_turn lower now t store)))),
      )

  -- A message that asks for a parent's attention, with identifiers of 1 to 120 characters and fresh ones for
  -- what is stored, leaves in the store a memory of its child that tells of a safety signal: visible to the
  -- parent, marked for attention, and critical if the message was. The homework, the image, the intent and the
  -- state of the router do not matter.
  pub alarm_is_remembered :
      (drawn : Drawn) (m : Message) (o : SceneOrchestrator) (now : ℕ) (stamp : ℕ → ℕ × String)
      (store : Store)
      → AreFresh stamp
      → is_within 1 120 (codes m.child_id) ≡ true
      → is_within 1 120 (codes m.session_id) ≡ true
      → (classify_input lower m.text).requires_parent_attention ≡ true
      → Remembers
          (turn_of lower drawn m o)
          (record_turn lower now stamp (turn_of lower drawn m o) store)
  unfolding turn_of
  alarm_is_remembered drawn m o now stamp store fresh child session alarm =
      guardian_turn_is_remembered (turn_of lower drawn m o) now stamp store fresh child session
        (route_turn-IsGuardian lower drawn m o alarm).0
