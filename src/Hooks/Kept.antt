-- ===== src/Hooks/Kept.antt =====
-- conversation_memory_hooks.py, `record_turn`: what becomes of the notes of a turn.
use mathlib.Core.Option
use ai_child.Prelude.{
  ℕ, ◌+◌, ◌≡◌, Bool, true, false, ◌||◌, List, [], ◌∷◌, Option, none, some, String, All, any, map,
  Dict, if◌then◌else◌, arith, refl, if_of, ap, sym, subst, ◌∙◌,
}
use ai_child.PyText.{PyText, codes, strip, text_is}
use ai_child.Memory.{MemoryItem, MemoryEvidence, MemoryCreateRequest, is_within, is_valid_evidence}
use ai_child.Memory.Rules.{normalize_safety_fields, forbidden_sources, is_forbidden_source}
use ai_child.Memory.Service.{Store, Outcome, item_of, create_many}
use ai_child.Memory.Extractor.{new_request}
use ai_child.Memory.Allowed.{request_of, kept, with_all, IsAllowed, allowed_are_all_stored}
use ai_child.Hooks.Notes.{Note}
use ai_child.Hooks.Threads.{Thread}
use ai_child.Hooks.Signals.{normalize_text, should_skip_relationship_memory}
use ai_child.Hooks.Requests.{
  Turn, RelationshipType, note_request, request, thread_note, relationship_request,
}
use ai_child.Hooks.Writable.{
  is_writable_note, AllWritable, thread_note-writable, threads_of-AllWritable, turn_notes-writable,
}
use ai_child.Hooks.Record.{
  turn_notes, followed_by, note_requests, threads_of, thread_requests, has_relationship_memory,
  relationship_memory_requests_for_turn, memory_requests_for_turn, stamped, record_turn,
}

request_of-stamped :
    (stamp : ℕ → ℕ × String) (n : ℕ) (rs : List MemoryCreateRequest)
    → map request_of (stamped stamp n rs) ≡ rs
unfolding stamped
request_of-stamped stamp n [] = refl
request_of-stamped stamp n (r ∷ rs) = ap (λ l. r ∷ l) (request_of-stamped stamp (n + 1) rs)

-- A memory holds what a request asks for, under an identifier and a time.
abbrev pub Answers : ℕ × String → MemoryCreateRequest → MemoryItem → Type 0
Answers (now, id) r m =
    (m.id ≡ id)
    × (m.created_at ≡ now)
    × (m.child_id ≡ r.child_id)
    × (m.memory_type ≡ r.memory_type)
    × (m.content ≡ r.content)
    × (m.tags ≡ r.tags)
    × (m.evidence ≡ r.evidence)

-- Memories answer the requests of a list one by one.
abbrev pub AllAnswer : (ℕ → ℕ × String) → ℕ → List MemoryCreateRequest → List MemoryItem → Type 0
AllAnswer stamp n [] [] = Unit
AllAnswer stamp n [] (m ∷ ms) = ⊥
AllAnswer stamp n (r ∷ rs) [] = ⊥
AllAnswer stamp n (r ∷ rs) (m ∷ ms) = Answers (stamp n) r m × AllAnswer stamp (n + 1) rs ms

kept-Answers :
    (now : ℕ) (id : String) (r : MemoryCreateRequest) → Answers (now, id) r (kept (now, id, r))
unfolding normalize_safety_fields item_of
kept-Answers now id r = ground arith

kept-AllAnswer :
    (stamp : ℕ → ℕ × String) (n : ℕ) (rs : List MemoryCreateRequest)
    → AllAnswer stamp n rs (map kept (stamped stamp n rs))
unfolding stamped
kept-AllAnswer stamp n [] = tt
kept-AllAnswer stamp n (r ∷ rs) =
    (kept-Answers (stamp n).0 (stamp n).1 r, kept-AllAnswer stamp (n + 1) rs)

module _ (lower : PyText → PyText)
    (same : lower (codes "conversation_summary") ≡ codes "conversation_summary") (t : Turn)
    (child_fits : is_within 1 120 (codes t.child_id) ≡ true)
    (session_fits : is_within 1 120 (codes t.session_id) ≡ true) where
  -- a request of the turn's child that create_many does not refuse
  abbrev IsRequest : MemoryCreateRequest → Type 0
  IsRequest r = IsAllowed lower r

  -- the requests of a list are all made, and are such requests
  IsMade : Option (List MemoryCreateRequest) → Type 0
  IsMade none = ⊥
  IsMade (some rs) = All IsRequest rs

  source_is_allowed :
      (e : MemoryEvidence)
      → e.source ≡ codes "conversation_summary"
      → is_forbidden_source lower e ≡ false
  unfolding is_forbidden_source strip text_is
  source_is_allowed e h =
      ap (λ source. any (λ s. text_is (lower (strip source)) (codes s)) forbidden_sources) h
      ∙ ap (λ source. any (λ s. text_is source (codes s)) forbidden_sources) same

  IsMadeOne : Option MemoryCreateRequest → Type 0
  IsMadeOne none = ⊥
  IsMadeOne (some r) = IsRequest r

  made_if :
      (b : Bool) (r : MemoryCreateRequest)
      → b ≡ true
      → IsRequest r
      → IsMadeOne (if b then some r else none)
  unfolding IsMadeOne
  made_if true r h a = a
  made_if false r h a = ground (arith, h)

  note_request-IsMadeOne :
      (n : Note) (metadata : Dict PyText)
      → is_writable_note n ≡ true
      → IsMadeOne (note_request t.child_id t.session_id n metadata)
  unfolding note_request new_request is_valid_evidence
  note_request-IsMadeOne n metadata w =
      made_if _ _ (ground (arith, w, child_fits, session_fits))
        (ap (λ b. b || false) (source_is_allowed _ refl), ground (arith, w))

  followed_by-IsMade :
      (first : Option MemoryCreateRequest) (rest : Option (List MemoryCreateRequest))
      → IsMadeOne first
      → IsMade rest
      → IsMade (followed_by first rest)
  unfolding IsMade IsMadeOne
  followed_by-IsMade none rest a b = elim a [ ]
  followed_by-IsMade (some r) none a b = b
  followed_by-IsMade (some r) (some rs) a b = (a, b)

  note_requests-IsMade :
      (notes : List (Bool × Note)) (behind : Option (List MemoryCreateRequest))
      → All (λ (b : Bool × Note). is_writable_note b.1 ≡ true) notes
      → IsMade behind
      → IsMade (note_requests t notes behind)
  unfolding note_requests request
  note_requests-IsMade [] behind a b = b
  note_requests-IsMade ((taken, n) ∷ notes) behind a b =
      if_of IsMade taken
        (λ _.
          followed_by-IsMade (request t n) _ (note_request-IsMadeOne n _ a.0)
            (note_requests-IsMade notes behind a.1 b))
        (λ _. note_requests-IsMade notes behind a.1 b)

  thread_requests-IsMade :
      (now : ℕ) (store : Store) (threads : List (RelationshipType × Option Thread))
      → AllWritable threads
      → IsMade (thread_requests now t store threads)
  unfolding IsMade thread_requests AllWritable relationship_request
  thread_requests-IsMade now store [] a = tt
  thread_requests-IsMade now store ((kind, none) ∷ threads) a =
      thread_requests-IsMade now store threads a.1
  thread_requests-IsMade now store ((kind, some thread) ∷ threads) a =
      if_of IsMade (has_relationship_memory now t.child_id t.session_id kind thread.topic store)
        (λ _. thread_requests-IsMade now store threads a.1)
        (λ _.
          followed_by-IsMade (relationship_request t kind thread) _
            (note_request-IsMadeOne (thread_note kind thread) _
              (thread_note-writable kind thread a.0))
            (thread_requests-IsMade now store threads a.1))

  requests-IsMade : (now : ℕ) (store : Store) → IsMade (memory_requests_for_turn lower now t store)
  unfolding IsMade memory_requests_for_turn relationship_memory_requests_for_turn
  requests-IsMade now store = note_requests-IsMade (turn_notes t) _ (turn_notes-writable t) (
      if_of IsMade
        (text_is (normalize_text lower t.child_text) []
          || should_skip_relationship_memory (normalize_text lower t.child_text) t.safety)
        (λ _. tt)
        (λ _.
          thread_requests-IsMade now store (threads_of (normalize_text lower t.child_text))
            (threads_of-AllWritable (normalize_text lower t.child_text))))

  made_list :
      (o : Option (List MemoryCreateRequest))
      → IsMade o
      → (rs : List MemoryCreateRequest) × (o ≡ some rs) × All IsRequest rs
  unfolding IsMade
  made_list none a = elim a [ ]
  made_list (some rs) a = (rs, refl, a)

  -- For identifiers of 1 to 120 characters, `record_turn` raises no error, whatever the turn and the memories
  -- of before: its requests are all made, what it returns answers them one by one, and the store behind it is
  -- that of before with each answer under its identifier, one after the other. An answer has the child, the type,
  -- the content, the tags and the evidence of its request, and an identifier and a time that are given.
  pub turn_is_stored :
      (now : ℕ) (stamp : ℕ → ℕ × String) (store : Store)
      → (rs : List MemoryCreateRequest) × (memory_requests_for_turn lower now t store ≡ some rs)
        × (record_turn lower now stamp t store
            ≡ some (
              Outcome.returned (map kept (stamped stamp 0 rs)),
              with_all (map kept (stamped stamp 0 rs)) store,
            ))
        × AllAnswer stamp 0 rs (map kept (stamped stamp 0 rs))
  unfolding record_turn
  turn_is_stored now stamp store =
      let made = made_list _ (requests-IsMade now store) in
      let requests = stamped stamp 0 made.0 in
      (
        made.0,
        made.1,
        ap (Option.map (λ rs. create_many lower (stamped stamp 0 rs) store)) made.1
            ∙ ap some (
                allowed_are_all_stored lower requests store
                  (subst (All (IsAllowed lower)) (sym (request_of-stamped stamp 0 made.0)) made.2)),
        kept-AllAnswer stamp 0 made.0,
      )
