-- ===== src/Memory/Safe.antt =====
-- memory_service.py: the calls that change what is stored, as steps from store to store.
use ai_child.Prelude.{
  ℕ, ◌≡◌, Bool, true, false, not, ◌&&◌, ◌||◌, List, [], ◌∷◌, Option, none, some, String, any, All,
  arith, refl, lookup,
}
use ai_child.Prelude.Sorting.{values, All-values-insert, All-values-remove}
use ai_child.PyText.{PyText, contains_any}
use ai_child.Memory.{MemorySensitivity, MemoryCreateRequest, MemoryUpdateRequest, MemoryItem}
use ai_child.Memory.Rules.{
  MemoryError, is_watched, normalize_safety_fields, forbidden_content_markers, is_forbidden_source,
  validate_memory_for_storage,
}
use ai_child.Memory.Service.{
  Store, Outcome, save, delete, item_of, updated_item, store_item, create, create_many, update,
  store_unless, gather, update_found, delete_found,
}

abbrev pub is_high : MemorySensitivity → Bool
is_high MemorySensitivity.high = true
is_high MemorySensitivity.critical = true
is_high _ = false

-- a call that changes the store
pub data Call : Type 0 where
  creates : List (ℕ × String × MemoryCreateRequest) → Call
  updates : ℕ → String → MemoryUpdateRequest → Call
  deletes : String → Call

module _ (lower : PyText → PyText) where
  -- What may be remembered: neither a raw source nor a label, and what is watched is open to the parent.
  pub record IsSafe (m : MemoryItem) : Type 0 where
    pub sources : any (is_forbidden_source lower) m.evidence ≡ false
    pub labels : contains_any m.content forbidden_content_markers ≡ false
    pub shown :
        not (is_watched m)
          || m.visible_to_parent && m.requires_parent_attention && is_high m.sensitivity
        ≡ true

  abbrev pub AllSafe : Store → Type 0
  AllSafe store = All IsSafe (values store)

  abbrev pub step : Call → Store → Store
  step (Call.creates requests) store = (create_many lower requests store).1
  step (Call.updates now id r) store = (update lower now id r store).1
  step (Call.deletes id) store = (delete id store).1

  abbrev pub run : List Call → Store → Store
  run [] store = store
  run (call ∷ calls) store = run calls (step call store)

  shown_if_watched :
      (m : MemoryItem)
      → let n = normalize_safety_fields m in
        not (is_watched n)
          || n.visible_to_parent && n.requires_parent_attention && is_high n.sensitivity
        ≡ true
  unfolding normalize_safety_fields is_watched
  shown_if_watched m = ground arith

  normal-IsSafe :
      (m : MemoryItem)
      → validate_memory_for_storage lower (normalize_safety_fields m) ≡ none
      → IsSafe (normalize_safety_fields m)
  unfolding validate_memory_for_storage
  normal-IsSafe m h = record {
    sources = ground arith;
    labels = ground arith;
    shown = shown_if_watched m;
  }

  store_item-AllSafe :
      (m : MemoryItem) (store : Store) → AllSafe store → AllSafe (store_item lower m store).1
  unfolding store_item store_unless save
  store_item-AllSafe m store safe =
      cases (validate_memory_for_storage lower (normalize_safety_fields m)) refl
    where
      cases :
          (o : Option MemoryError)
          → validate_memory_for_storage lower (normalize_safety_fields m) ≡ o
          → AllSafe (store_unless lower o (normalize_safety_fields m) store).1
      cases none h =
          All-values-insert IsSafe (normalize_safety_fields m).id (normalize_safety_fields m) store
            (normal-IsSafe m h) safe
      cases (some e) h = safe

  gather-AllSafe :
      (first : Outcome MemoryItem × Store) (rest : Outcome (List MemoryItem) × Store)
      → AllSafe first.1
      → AllSafe rest.1
      → AllSafe (gather first rest).1
  unfolding gather
  gather-AllSafe (Outcome.raised e, store) rest a b = a
  gather-AllSafe (Outcome.returned m, store) (Outcome.raised e, last) a b = b
  gather-AllSafe (Outcome.returned m, store) (Outcome.returned ms, last) a b = b

  create_many-AllSafe :
      (requests : List (ℕ × String × MemoryCreateRequest)) (store : Store)
      → AllSafe store
      → AllSafe (create_many lower requests store).1
  unfolding create_many create
  create_many-AllSafe [] store safe = safe
  create_many-AllSafe ((now, id, r) ∷ requests) store safe =
      let first = store_item-AllSafe (item_of now id r) store safe in
      let after = (create lower now id r store).1 in
      gather-AllSafe (create lower now id r store) (create_many lower requests after) first
        (create_many-AllSafe requests after first)

  update-AllSafe :
      (now : ℕ) (r : MemoryUpdateRequest) (o : Option MemoryItem) (store : Store)
      → AllSafe store
      → AllSafe (update_found lower now r o store).1
  unfolding update_found
  update-AllSafe now r none store safe = safe
  update-AllSafe now r (some m) store safe = store_item-AllSafe (updated_item now r m) store safe

  delete-AllSafe :
      (id : String) (o : Option MemoryItem) (store : Store)
      → AllSafe store
      → AllSafe (delete_found id o store).1
  unfolding delete_found
  delete-AllSafe id none store safe = safe
  delete-AllSafe id (some m) store safe = All-values-remove IsSafe id store safe

  step-AllSafe : (call : Call) (store : Store) → AllSafe store → AllSafe (step call store)
  unfolding update delete
  step-AllSafe (Call.creates requests) store safe = create_many-AllSafe requests store safe
  step-AllSafe (Call.updates now id r) store safe =
      update-AllSafe now r (lookup id store) store safe
  step-AllSafe (Call.deletes id) store safe = delete-AllSafe id (lookup id store) store safe

  -- Whatever calls are made, over a store of safe memories only safe memories are stored: no evidence
  -- from a raw source, no fixed label in the content, and every memory of a safety signal or of
  -- critical sensitivity is at least of high sensitivity, visible to the parent and marked for attention.
  pub run-AllSafe : (calls : List Call) (store : Store) → AllSafe store → AllSafe (run calls store)
  run-AllSafe [] store safe = safe
  run-AllSafe (call ∷ calls) store safe =
      run-AllSafe calls (step call store) (step-AllSafe call store safe)
