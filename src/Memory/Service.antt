-- ===== src/Memory/Service.antt =====
-- backend/app/services/memory_service.py: the operations, over the in-memory repository of
-- backend/app/repositories/memory_repository.py, a dictionary in insertion order. Time and fresh
-- identifiers are arguments; a raised error leaves the store that it was raised over.
use ai_child.Prelude.{
  ℕ, Bool, true, false, not, ◌&&◌, ◌||◌, List, [], ◌∷◌, Option, none, some, String, any, take, leb,
  ltb, nat_eq, str_eq, Dict, lookup, insert, remove,
}
use ai_child.Prelude.Sorting.{keep, values, sorted}
use ai_child.PyText.{PyText}
use ai_child.Memory.{
  MemoryType, MemoryCreateRequest, MemoryUpdateRequest, MemoryItem, type_code, is_safety,
}
use ai_child.Memory.Rules.{
  MemoryError, default_expires_at, is_expired, normalize_safety_fields, validate_memory_for_storage,
  matches_query, score,
}

abbrev pub Store : Type 0
Store = Dict MemoryItem

-- a result, or the error that is raised
pub data Outcome (Value : Type 0) : Type 0 where
  raised : MemoryError → Outcome Value
  returned : Value → Outcome Value

-- InMemoryMemoryRepository.save
unfoldable pub save : MemoryItem → Store → Store
save m store = insert m.id m store

unfoldable pub delete_found : String → Option MemoryItem → Store → Bool × Store
delete_found id none store = (false, store)
delete_found id (some m) store = (true, remove id store)

-- InMemoryMemoryRepository.delete, and MemoryService.delete
unfoldable pub delete : String → Store → Bool × Store
unfolding delete_found
delete id store = delete_found id (lookup id store) store

-- InMemoryMemoryRepository.list_by_child
unfoldable pub list_by_child : String → Store → List MemoryItem
list_by_child child store =
    sorted (λ m n. leb n.created_at m.created_at)
      (keep (λ m. str_eq m.child_id child) (values store))

-- MemoryService.get
unfoldable pub get : String → Store → Outcome MemoryItem
get id store = elim (lookup id store) [
  | none ↦ Outcome.raised MemoryError.not_found
  | some m ↦ Outcome.returned m
]

-- the item that create builds
unfoldable pub item_of : ℕ → String → MemoryCreateRequest → MemoryItem
unfolding default_expires_at
item_of now id r = record {
  id = id;
  child_id = r.child_id;
  memory_type = r.memory_type;
  content = r.content;
  tags = r.tags;
  evidence = r.evidence;
  confidence = r.confidence;
  importance = r.importance;
  sensitivity = r.sensitivity;
  visible_to_parent = r.visible_to_parent;
  visible_to_child = r.visible_to_child;
  requires_parent_attention = r.requires_parent_attention;
  expires_at = elim r.expires_at [ none ↦ default_expires_at r.memory_type now | some t ↦ some t ];
  embedding_id = r.embedding_id;
  created_at = now;
  updated_at = now;
}

-- a field of an update
abbrev pub set_or {ℓ} : {A : Type ℓ} → A → Option A → A
set_or current none = current
set_or current (some value) = value

-- the copy of an item with the fields of an update
unfoldable pub updated_item : ℕ → MemoryUpdateRequest → MemoryItem → MemoryItem
updated_item now r m = record m {
  memory_type = set_or m.memory_type r.memory_type;
  content = set_or m.content r.content;
  tags = set_or m.tags r.tags;
  evidence = set_or m.evidence r.evidence;
  confidence = set_or m.confidence r.confidence;
  importance = set_or m.importance r.importance;
  sensitivity = set_or m.sensitivity r.sensitivity;
  visible_to_parent = set_or m.visible_to_parent r.visible_to_parent;
  visible_to_child = set_or m.visible_to_child r.visible_to_child;
  requires_parent_attention = set_or m.requires_parent_attention r.requires_parent_attention;
  expires_at = set_or m.expires_at r.expires_at;
  embedding_id = set_or m.embedding_id r.embedding_id;
  updated_at = now;
}

-- list_memories
unfoldable pub list_memories :
    ℕ → String → Option MemoryType → (active_only include_safety : Bool) → Store → List MemoryItem
unfolding list_by_child is_expired
list_memories now child kind active_only include_safety store =
    keep
      (λ m.
        elim kind [ none ↦ true | some k ↦ nat_eq (type_code m.memory_type) (type_code k) ]
        && (include_safety || not (is_safety m.memory_type))
        && (not active_only || not (is_expired now m)))
      (list_by_child child store)

-- the type filter of retrieve
unfoldable pub is_of_types : Option (List MemoryType) → MemoryItem → Bool
is_of_types none m = true
is_of_types (some kinds) m = any (λ k. nat_eq (type_code k) (type_code m.memory_type)) kinds

-- the list of a comprehension, from its first element and the rest
unfoldable pub gather :
    Outcome MemoryItem × Store
    → Outcome (List MemoryItem) × Store
    → Outcome (List MemoryItem) × Store
gather (Outcome.raised e, store) rest = (Outcome.raised e, store)
gather (Outcome.returned m, store) (Outcome.raised e, last) = (Outcome.raised e, last)
gather (Outcome.returned m, store) (Outcome.returned ms, last) = (Outcome.returned (m ∷ ms), last)

module _ (lower : PyText → PyText) where
  -- the end of create and of update, behind the error of the validation
  unfoldable pub store_unless : Option MemoryError → MemoryItem → Store → Outcome MemoryItem × Store
  unfolding save
  store_unless none m store = (Outcome.returned m, save m store)
  store_unless (some e) m store = (Outcome.raised e, store)

  unfoldable pub store_item : MemoryItem → Store → Outcome MemoryItem × Store
  unfolding store_unless
  store_item m store =
      let normal = normalize_safety_fields m in
      store_unless (validate_memory_for_storage lower normal) normal store

  -- create
  unfoldable pub create : ℕ → String → MemoryCreateRequest → Store → Outcome MemoryItem × Store
  unfolding store_item
  create now id r store = store_item (item_of now id r) store

  -- create_many: the requests with their times and identifiers; an error ends it
  unfoldable pub create_many :
      List (ℕ × String × MemoryCreateRequest) → Store → Outcome (List MemoryItem) × Store
  unfolding create gather
  create_many [] store = (Outcome.returned [], store)
  create_many ((now, id, r) ∷ requests) store =
      let first = create now id r store in
      let rest = create_many requests first.1 in gather first rest

  unfoldable pub update_found :
      ℕ → MemoryUpdateRequest → Option MemoryItem → Store → Outcome MemoryItem × Store
  unfolding store_item
  update_found now r none store = (Outcome.raised MemoryError.not_found, store)
  update_found now r (some m) store = store_item (updated_item now r m) store

  -- update
  unfoldable pub update : ℕ → String → MemoryUpdateRequest → Store → Outcome MemoryItem × Store
  unfolding update_found
  update now id r store = update_found now r (lookup id store) store

  -- the order of the keys of retrieve: score, importance, confidence, updated_at
  unfoldable pub ranks_at_least : PyText → MemoryItem → MemoryItem → Bool
  ranks_at_least query m n =
      let a = score lower m query in
      let b = score lower n query in
      ltb b a
      || (nat_eq a b
          && (ltb n.importance m.importance
              || (nat_eq n.importance m.importance
                  && (ltb n.confidence m.confidence
                      || (nat_eq n.confidence m.confidence && leb n.updated_at m.updated_at)))))

  -- retrieve; a limit below 0 is 0
  unfoldable pub retrieve :
      ℕ → String → PyText → Option (List MemoryType) → (limit : ℕ) → Bool → Store → List MemoryItem
  retrieve now child query kinds limit include_safety store = take limit (
      sorted (ranks_at_least query) (
        keep (λ m. matches_query lower m query)
          (keep (is_of_types kinds) (list_memories now child none true include_safety store))))
