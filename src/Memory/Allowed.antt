-- ===== src/Memory/Allowed.antt =====
-- memory_service.py, `create_many`: a list of requests none of which is refused.
use ai_child.Prelude.{
  ℕ, ◌≡◌, Bool, true, false, List, [], ◌∷◌, none, some, String, All, any, map, refl, arith, ap, ◌∙◌,
  lookup, insert, lookup-insert, str_eq, eq_refl, Bool-cases, inl, inr, if◌then◌else◌,
}
use ai_child.Prelude.Sorting.{IfSome}
use ai_child.PyText.{PyText, contains_any}
use ai_child.Memory.{MemoryCreateRequest, MemoryItem}
use ai_child.Memory.Rules.{
  normalize_safety_fields, forbidden_content_markers, is_forbidden_source,
  validate_memory_for_storage,
}
use ai_child.Memory.Service.{
  Store, Outcome, item_of, store_unless, store_item, save, gather, create, create_many,
}
use ai_child.Memory.Batch.{Request}

-- the request of an element of a list for create_many
abbrev pub request_of : Request → MemoryCreateRequest
request_of (now, id, r) = r

-- what create makes of a request that is not refused
abbrev pub kept : Request → MemoryItem
kept (now, id, r) = normalize_safety_fields (item_of now id r)

-- a store with the memories of a list, each under its identifier, one after the other
unfoldable pub with_all : List MemoryItem → Store → Store
with_all [] store = store
with_all (m ∷ ms) store = with_all ms (insert m.id m store)

-- What stands under an identifier that none of the memories has stays there.
with_all-other :
    (k : String) (ms : List MemoryItem) (store : Store)
    → All (λ m. str_eq m.id k ≡ false) ms
    → lookup k (with_all ms store) ≡ lookup k store
unfolding with_all
with_all-other k [] store a = refl
with_all-other k (m ∷ ms) store a =
    with_all-other k ms (insert m.id m store) a.1 ∙ lookup-insert m.id k m store ∙ rw a.0 refl

-- no two memories of one identifier
abbrev pub AreDistinct : List MemoryItem → Type 0
AreDistinct [] = Unit
AreDistinct (m ∷ ms) = All (λ n. str_eq n.id m.id ≡ false) ms × AreDistinct ms

-- Of memories with distinct identifiers, one that passes a test is found under its identifier.
pub with_all-found :
    (test : MemoryItem → Bool) (ms : List MemoryItem) (store : Store)
    → AreDistinct ms
    → any test ms ≡ true
    → (m : MemoryItem) × (lookup m.id (with_all ms store) ≡ some m) × (test m ≡ true)
unfolding with_all
with_all-found test [] store d h = ground arith
with_all-found test (m ∷ ms) store d h = elim (Bool-cases (test m)) [
  | inl e ↦ (
    m,
    with_all-other m.id ms (insert m.id m store) d.0
        ∙ lookup-insert m.id m.id m store
        ∙ rw (eq_refl m.id) refl,
    e,
  )
  | inr e ↦ with_all-found test ms (insert m.id m store) d.1 (ground (arith, h, e))
]

module _ (lower : PyText → PyText) where
  -- a request whose evidence and content are allowed
  abbrev pub IsAllowed : MemoryCreateRequest → Type 0
  IsAllowed r =
      (any (is_forbidden_source lower) r.evidence ≡ false)
      × (contains_any r.content forbidden_content_markers ≡ false)

  pub checked :
      (b : Bool) (r : MemoryCreateRequest)
      → IsAllowed r
      → IfSome IsAllowed (if b then some r else none)
  checked true r a = a
  checked false r a = tt

  allowed-normal :
      (m : MemoryItem)
      → any (is_forbidden_source lower) m.evidence ≡ false
      → contains_any m.content forbidden_content_markers ≡ false
      → validate_memory_for_storage lower (normalize_safety_fields m) ≡ none
  unfolding validate_memory_for_storage normalize_safety_fields
  allowed-normal m s l = ground arith

  allowed_is_stored :
      (now : ℕ) (id : String) (r : MemoryCreateRequest) (store : Store)
      → IsAllowed r
      → create lower now id r store ≡ (
        Outcome.returned (kept (now, id, r)),
        insert (kept (now, id, r)).id (kept (now, id, r)) store,
      )
  unfolding create store_item store_unless save item_of
  allowed_is_stored now id r store a =
      ap (λ o. store_unless lower o (kept (now, id, r)) store)
        (allowed-normal (item_of now id r) a.0 a.1)

  -- Requests that are allowed are all returned, and all stored.
  pub allowed_are_all_stored :
      (requests : List Request) (store : Store)
      → All IsAllowed (map request_of requests)
      → create_many lower requests store
        ≡ (Outcome.returned (map kept requests), with_all (map kept requests) store)
  unfolding create_many gather with_all
  allowed_are_all_stored [] store a = refl
  allowed_are_all_stored ((now, id, r) ∷ requests) store a =
      let after = insert (kept (now, id, r)).id (kept (now, id, r)) store in
      ap (λ (f : Outcome MemoryItem × Store). gather f (create_many lower requests f.1))
        (allowed_is_stored now id r store a.0)
      ∙ ap (gather (Outcome.returned (kept (now, id, r)), after))
          (allowed_are_all_stored requests after a.1)

  pub allowed_are_stored :
      (requests : List Request) (store : Store)
      → All IsAllowed (map request_of requests)
      → (create_many lower requests store).0 ≡ Outcome.returned (map kept requests)
  allowed_are_stored requests store a =
      ap (λ (r : Outcome (List MemoryItem) × Store). r.0) (allowed_are_all_stored requests store a)
