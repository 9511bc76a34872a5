-- ===== src/Memory/Batch.antt =====
-- memory_service.py, `create_many`: a list of requests, one after the other.
use ai_child.Prelude.{ℕ, ◌≡◌, List, [], ◌∷◌, ◌++◌, Option, none, some, String, ap, refl, arith}
use ai_child.PyText.{PyText}
use ai_child.Memory.{MemoryCreateRequest, MemoryItem}
use ai_child.Memory.Rules.{MemoryError, normalize_safety_fields, validate_memory_for_storage}
use ai_child.Memory.Service.{
  Store, Outcome, item_of, store_unless, store_item, gather, create, create_many,
}

abbrev pub Request : Type 0
Request = ℕ × String × MemoryCreateRequest

-- To go on behind a first result that was returned.
gather-goes_on :
    (first : Outcome MemoryItem × Store) (rest other : Outcome (List MemoryItem) × Store)
    (Q : Store → Type 0) (ms : List MemoryItem) (e : MemoryError)
    → (gather first rest).0 ≡ Outcome.returned ms
    → Q (gather first rest).1
    → ((later : List MemoryItem)
        → rest.0 ≡ Outcome.returned later
        → Q rest.1
        → other ≡ (Outcome.raised e, rest.1))
    → gather first other ≡ (Outcome.raised e, (gather first rest).1)
unfolding gather
gather-goes_on (Outcome.raised d, store) rest other Q ms e h q k = ground arith
gather-goes_on (Outcome.returned m, store) (Outcome.raised d, last) other Q ms e h q k =
    ground arith
gather-goes_on (Outcome.returned m, store) (Outcome.returned later, last) other Q ms e h q k =
    ap (gather (Outcome.returned m, store)) (k later refl q)

module _ (lower : PyText → PyText) where
  store_unless-raises :
      (o : Option MemoryError) (m : MemoryItem) (store : Store) (e : MemoryError)
      → (store_unless lower o m store).0 ≡ Outcome.raised e
      → store_unless lower o m store ≡ (Outcome.raised e, store)
  unfolding store_unless
  store_unless-raises none m store e h = ground arith
  store_unless-raises (some d) m store e h = ap (λ (v : Outcome MemoryItem). (v, store)) h

  create-raises :
      (now : ℕ) (id : String) (r : MemoryCreateRequest) (store : Store) (e : MemoryError)
      → (create lower now id r store).0 ≡ Outcome.raised e
      → create lower now id r store ≡ (Outcome.raised e, store)
  unfolding create store_item
  create-raises now id r store e h =
      let normal = normalize_safety_fields (item_of now id r) in
      store_unless-raises (validate_memory_for_storage lower normal) normal store e h

  -- A list in which a request is refused, behind others that are not, raises the error of that request:
  -- what stands in front of it is stored, what stands behind it is not.
  pub create_many-stops :
      (front : List Request) (now : ℕ) (id : String) (bad : MemoryCreateRequest)
      (back : List Request) (store : Store) (ms : List MemoryItem) (e : MemoryError)
      → (create_many lower front store).0 ≡ Outcome.returned ms
      → (create lower now id bad (create_many lower front store).1).0 ≡ Outcome.raised e
      → create_many lower (front ++ (now, id, bad) ∷ back) store
        ≡ (Outcome.raised e, (create_many lower front store).1)
  unfolding create_many gather
  create_many-stops [] now id bad back store ms e h hb =
      ap (λ first. gather first (create_many lower back (create lower now id bad store).1))
        (create-raises now id bad store e hb)
  create_many-stops ((t, i, r) ∷ front) now id bad back store ms e h hb =
      let after = (create lower t i r store).1 in
      gather-goes_on (create lower t i r store) (create_many lower front after)
        (create_many lower (front ++ (now, id, bad) ∷ back) after)
        (λ s. (create lower now id bad s).0 ≡ Outcome.raised e) ms e h hb
        (λ later. create_many-stops front now id bad back after later e)
