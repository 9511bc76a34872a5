-- ===== src/Memory/Retrieval.antt =====
-- memory_service.py, `retrieve`.
use ai_child.Prelude.{
  ℕ, ◌≡◌, min, Bool, true, false, not, ◌&&◌, ◌||◌, List, Option, none, some, String, All, length,
  length-take, ◌++◌, drop, take-append-drop, subst, sym, str_eq, leb, arith, ◌∙◌, ap,
}
use ai_child.Prelude.Sorting.{
  keep, values, sorted, IsSorted, All-keep, All-take, All-sorted, All-mono, keep-passes, keep-keep,
  keep-ext, keep-passes_both, length-keep-sorted, length-sorted, sorted-IsSorted,
}
use ai_child.PyText.{PyText}
use ai_child.Memory.{MemoryType, MemoryItem, is_safety}
use ai_child.Memory.Rules.{is_expired, matches_query}
use ai_child.Memory.Service.{
  Store, list_by_child, list_memories, is_of_types, ranks_at_least, retrieve,
}
use ai_child.Memory.Order.{ranks-total, ranks-chained}

module _ (lower : PyText → PyText) (now : ℕ) (child : String) (query : PyText)
    (kinds : Option (List MemoryType)) (include_safety : Bool) where
  -- what a call of retrieve asks of a memory
  abbrev pub is_asked : MemoryItem → Bool
  is_asked m =
      str_eq m.child_id child
      && (include_safety || not (is_safety m.memory_type))
      && not (elim m.expires_at [ none ↦ false | some until ↦ leb until now ])
      && is_of_types kinds m
      && matches_query lower m query

  abbrev of_child : MemoryItem → Bool
  of_child m = str_eq m.child_id child

  abbrev is_open : MemoryItem → Bool
  is_open m = (include_safety || not (is_safety m.memory_type)) && not (is_expired now m)

  abbrev matches : MemoryItem → Bool
  matches m = matches_query lower m query

  abbrev pub found : Store → List MemoryItem
  found store =
      keep (λ m. matches_query lower m query)
        (keep (is_of_types kinds) (list_memories now child none true include_safety store))

  found-is_asked : (store : Store) → All (λ m. is_asked m ≡ true) (found store)
  unfolding list_memories list_by_child is_expired
  found-is_asked store =
      let newest = list_by_child child store in
      All-mono (λ m. ((of_child m && is_open m) && is_of_types kinds m) && matches m ≡ true)
        (λ m. is_asked m ≡ true) (found store) (λ m h. ground arith)
        (keep-passes_both (λ m. (of_child m && is_open m) && is_of_types kinds m) matches
          (keep (is_of_types kinds) (keep is_open newest))
          (keep-passes_both (λ m. of_child m && is_open m) (is_of_types kinds) (keep is_open newest)
            (keep-passes_both of_child is_open newest (
              All-sorted (λ m. of_child m ≡ true) (λ m n. leb n.created_at m.created_at)
                (keep of_child (values store)) (keep-passes of_child (values store))))))

  length-found : (store : Store) → length (found store) ≡ length (keep is_asked (values store))
  unfolding list_memories list_by_child is_expired
  length-found store =
      let newest = list_by_child child store in
      let three = λ (m : MemoryItem). (is_open m && is_of_types kinds m) && matches m in
      ap (λ ms. length (keep matches ms)) (keep-keep (is_of_types kinds) is_open newest)
      ∙ ap length (keep-keep matches (λ m. is_open m && is_of_types kinds m) newest)
      ∙ length-keep-sorted three (λ m n. leb n.created_at m.created_at)
          (keep of_child (values store))
      ∙ ap length (
          keep-keep three of_child (values store)
          ∙ keep-ext (λ m. of_child m && three m) is_asked (values store) (λ m. ground arith))

  -- How many of the memories that are found pass a test.
  length-keep-found :
      (test : MemoryItem → Bool) (store : Store)
      → length (keep test (found store)) ≡ length (keep test (keep is_asked (values store)))
  unfolding list_memories list_by_child is_expired
  length-keep-found test store =
      let newest = list_by_child child store in
      let three = λ (m : MemoryItem). (is_open m && is_of_types kinds m) && matches m in
      let four = λ (m : MemoryItem). three m && test m in
      ap (λ ms. length (keep test (keep matches ms))) (keep-keep (is_of_types kinds) is_open newest)
      ∙ ap (λ ms. length (keep test ms))
          (keep-keep matches (λ m. is_open m && is_of_types kinds m) newest)
      ∙ ap length (keep-keep test three newest)
      ∙ length-keep-sorted four (λ m n. leb n.created_at m.created_at)
          (keep of_child (values store))
      ∙ ap length (
          keep-keep four of_child (values store)
          ∙ keep-ext (λ m. of_child m && four m) (λ m. is_asked m && test m) (values store)
              (λ m. ground arith)
          ∙ sym (keep-keep test is_asked (values store)))

  -- a predicate of every stored memory holds of every memory that is found
  found-stored :
      (P : MemoryItem → Type 0) (store : Store) → All P (values store) → All P (found store)
  unfolding list_memories list_by_child
  found-stored P store a = All-keep P matches _ (
      All-keep P (is_of_types kinds) _ (
        All-keep P is_open _ (
          All-sorted P (λ m n. leb n.created_at m.created_at) _
            (All-keep P of_child (values store) a))))

  -- An answer of retrieve: stored memories that are asked for, as many as there are up to the limit. With the
  -- others behind them they are all that are asked for, each as often as it is stored, from the first rank
  -- down: so none of the others ranks above one of the answer.
  pub record IsAnswer (limit : ℕ) (store : Store) (ms : List MemoryItem) : Type 0 where
    pub asked : All (λ m. is_asked m ≡ true) ms
    pub others : List MemoryItem
    pub ranked : IsSorted (ranks_at_least lower query) (ms ++ others)
    pub as_often :
        (test : MemoryItem → Bool)
        → length (keep test (ms ++ others)) ≡ length (keep test (keep is_asked (values store)))
    pub many : length ms ≡ min limit (length (keep is_asked (values store)))
    pub stored :
        (p : MemoryItem → Bool) → All (λ m. p m ≡ true) (values store) → All (λ m. p m ≡ true) ms

  -- For any store and any limit `retrieve` gives such an answer.
  pub retrieve-IsAnswer :
      (limit : ℕ) (store : Store)
      → IsAnswer limit store (retrieve lower now child query kinds limit include_safety store)
  unfolding retrieve
  retrieve-IsAnswer limit store =
      let ordered = sorted (ranks_at_least lower query) (found store) in
      record {
        asked =
            All-take _ limit ordered
              (All-sorted _ (ranks_at_least lower query) (found store) (found-is_asked store));
        others = drop limit ordered;
        ranked =
            subst (IsSorted (ranks_at_least lower query)) (sym (take-append-drop limit ordered)) (
              sorted-IsSorted (ranks_at_least lower query) (ranks-total lower query)
                (ranks-chained lower query) (found store));
        as_often = λ test.
            ap (λ ms. length (keep test ms)) (take-append-drop limit ordered)
            ∙ length-keep-sorted test (ranks_at_least lower query) (found store)
            ∙ length-keep-found test store;
        many =
            length-take limit ordered
            ∙ ap (min limit) (
                length-sorted (λ m. true) (ranks_at_least lower query) (found store)
                ∙ length-found store);
        stored = λ p a. All-take _ limit ordered (
            All-sorted _ (ranks_at_least lower query) (found store)
              (found-stored (λ m. p m ≡ true) store a));
      }
