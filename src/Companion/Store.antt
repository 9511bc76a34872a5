-- ===== src/Companion/Store.antt =====
-- backend/app/repositories/companion_object_repository.py: the in-memory repository, a dictionary
-- from identifiers to companions in insertion order.
use ai_child.Prelude.{
  String, Bool, true, false, lookup, remove, ◌&&◌, List, [], ◌∷◌, Option, none, some, str_eq, leb,
  if◌then◌else◌, Dict, insert,
}
use ai_child.Companion.{CompanionObject, CompanionObjectStatus, status_eq}

abbrev pub Items : Type 0
Items = Dict CompanionObject

-- self._items.values()
unfoldable pub values : Items → List CompanionObject
values [] = []
values ((k, c) ∷ items) = c ∷ values items

-- save
unfoldable pub save : CompanionObject → Items → Items
save c items = insert c.id c items

-- The first element that passes a test.
unfoldable pub find : (CompanionObject → Bool) → List CompanionObject → Option CompanionObject
find p [] = none
find p (c ∷ cs) = if p c then some c else find p cs

-- [item for item in ... if test]
unfoldable pub select : (CompanionObject → Bool) → List CompanionObject → List CompanionObject
select p [] = []
select p (c ∷ cs) = let rest = select p cs in if p c then c ∷ rest else rest

abbrev pub is_of_child : String → CompanionObject → Bool
is_of_child child c = str_eq c.child_id child

-- get_active_by_child
unfoldable pub get_active_by_child : String → Items → Option CompanionObject
unfolding find values status_eq
get_active_by_child child items =
    find (λ c. is_of_child child c && status_eq c.status CompanionObjectStatus.active)
      (values items)

-- sorted(items, key=created_at, reverse=True), which keeps the order of equal keys
unfoldable pub insert_newest : CompanionObject → List CompanionObject → List CompanionObject
insert_newest c [] = c ∷ []
insert_newest c (d ∷ ds) =
    if leb d.created_at c.created_at then c ∷ d ∷ ds else d ∷ insert_newest c ds

unfoldable pub newest_first : List CompanionObject → List CompanionObject
unfolding insert_newest
newest_first [] = []
newest_first (c ∷ cs) = insert_newest c (newest_first cs)

-- list_by_child
unfoldable pub list_by_child : String → Items → List CompanionObject
unfolding newest_first select values
list_by_child child items = newest_first (select (is_of_child child) (values items))

-- delete
unfoldable pub delete : String → Items → Items × Bool
delete id items = elim (lookup id items) [
  | none ↦ (items, false)
  | some _ ↦ (remove id items, true)
]
