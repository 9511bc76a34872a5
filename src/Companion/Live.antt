-- ===== src/Companion/Live.antt =====
-- companion_object_repository.py and companion_object_service.py: how many companions of a child are
-- live, which is active or paused, behind a save and behind a retirement.
use ai_child.Prelude.{
  ℕ, ◌+◌, ◌≡◌, String, Bool, true, ◌&&◌, List, [], ◌∷◌, Option, none, some, All, arith, refl, if_of,
  inl, inr, Bool-cases, ◌∙◌, sym, str_eq, eq_iff, leb, if◌then◌else◌, lookup, insert, lookup-insert,
}
use ai_child.Companion.{CompanionObject, CompanionObjectStatus, status_eq}
use ai_child.Companion.Store.{
  Items, values, save, find, select, insert_newest, newest_first, list_by_child, is_of_child,
  get_active_by_child,
}
use ai_child.Companion.Service.{is_live}
use ai_child.Companion.Values.{find_of, find-passes, list_by_child_of, newest_first_of}

unfoldable pub weight : String → CompanionObject → ℕ
weight child c = if is_of_child child c && is_live c then 1 else 0

-- the number of a child's live companions
unfoldable pub live_count : String → Items → ℕ
live_count child [] = 0
live_count child ((k, c) ∷ items) = weight child c + live_count child items

abbrev pub found_weight : String → Option CompanionObject → ℕ
found_weight child none = 0
found_weight child (some c) = weight child c

-- Every companion stands under its own identifier, and no two under one.
abbrev pub IsKeyed : Items → Type 0
IsKeyed [] = Unit
IsKeyed ((k, c) ∷ items) = (c.id ≡ k) × (lookup k items ≡ none) × IsKeyed items

pub save-IsKeyed : (c : CompanionObject) (items : Items) → IsKeyed items → IsKeyed (save c items)
unfolding save insert lookup
save-IsKeyed c [] h = (refl, refl, tt)
save-IsKeyed c ((k, d) ∷ items) h =
    ground
      (arith, eq_iff k c.id, eq_iff c.id k, save-IsKeyed c items h.2, lookup-insert c.id k c items)

-- A save puts the companion in the place of the one that is found under its identifier.
pub live_count-save :
    (child : String) (c : CompanionObject) (items : Items)
    → live_count child (save c items) + found_weight child (lookup c.id items)
      ≡ live_count child items + weight child c
unfolding live_count save insert lookup
live_count-save child c [] = omega arith
live_count-save child c ((k, d) ∷ items) = elim (Bool-cases (str_eq k c.id)) [
  | inl same ↦ rw same (omega arith)
  | inr other ↦ rw other (omega (arith, live_count-save child c items))
]

pub id_of_found :
    (k : String) (items : Items) (c : CompanionObject)
    → IsKeyed items
    → lookup k items ≡ some c
    → c.id ≡ k
unfolding lookup
id_of_found k [] c h e = ground arith
id_of_found k ((j, d) ∷ items) c h e = ground (arith, eq_iff j k, id_of_found k items c h.2)

-- What is found under its own identifier, in every place of a list of values.
IsFound : Items → CompanionObject → Type 0
IsFound items c = lookup c.id items ≡ some c

-- the number of live companions in a list
number : List CompanionObject → ℕ
number [] = 0
number (c ∷ cs) = (if is_live c then 1 else 0) + number cs

number-insert_newest :
    (c : CompanionObject) (cs : List CompanionObject)
    → number (insert_newest c cs) ≡ (if is_live c then 1 else 0) + number cs
unfolding number insert_newest
number-insert_newest c [] = refl
number-insert_newest c (d ∷ ds) = elim (Bool-cases (leb d.created_at c.created_at)) [
  | inl e ↦ rw e refl
  | inr e ↦ rw e (omega (arith, number-insert_newest c ds))
]

number-newest_first : (cs : List CompanionObject) → number (newest_first cs) ≡ number cs
unfolding number newest_first
number-newest_first [] = refl
number-newest_first (c ∷ cs) =
    omega (arith, number-insert_newest c (newest_first cs), number-newest_first cs)

number-select :
    (child : String) (items : Items)
    → number (select (is_of_child child) (values items)) ≡ live_count child items
unfolding number select values live_count weight
number-select child [] = refl
number-select child ((k, c) ∷ items) = elim (Bool-cases (str_eq c.child_id child)) [
  | inl e ↦ rw e (omega (arith, number-select child items))
  | inr e ↦ rw e (omega (arith, number-select child items))
]

number-list_by_child :
    (child : String) (items : Items) → number (list_by_child child items) ≡ live_count child items
unfolding list_by_child
number-list_by_child child items =
    number-newest_first (select (is_of_child child) (values items)) ∙ number-select child items

find-none : (cs : List CompanionObject) → find is_live cs ≡ none → number cs ≡ 0
unfolding find number
find-none [] h = refl
find-none (c ∷ cs) h = elim (Bool-cases (is_live c)) [
  | inl e ↦ let found : some c ≡ none = rw e at h in cc
  | inr e ↦ rw e (omega (arith, find-none cs (rw e at h)))
]

-- No live companion of the child is found: it has none.
pub live_count-none :
    (child : String) (items : Items)
    → find is_live (list_by_child child items) ≡ none
    → live_count child items ≡ 0
live_count-none child items h =
    sym (number-list_by_child child items) ∙ find-none (list_by_child child items) h

-- An entry in front hides none of those behind it.
IsFound-behind :
    (k : String) (d : CompanionObject) (items : Items) (cs : List CompanionObject)
    → lookup k items ≡ none
    → All (IsFound items) cs
    → All (IsFound ((k, d) ∷ items)) cs
unfolding IsFound lookup
IsFound-behind k d items [] free a = tt
IsFound-behind k d items (c ∷ cs) free a =
    (ground (arith, eq_iff k c.id), IsFound-behind k d items cs free a.1)

all-IsFound : (items : Items) → IsKeyed items → All (IsFound items) (values items)
unfolding values
all-IsFound [] h = tt
all-IsFound ((k, c) ∷ items) h = (
  unfold IsFound lookup in ground (arith, eq_iff k c.id),
  IsFound-behind k c items (values items) h.1 (all-IsFound items h.2),
)

select-passes :
    (p : CompanionObject → Bool) (cs : List CompanionObject) → All (λ c. p c ≡ true) (select p cs)
unfolding select
select-passes p [] = tt
select-passes p (c ∷ cs) =
    if_of (All (λ c. p c ≡ true)) (p c) {x = c ∷ select p cs} {y = select p cs}
      (λ e. (e, select-passes p cs)) (λ _. select-passes p cs)

-- The live companion of the child that is found is stored under its identifier, and counts.
pub live-found :
    (child : String) (items : Items) (c : CompanionObject)
    → IsKeyed items
    → find is_live (list_by_child child items) ≡ some c
    → (lookup c.id items ≡ some c) × (weight child c ≡ 1)
unfolding IsFound list_by_child weight
live-found child items c keyed e = (
  rw e at (
      find_of (IsFound items) is_live (list_by_child child items)
        (list_by_child_of (IsFound items) child items (all-IsFound items keyed))),
  rw
      (
        rw e at (
            find_of (λ d. is_of_child child d ≡ true) is_live (list_by_child child items)
              (newest_first_of (λ d. is_of_child child d ≡ true) _
                (select-passes (is_of_child child) (values items)))),
        find-passes is_live (list_by_child child items) c e,
      )
      refl,
)

abbrev is_active_of : String → CompanionObject → Bool
is_active_of child c = is_of_child child c && status_eq c.status CompanionObjectStatus.active

-- The active companion of the child that is found is stored under its identifier, and live.
pub active-found :
    (child : String) (items : Items) (c : CompanionObject)
    → IsKeyed items
    → get_active_by_child child items ≡ some c
    → (lookup c.id items ≡ some c) × (is_live c ≡ true)
unfolding IsFound get_active_by_child is_live
active-found child items c keyed e = (
  rw e at (find_of (IsFound items) (is_active_of child) (values items) (all-IsFound items keyed)),
  ground (arith, find-passes (is_active_of child) (values items) c e),
)
