-- ===== src/Companion/Values.antt =====
-- companion_object_repository.py: predicates of every stored companion, and of the results of calls.
use ai_child.Prelude.{
  String, ◌≡◌, Bool, true, List, [], ◌∷◌, Option, none, some, All, arith, if_of, lookup, insert,
  str_eq, leb,
}
use ai_child.Companion.{CompanionObject}
use ai_child.Companion.Store.{
  Items, values, save, find, select, insert_newest, newest_first, list_by_child,
}
use ai_child.Companion.Rules.{Result, ok, err}

-- A call that succeeds, with a result that has the property.
abbrev pub Succeeds {ℓ} : {A : Type ℓ} → (A → Type 0) → Result A → Type 0
Succeeds P (ok a) = P a
Succeeds P (err e) = ⊥

-- A call whose result, if it succeeds, has the property.
abbrev pub Keeps {ℓ} : {A : Type ℓ} → (A → Type 0) → Result A → Type 0
Keeps P (ok a) = P a
Keeps P (err e) = Unit

module _ (P : CompanionObject → Type 0) where
  abbrev pub Holds : Option CompanionObject → Type 0
  Holds none = Unit
  Holds (some c) = P c

  pub All-insert :
      (k : String) (c : CompanionObject) (items : Items)
      → P c
      → All P (values items)
      → All P (values (insert k c items))
  unfolding values insert
  All-insert k c [] p a = (p, tt)
  All-insert k c ((j, d) ∷ items) p a =
      if_of (λ (x : Items). All P (values x)) (str_eq j k) (λ _. (p, a.1))
        (λ _. (a.0, All-insert k c items p a.1))

  pub All-save :
      (c : CompanionObject) (items : Items)
      → P c
      → All P (values items)
      → All P (values (save c items))
  unfolding save
  All-save c items = All-insert c.id c items

  pub lookup_of : (k : String) (items : Items) → All P (values items) → Holds (lookup k items)
  unfolding values lookup
  lookup_of k [] a = tt
  lookup_of k ((j, d) ∷ items) a = if_of Holds (str_eq j k) (λ _. a.0) (λ _. lookup_of k items a.1)

  pub find_of :
      (p : CompanionObject → Bool) (cs : List CompanionObject) → All P cs → Holds (find p cs)
  unfolding find
  find_of p [] a = tt
  find_of p (c ∷ cs) a = if_of Holds (p c) (λ _. a.0) (λ _. find_of p cs a.1)

  select_of :
      (p : CompanionObject → Bool) (cs : List CompanionObject) → All P cs → All P (select p cs)
  unfolding select
  select_of p [] a = tt
  select_of p (c ∷ cs) a =
      if_of (All P) (p c) (λ _. (a.0, select_of p cs a.1)) (λ _. select_of p cs a.1)

  insert_newest_of :
      (c : CompanionObject) (cs : List CompanionObject)
      → P c
      → All P cs
      → All P (insert_newest c cs)
  unfolding insert_newest
  insert_newest_of c [] p a = (p, tt)
  insert_newest_of c (d ∷ ds) p a =
      if_of (All P) (leb d.created_at c.created_at) {x = c ∷ d ∷ ds} {y = d ∷ insert_newest c ds}
        (λ _. (p, a)) (λ _. (a.0, insert_newest_of c ds p a.1))

  pub newest_first_of : (cs : List CompanionObject) → All P cs → All P (newest_first cs)
  unfolding newest_first
  newest_first_of [] a = tt
  newest_first_of (c ∷ cs) a = insert_newest_of c (newest_first cs) a.0 (newest_first_of cs a.1)

  pub list_by_child_of :
      (child : String) (items : Items) → All P (values items) → All P (list_by_child child items)
  unfolding list_by_child
  list_by_child_of child items a = newest_first_of _ (select_of _ (values items) a)

-- What a search finds passes the test.
pub find-passes :
    (p : CompanionObject → Bool) (cs : List CompanionObject) (c : CompanionObject)
    → find p cs ≡ some c
    → p c ≡ true
unfolding find
find-passes p [] c h = ground arith
find-passes p (d ∷ ds) c h = ground (arith, find-passes p ds c)
