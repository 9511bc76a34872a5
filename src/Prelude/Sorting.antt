-- ===== src/Prelude/Sorting.antt =====
-- Python's comprehensions with a test, `sorted(..., reverse=True)`, and the values of a `dict`.
use Prim.Native.Nat.{ℕ, zero, suc}
use Prim.Native.String.{String}
use mathlib.Core.Path.{◌≡◌, refl}
use mathlib.Core.Bool.{Bool, true, false, ◌&&◌}
use mathlib.Core.List.{List, [], ◌∷◌}
use mathlib.Core.Logic.{◌⊎◌, inl, inr}
use mathlib.Core.Option.{Option, none, some}
use native.Mathlib.Omega.{arith}
use ai_child.Prelude.Tests.{str_eq, if◌then◌else◌, if_of, Bool-cases}
use ai_child.Prelude.Lists.{All, take, length}
use ai_child.Prelude.Dictionary.{Dict, lookup, insert, remove}

module _ {A : Type 0} where
  -- [x for x in xs if test(x)]
  unfoldable pub keep : (A → Bool) → List A → List A
  keep test [] = []
  keep test (x ∷ xs) = let rest = keep test xs in if test x then x ∷ rest else rest

  -- d.values()
  unfoldable pub values : Dict A → List A
  values [] = []
  values ((k, v) ∷ d) = v ∷ values d

  module _ (at_least : A → A → Bool) where
    -- the place of an element that stood before all the others
    unfoldable pub place : A → List A → List A
    place x [] = x ∷ []
    place x (y ∷ ys) = if at_least x y then x ∷ y ∷ ys else y ∷ place x ys

    -- The stable sort from the largest on.
    unfoldable pub sorted : List A → List A
    unfolding place
    sorted [] = []
    sorted (x ∷ xs) = place x (sorted xs)

    abbrev pub IsSorted : List A → Type 0
    IsSorted [] = Unit
    IsSorted (x ∷ xs) = All (λ y. at_least x y ≡ true) xs × IsSorted xs

module _ {A : Type 0} (P : A → Type 0) where
  pub All-keep : (test : A → Bool) (xs : List A) → All P xs → All P (keep test xs)
  unfolding keep
  All-keep test [] a = tt
  All-keep test (x ∷ xs) a =
      if_of (All P) (test x) (λ _. (a.0, All-keep test xs a.1)) (λ _. All-keep test xs a.1)

  pub All-take : (n : ℕ) (xs : List A) → All P xs → All P (take n xs)
  All-take zero xs a = tt
  All-take (suc n) [] a = tt
  All-take (suc n) (x ∷ xs) a = (a.0, All-take n xs a.1)

  pub All-values-insert :
      (k : String) (v : A) (d : Dict A) → P v → All P (values d) → All P (values (insert k v d))
  unfolding values insert
  All-values-insert k v [] p a = (p, tt)
  All-values-insert k v ((j, w) ∷ d) p a =
      if_of (λ (x : Dict A). All P (values x)) (str_eq j k) (λ _. (p, a.1))
        (λ _. (a.0, All-values-insert k v d p a.1))

  pub All-values-remove : (k : String) (d : Dict A) → All P (values d) → All P (values (remove k d))
  unfolding values remove
  All-values-remove k [] a = tt
  All-values-remove k ((j, w) ∷ d) a =
      if_of (λ (x : Dict A). All P (values x)) (str_eq j k) (λ _. All-values-remove k d a.1)
        (λ _. (a.0, All-values-remove k d a.1))

  abbrev pub IfSome : Option A → Type 0
  IfSome none = Unit
  IfSome (some v) = P v

  pub All-values-lookup : (k : String) (d : Dict A) → All P (values d) → IfSome (lookup k d)
  unfolding values lookup
  All-values-lookup k [] a = tt
  All-values-lookup k ((j, w) ∷ d) a =
      if_of IfSome (str_eq j k) (λ _. a.0) (λ _. All-values-lookup k d a.1)

  module _ (at_least : A → A → Bool) where
    pub All-place : (x : A) (ys : List A) → P x → All P ys → All P (place at_least x ys)
    unfolding place
    All-place x [] p a = (p, tt)
    All-place x (y ∷ ys) p a =
        if_of (All P) (at_least x y) {x = x ∷ y ∷ ys} {y = y ∷ place at_least x ys} (λ _. (p, a))
          (λ _. (a.0, All-place x ys p a.1))

    pub All-sorted : (xs : List A) → All P xs → All P (sorted at_least xs)
    unfolding sorted
    All-sorted [] a = tt
    All-sorted (x ∷ xs) a = All-place x (sorted at_least xs) a.0 (All-sorted xs a.1)

pub All-both :
    {A : Type 0} (P Q : A → Type 0) (xs : List A) → All P xs → All Q xs → All (λ x. P x × Q x) xs
All-both P Q [] p q = tt
All-both P Q (x ∷ xs) p q = ((p.0, q.0), All-both P Q xs p.1 q.1)

pub All-mono :
    {A : Type 0} (P Q : A → Type 0) (xs : List A) → ((x : A) → P x → Q x) → All P xs → All Q xs
All-mono P Q [] h p = tt
All-mono P Q (x ∷ xs) h p = (h x p.0, All-mono P Q xs h p.1)

pub keep-passes :
    {A : Type 0} (test : A → Bool) (xs : List A) → All (λ x. test x ≡ true) (keep test xs)
unfolding keep
keep-passes test [] = tt
keep-passes test (x ∷ xs) =
    if_of (All (λ y. test y ≡ true)) (test x) {x = x ∷ keep test xs} {y = keep test xs}
      (λ h. (h, keep-passes test xs)) (λ _. keep-passes test xs)

-- Sorting by an order that is total and transitive.
module _ {A : Type 0} (at_least : A → A → Bool)
    (total : (x y : A) → at_least x y ≡ false → at_least y x ≡ true)
    (chained : (x y z : A) → at_least x y ≡ true → at_least y z ≡ true → at_least x z ≡ true) where
  place-IsSorted :
      (x : A) (ys : List A) → IsSorted at_least ys → IsSorted at_least (place at_least x ys)
  unfolding place
  place-IsSorted x [] s = (tt, tt)
  place-IsSorted x (y ∷ ys) s =
      if_of (IsSorted at_least) (at_least x y) {x = x ∷ y ∷ ys} {y = y ∷ place at_least x ys}
        (λ h. (
          (
            h,
            All-mono (λ z. at_least y z ≡ true) (λ z. at_least x z ≡ true) ys (λ z. chained x y z h)
                s.0,
          ),
          s,
        ))
        (λ h. (
          All-place (λ z. at_least y z ≡ true) at_least x ys (total x y h) s.0,
          place-IsSorted x ys s.1,
        ))

  pub sorted-IsSorted : (xs : List A) → IsSorted at_least (sorted at_least xs)
  unfolding sorted
  sorted-IsSorted [] = tt
  sorted-IsSorted (x ∷ xs) = place-IsSorted x (sorted at_least xs) (sorted-IsSorted xs)

-- How many pass a test is no matter of the order.
module _ {A : Type 0} (test : A → Bool) (at_least : A → A → Bool) where
  length-keep-place :
      (x : A) (ys : List A) → length (keep test (place at_least x ys)) ≡ length (keep test (x ∷ ys))
  unfolding place keep
  length-keep-place x [] = refl
  length-keep-place x (y ∷ ys) = ground (arith, length-keep-place x ys)

  pub length-keep-sorted :
      (xs : List A) → length (keep test (sorted at_least xs)) ≡ length (keep test xs)
  unfolding sorted keep
  length-keep-sorted [] = refl
  length-keep-sorted (x ∷ xs) =
      ground (arith, length-keep-place x (sorted at_least xs), length-keep-sorted xs)

  length-place : (x : A) (ys : List A) → length (place at_least x ys) ≡ suc (length ys)
  unfolding place
  length-place x [] = refl
  length-place x (y ∷ ys) = ground (arith, length-place x ys)

  pub length-sorted : (xs : List A) → length (sorted at_least xs) ≡ length xs
  unfolding sorted
  length-sorted [] = refl
  length-sorted (x ∷ xs) = omega (arith, length-place x (sorted at_least xs), length-sorted xs)

pub keep-keep :
    {A : Type 0} (p q : A → Bool) (xs : List A) → keep p (keep q xs) ≡ keep (λ x. q x && p x) xs
unfolding keep
keep-keep p q [] = refl
keep-keep p q (x ∷ xs) = ground (arith, keep-keep p q xs)

pub keep-ext :
    {A : Type 0} (p q : A → Bool) (xs : List A) → ((x : A) → p x ≡ q x) → keep p xs ≡ keep q xs
unfolding keep
keep-ext p q [] h = refl
keep-ext p q (x ∷ xs) h = ground (arith, h x, keep-ext p q xs h)

-- A test that passed already, with the next one.
pub keep-passes_both :
    {A : Type 0} (p q : A → Bool) (xs : List A)
    → All (λ x. p x ≡ true) xs
    → All (λ x. p x && q x ≡ true) (keep q xs)
unfolding keep
keep-passes_both p q [] a = tt
keep-passes_both p q (x ∷ xs) a =
    if_of (All (λ y. p y && q y ≡ true)) (q x) {x = x ∷ keep q xs} {y = keep q xs}
      (λ h. (ground (arith, a.0), keep-passes_both p q xs a.1)) (λ _. keep-passes_both p q xs a.1)

-- An element of a list.
abbrev pub IsIn : {A : Type 0} → A → List A → Type 0
IsIn x [] = ⊥
IsIn x (y ∷ ys) = (x ≡ y) ⊎ IsIn x ys

pub all-IsIn : {A : Type 0} (xs : List A) → All (λ x. IsIn x xs) xs
all-IsIn [] = tt
all-IsIn (x ∷ xs) =
    (inl refl, All-mono (λ y. IsIn y xs) (λ y. IsIn y (x ∷ xs)) xs (λ y h. inr h) (all-IsIn xs))

-- A predicate of every element that a comprehension or a sort gives, and of what it leaves out.
module _ {A : Type 0} (P : A → Type 0) where
  pub All-of-keep :
      (test : A → Bool) (xs : List A)
      → ((x : A) → test x ≡ false → P x)
      → All P (keep test xs)
      → All P xs
  unfolding keep
  All-of-keep test [] out a = tt
  All-of-keep test (x ∷ xs) out a = elim (Bool-cases (test x)) [
    | inl e ↦ let b : P x × All P (keep test xs) = rw e at a in (b.0, All-of-keep test xs out b.1)
    | inr e ↦ let b : All P (keep test xs) = rw e at a in (out x e, All-of-keep test xs out b)
  ]

  module _ (at_least : A → A → Bool) where
    All-of-place : (x : A) (ys : List A) → All P (place at_least x ys) → P x × All P ys
    unfolding place
    All-of-place x [] a = a
    All-of-place x (y ∷ ys) a = elim (Bool-cases (at_least x y)) [
      | inl e ↦ rw e at a
      | inr e ↦
          let b : P y × All P (place at_least x ys) = rw e at a in
          let c = All-of-place x ys b.1 in (c.0, (b.0, c.1))
    ]

    pub All-of-sorted : (xs : List A) → All P (sorted at_least xs) → All P xs
    unfolding sorted
    All-of-sorted [] a = tt
    All-of-sorted (x ∷ xs) a =
        let b = All-of-place x (sorted at_least xs) a in (b.0, All-of-sorted xs b.1)

pub of-IsIn : {A : Type 0} (P : A → Type 0) (x : A) (xs : List A) → IsIn x xs → All P xs → P x
of-IsIn P x [] i a = elim i [ ]
of-IsIn P x (y ∷ ys) (inl e) a = rw e a.0
of-IsIn P x (y ∷ ys) (inr i) a = of-IsIn P x ys i a.1
