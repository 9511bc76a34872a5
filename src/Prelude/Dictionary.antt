-- ===== src/Prelude/Dictionary.antt =====
-- Python's `dict` with text keys, in insertion order: an update keeps the key's place.
use Prim.Native.String.{String}
use mathlib.Core.Path.{◌≡◌, refl}
use mathlib.Core.Option.{Option, none, some}
use mathlib.Core.List.{List, [], ◌∷◌}
use native.Mathlib.Omega.{arith}
use text.Mathlib.TextEquality.{eq_iff}
use ai_child.Prelude.Tests.{str_eq, if◌then◌else◌}

abbrev pub Dict {ℓ} : Type ℓ → Type ℓ
Dict V = List (String × V)

module _ {ℓ} {V : Type ℓ} where
  -- d.get(k)
  unfoldable pub lookup : String → Dict V → Option V
  lookup k [] = none
  lookup k ((j, v) ∷ d) = if str_eq j k then some v else lookup k d

  -- d[k] = v
  unfoldable pub insert : String → V → Dict V → Dict V
  insert k v [] = (k, v) ∷ []
  insert k v ((j, w) ∷ d) = if str_eq j k then (k, v) ∷ d else (j, w) ∷ insert k v d

  -- d.pop(k, None)
  unfoldable pub remove : String → Dict V → Dict V
  remove k [] = []
  remove k ((j, w) ∷ d) = let rest = remove k d in if str_eq j k then rest else (j, w) ∷ rest

  pub lookup-insert :
      (k j : String) (v : V) (d : Dict V)
      → lookup j (insert k v d) ≡ (if str_eq k j then some v else lookup j d)
  unfolding lookup insert
  lookup-insert k j v [] = refl
  lookup-insert k j v ((i, w) ∷ d) =
      ground (arith, eq_iff k j, eq_iff i k, eq_iff i j, lookup-insert k j v d)

  pub lookup-remove :
      (k j : String) (d : Dict V)
      → lookup j (remove k d) ≡ (if str_eq k j then none else lookup j d)
  unfolding lookup remove
  lookup-remove k j [] = ground arith
  lookup-remove k j ((i, w) ∷ d) =
      ground (arith, eq_iff k j, eq_iff i k, eq_iff i j, lookup-remove k j d)

-- d.get(k, default)
unfoldable pub lookup_or {ℓ} : {V : Type ℓ} → V → String → Dict V → V
unfolding lookup
lookup_or w k d = elim (lookup k d) [ none ↦ w | some v ↦ v ]

module _ {ℓ} {V : Type ℓ} where
  pub lookup_or-insert :
      (w : V) (k j : String) (v : V) (d : Dict V)
      → lookup_or w j (insert k v d) ≡ (if str_eq k j then v else lookup_or w j d)
  unfolding lookup_or
  lookup_or-insert w k j v d = ground (arith, lookup-insert k j v d)

  pub lookup_or-remove :
      (w : V) (k j : String) (d : Dict V)
      → lookup_or w j (remove k d) ≡ (if str_eq k j then w else lookup_or w j d)
  unfolding lookup_or
  lookup_or-remove w k j d = ground (arith, lookup-remove k j d)

pub ruleset dict_laws = (lookup-insert, lookup-remove, lookup_or-insert, lookup_or-remove)
