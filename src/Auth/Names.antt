-- ===== src/Auth/Names.antt =====
-- Python's `dict` with texts that are searched as keys: the accounts of auth_repository.py by their names.
use ai_child.Prelude.{◌≡◌, List, [], ◌∷◌, Option, none, some, if◌then◌else◌, arith}
use ai_child.PyText.{PyText, text_is, text_is_refl}

abbrev pub NameDict : Type 0 → Type 0
NameDict V = List (PyText × V)

module _ {V : Type 0} where
  -- d.get(k)
  unfoldable pub lookup_name : PyText → NameDict V → Option V
  lookup_name k [] = none
  lookup_name k ((j, v) ∷ d) = if text_is j k then some v else lookup_name k d

  -- d[k] = v
  unfoldable pub insert_name : PyText → V → NameDict V → NameDict V
  insert_name k v [] = (k, v) ∷ []
  insert_name k v ((j, w) ∷ d) = if text_is j k then (k, v) ∷ d else (j, w) ∷ insert_name k v d

  pub lookup_name-insert_name :
      (k : PyText) (v : V) (d : NameDict V) → lookup_name k (insert_name k v d) ≡ some v
  unfolding lookup_name insert_name
  lookup_name-insert_name k v [] = ground (arith, text_is_refl k)
  lookup_name-insert_name k v ((j, w) ∷ d) =
      ground (arith, text_is_refl k, lookup_name-insert_name k v d)
