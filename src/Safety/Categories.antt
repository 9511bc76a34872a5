-- ===== src/Safety/Categories.antt =====
-- safety_engine.py, `classify_input`: the list of categories.
use mathlib.Core.Bool.{decide, false≢true}
use ai_child.Prelude.{
  ◌≡◌, ◌↔◌, List, [], ◌∷◌, ◌++◌, true, false, ◌||◌, any, any-append, arith, refl, Bool-cases, inl,
  inr,
}
use ai_child.Enums.{RiskCategory, category_eq, RiskCategory-discrete}
use ai_child.PyText.{PyText}
use ai_child.Safety.{collect, add_category, summarise, classify_input}
use ai_child.Safety.Hits.{Hit, normalize, input_hits}

-- No category stands twice.
abbrev pub IsDistinct : List RiskCategory → Type 0
IsDistinct [] = Unit
IsDistinct (c ∷ cs) = (any (category_eq c) cs ≡ false) × IsDistinct cs

pub category_eq_iff : (c d : RiskCategory) → (category_eq c d ≡ true) ↔ (c ≡ d)
unfolding category_eq
category_eq_iff c d = elim (RiskCategory-discrete c d) as (λ x. (decide x ≡ true) ↔ (c ≡ d)) [
  | yes p ↦ (λ _. p, λ _. refl)
  | no q ↦ (λ e. absurd (false≢true e), λ e. absurd (q e))
]

any_at :
    (c d : RiskCategory) (seen : List RiskCategory)
    → category_eq c d ≡ true
    → any (category_eq d) seen ≡ true
    → any (category_eq c) seen ≡ true
any_at c d seen e h = rw ((category_eq_iff c d).0 e) h

any-add :
    (c d : RiskCategory) (seen : List RiskCategory)
    → any (category_eq c) (add_category seen d) ≡ any (category_eq c) seen || category_eq c d
unfolding add_category
any-add c d seen = ground (arith, any_at c d seen, any-append (category_eq c) seen (d ∷ []))

IsDistinct-concat :
    (d : RiskCategory) (cs : List RiskCategory)
    → IsDistinct cs
    → any (category_eq d) cs ≡ false
    → IsDistinct (cs ++ d ∷ [])
IsDistinct-concat d [] h e = (refl, tt)
IsDistinct-concat d (c ∷ cs) h e = (
  ground (
    arith,
    any-append (category_eq c) cs (d ∷ []),
    h.0,
    category_eq_iff c d,
    category_eq_iff d c,
  ),
  IsDistinct-concat d cs h.1 (ground arith),
)

IsDistinct-add :
    (d : RiskCategory) (cs : List RiskCategory) → IsDistinct cs → IsDistinct (add_category cs d)
unfolding add_category
IsDistinct-add d cs h = elim (Bool-cases (any (category_eq d) cs)) [
  | inl e ↦ rw e h
  | inr e ↦ rw e (IsDistinct-concat d cs h e)
]

any-collect_eq :
    (c : RiskCategory) (seen : List RiskCategory) (hs : List Hit)
    → any (category_eq c) (collect seen hs)
      ≡ any (category_eq c) seen || any (λ h. category_eq c h.1) hs
unfolding collect
any-collect_eq c seen [] = ground arith
any-collect_eq c seen (h ∷ hs) =
    ground (arith, any-collect_eq c (add_category seen h.1) hs, any-add c h.1 seen)

IsDistinct-collect :
    (seen : List RiskCategory) (hs : List Hit) → IsDistinct seen → IsDistinct (collect seen hs)
unfolding collect
IsDistinct-collect seen [] h = h
IsDistinct-collect seen (x ∷ hs) h =
    IsDistinct-collect (add_category seen x.1) hs (IsDistinct-add x.1 seen h)

pub summarise-categories :
    (hs : List Hit)
    → IsDistinct (summarise hs).categories
      × ((c : RiskCategory)
          → any (category_eq c) (summarise hs).categories ≡ any (λ h. category_eq c h.1) hs)
unfolding summarise
summarise-categories [] = (tt, λ c. refl)
summarise-categories (h ∷ hs) =
    (IsDistinct-collect [] (h ∷ hs) tt, λ c. any-collect_eq c [] (h ∷ hs))

-- The categories of a text stand once each, and are exactly the categories of its hits.
pub categories_of_hits :
    (lower : PyText → PyText) (text : PyText)
    → IsDistinct (classify_input lower text).categories
      × ((c : RiskCategory)
          → any (category_eq c) (classify_input lower text).categories
            ≡ any (λ h. category_eq c h.1) (input_hits (normalize lower text)))
unfolding classify_input
categories_of_hits lower text = summarise-categories (input_hits (normalize lower text))
