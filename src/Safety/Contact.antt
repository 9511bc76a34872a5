-- ===== src/Safety/Contact.antt =====
-- safety_engine.py, `classify_input`: a stranger who asks for a secret.
use ai_child.Prelude.{
  ◌≤◌, ◌≡◌, List, ◌∷◌, ◌++◌, All-append_right, true, any, any-append, arith, refl, le→leb,
}
use ai_child.Enums.{RiskLevel, RiskCategory, risk_rank, category_eq}
use ai_child.PyText.{PyText, contains_any}
use ai_child.Safety.{SafetyClassification, is_at_least, summarise, classify_input}
use ai_child.Safety.Hits.{Hit, normalize, input_hits, self_harm_hits, contact_hits}
use ai_child.Safety.Markers.{stranger_markers, secret_markers}
use ai_child.Safety.Highest.{rank}
use ai_child.Safety.Risk.{summarise-max, summarise-attention}
use ai_child.Safety.Categories.{summarise-categories}

abbrev stranger_hit : Hit
stranger_hit = (RiskLevel.high, RiskCategory.stranger_contact, "stranger_secret")

abbrev secret_hit : Hit
secret_hit = (RiskLevel.high, RiskCategory.adult_secret, "adult_secret")

-- What the classification says of such a text.
abbrev pub IsContactAlarm : SafetyClassification → Type 0
IsContactAlarm s =
    (is_at_least s RiskLevel.high ≡ true)
    × (s.requires_parent_attention ≡ true)
    × (any (category_eq RiskCategory.stranger_contact) s.categories ≡ true)
    × (any (category_eq RiskCategory.adult_secret) s.categories ≡ true)

module _ (xs ys : List Hit) where
  abbrev around : List Hit
  around = xs ++ stranger_hit ∷ secret_hit ∷ ys

  contact-rank : 3 ≤ risk_rank (summarise around).risk_level
  unfolding risk_rank
  contact-rank =
      (All-append_right (λ h. rank h ≤ risk_rank (summarise around).risk_level) xs
        (stranger_hit ∷ secret_hit ∷ ys)
        ((summarise-max (risk_rank (summarise around).risk_level) around).1 (omega arith))).0

  contact-high : is_at_least (summarise around) RiskLevel.high ≡ true
  unfolding is_at_least risk_rank
  contact-high = le→leb 3 _ contact-rank

  contact-category :
      (c : RiskCategory)
      → any (λ (h : Hit). category_eq c h.1) (stranger_hit ∷ secret_hit ∷ ys) ≡ true
      → any (category_eq c) (summarise around).categories ≡ true
  contact-category c e = rw ((summarise-categories around).1 c) (
      rw (any-append (λ (h : Hit). category_eq c h.1) xs (stranger_hit ∷ secret_hit ∷ ys))
        (ground (arith, e)))

  summarise-contact : IsContactAlarm (summarise around)
  unfolding category_eq
  summarise-contact = (
    contact-high,
    rw (summarise-attention around) contact-high,
    contact-category RiskCategory.stranger_contact refl,
    contact-category RiskCategory.adult_secret refl,
  )

-- A text that names a stranger and a secret is at least high, a parent is told, and both the stranger
-- and the secret stand among its categories.
pub stranger_secret_alarm :
    (lower : PyText → PyText) (text : PyText)
    → contains_any (normalize lower text) stranger_markers ≡ true
    → contains_any (normalize lower text) secret_markers ≡ true
    → IsContactAlarm (classify_input lower text)
unfolding classify_input input_hits contact_hits
stranger_secret_alarm lower text e f =
    rw (e, f) (summarise-contact (self_harm_hits (normalize lower text)) _)
