-- ===== src/Safety/Risk.antt =====
-- safety_engine.py, `classify_input`: the risk level of a child's text.
use ai_child.Prelude.{ℕ, ◌≤◌, ◌≡◌, ◌↔◌, List, [], ◌∷◌, All, true, any, any-append, arith, refl}
use ai_child.Enums.{RiskLevel, RiskCategory, risk_rank, category_eq}
use ai_child.PyText.{PyText, contains_any}
use ai_child.Safety.{
  SafetyClassification, is_at_least, highest, collect, add_category, summarise, classify_input,
  safe_response_hint,
}
use ai_child.Safety.Hits.{Hit, normalize, input_hits, self_harm_hits, hit_if}
use ai_child.Safety.Markers.{self_harm_markers}
use ai_child.Safety.Highest.{rank, highest-bounds, highest-critical, highest_of, le-highest}

All-le : (n m : ℕ) (hs : List Hit) → n ≤ m → All (λ h. rank h ≤ n) hs → All (λ h. rank h ≤ m) hs
All-le n m [] le a = tt
All-le n m (h ∷ hs) le a = (omega arith, All-le n m hs le a.1)

pub summarise-max :
    (n : ℕ) (hs : List Hit) → All (λ h. rank h ≤ n) hs ↔ (risk_rank (summarise hs).risk_level ≤ n)
unfolding summarise risk_rank
summarise-max n [] = (λ _. omega arith, λ _. tt)
summarise-max n (h ∷ hs) = (
  λ a. highest_of (λ x. rank x ≤ n) h hs a.0 a.1,
  λ le. All-le (rank (highest h hs)) n (h ∷ hs) le (le-highest h hs, highest-bounds h hs),
)

pub summarise-attention :
    (hs : List Hit)
    → (summarise hs).requires_parent_attention ≡ is_at_least (summarise hs) RiskLevel.high
unfolding summarise is_at_least
summarise-attention [] = refl
summarise-attention (h ∷ hs) = refl

any-add_category :
    (c d : RiskCategory) (seen : List RiskCategory)
    → any (category_eq c) seen ≡ true
    → any (category_eq c) (add_category seen d) ≡ true
unfolding add_category
any-add_category c d seen e = ground (arith, any-append (category_eq c) seen (d ∷ []))

-- A category once collected stays.
pub any-collect :
    (c : RiskCategory) (seen : List RiskCategory) (hs : List Hit)
    → any (category_eq c) seen ≡ true
    → any (category_eq c) (collect seen hs) ≡ true
unfolding collect
any-collect c seen [] e = e
any-collect c seen (h ∷ hs) e =
    any-collect c (add_category seen h.1) hs (any-add_category c h.1 seen e)

abbrev self_harm_hit : Hit
self_harm_hit = (RiskLevel.critical, RiskCategory.self_harm, "self_harm")

-- What the classification says of a text that mentions self-harm.
abbrev pub IsSelfHarmAlarm : SafetyClassification → Type 0
IsSelfHarmAlarm s =
    (s.risk_level ≡ RiskLevel.critical)
    × (s.primary_category ≡ RiskCategory.self_harm)
    × (s.requires_parent_attention ≡ true)
    × (s.safe_response_hint ≡ "urgent_trusted_adult_support")

summarise-self_harm : (hs : List Hit) → IsSelfHarmAlarm (summarise (self_harm_hit ∷ hs))
unfolding summarise risk_rank safe_response_hint collect add_category category_eq
summarise-self_harm hs = rw (highest-critical self_harm_hit hs refl) (
  refl,
  refl,
  refl,
  rw (any-collect RiskCategory.self_harm (RiskCategory.self_harm ∷ []) hs refl),
)

module _ (lower : PyText → PyText) (text : PyText) where
  -- The risk level of a text is the least one that bounds every hit, so it is the highest of them.
  pub risk-is_max :
      (n : ℕ)
      → All (λ h. rank h ≤ n) (input_hits (normalize lower text))
        ↔ (risk_rank (classify_input lower text).risk_level ≤ n)
  unfolding classify_input
  risk-is_max n = summarise-max n (input_hits (normalize lower text))

  -- A parent is to be told of a text exactly if its level is high or critical.
  pub attention_iff_high :
      (classify_input lower text).requires_parent_attention
      ≡ is_at_least (classify_input lower text) RiskLevel.high
  unfolding classify_input
  attention_iff_high = summarise-attention (input_hits (normalize lower text))

  -- A text with a self-harm marker is critical with self-harm as its primary category, a parent is
  -- told, and the hint is the urgent one, whatever else the text holds.
  pub self_harm_alarm :
      contains_any (normalize lower text) self_harm_markers ≡ true
      → IsSelfHarmAlarm (classify_input lower text)
  unfolding classify_input input_hits self_harm_hits hit_if
  self_harm_alarm e = rw e (summarise-self_harm _)
