-- ===== src/Safety.antt =====
-- backend/app/services/safety_engine.py: the rule-first classifier of a child's text and of a reply.
-- Hits are collected in the order of the source, and the first hit of the highest rank decides.
pub mod Hits
pub mod Markers
pub mod Highest
pub mod Risk
pub mod Categories
pub mod Contact
pub mod Output
mod Tests
use ai_child.Prelude.{
  ℕ, String, Bool, true, false, List, [], ◌∷◌, ◌++◌, any, map, ltb, leb, if◌then◌else◌,
}
use ai_child.Enums.{RiskLevel, RiskCategory, risk_rank, category_eq, level_eq}
use ai_child.PyText.{PyText, contains_any}
use Hits.{Hit, normalize, input_hits}
use Markers.{
  unsafe_secret_request_markers, unsafe_dependency_markers, unsafe_retention_pressure_markers,
  unsafe_pressure_guilt_markers,
}

pub record SafetyClassification : Type 0 where
  pub risk_level : RiskLevel
  pub primary_category : RiskCategory
  pub categories : List RiskCategory
  pub requires_parent_attention : Bool
  pub evidence : List String
  pub safe_response_hint : String

-- SafetyClassification.is_at_least
unfoldable pub is_at_least : SafetyClassification → RiskLevel → Bool
unfolding risk_rank
is_at_least s level = leb (risk_rank level) (risk_rank s.risk_level)

-- SafetyClassification()
abbrev pub no_risk : SafetyClassification
no_risk = record {
  risk_level = RiskLevel.none;
  primary_category = RiskCategory.none;
  categories = [];
  requires_parent_attention = false;
  evidence = [];
  safe_response_hint = "continue_normal_flow";
}

-- max(hits, key=rank): the first of the highest rank
unfoldable pub higher : Hit → Hit → Hit
higher best h = if ltb (risk_rank best.0) (risk_rank h.0) then h else best

unfoldable pub highest : Hit → List Hit → Hit
unfolding higher
highest best [] = best
highest best (h ∷ hs) = highest (higher best h) hs

-- `if category not in categories: categories.append(category)`, over the hits
unfoldable pub add_category : List RiskCategory → RiskCategory → List RiskCategory
add_category seen c = if any (category_eq c) seen then seen else seen ++ c ∷ []

unfoldable pub collect : List RiskCategory → List Hit → List RiskCategory
unfolding add_category
collect seen [] = seen
collect seen (h ∷ hs) = collect (add_category seen h.1) hs

-- _safe_response_hint
unfoldable pub safe_response_hint : RiskLevel → List RiskCategory → String
unfolding risk_rank category_eq level_eq
safe_response_hint level categories =
    if leb (risk_rank RiskLevel.high) (risk_rank level)
    then (if any (category_eq RiskCategory.self_harm) categories
        then "urgent_trusted_adult_support"
        else "encourage_trusted_adult")
    else if level_eq level RiskLevel.watch
    then "gentle_checkin_and_parent_summary"
    else if level_eq level RiskLevel.low
    then "warm_boundary_guidance"
    else "continue_normal_flow"

unfoldable pub summarise : List Hit → SafetyClassification
summarise [] = no_risk
summarise (h ∷ hs) =
    let best = highest h hs in
    let categories = collect [] (h ∷ hs) in
    record {
      risk_level = best.0;
      primary_category = best.1;
      categories = categories;
      requires_parent_attention = leb (risk_rank RiskLevel.high) (risk_rank best.0);
      evidence = map (λ (x : Hit). x.2) (h ∷ hs);
      safe_response_hint = safe_response_hint best.0 categories;
    }

-- SafetyEngine.classify_input
unfoldable pub classify_input : (PyText → PyText) → PyText → SafetyClassification
classify_input lower text = summarise (input_hits (normalize lower text))

-- the classification of an unsafe reply
unfoldable pub unsafe_output : Bool → String → SafetyClassification
unsafe_output attention tag = record {
  risk_level = RiskLevel.high;
  primary_category = RiskCategory.adult_secret;
  categories = RiskCategory.adult_secret ∷ [];
  requires_parent_attention = attention;
  evidence = tag ∷ [];
  safe_response_hint = "use_scene_fallback";
}

-- SafetyEngine.classify_output
unfoldable pub classify_output : (PyText → PyText) → PyText → SafetyClassification
unfolding unsafe_output
classify_output lower text =
    let t = normalize lower text in
    if contains_any t unsafe_secret_request_markers
    then unsafe_output true "unsafe_output_secret_request"
    else if contains_any t unsafe_dependency_markers
    then unsafe_output true "unsafe_output_dependency_or_isolation"
    else if contains_any t unsafe_retention_pressure_markers
    then unsafe_output true "unsafe_output_retention_pressure"
    else if contains_any t unsafe_pressure_guilt_markers
    then unsafe_output false "unsafe_output_pressure_guilt"
    else classify_input lower text
