-- ===== src/Safety/Output.antt =====
-- safety_engine.py, `classify_output`: the branches of a reply.
use ai_child.Prelude.{◌∙◌, ap, ◌||◌, ◌≡◌, List, String, ◌++◌, true, false, any-append, arith}
use ai_child.Enums.{RiskLevel, RiskCategory}
use ai_child.PyText.{PyText, contains_any, contains, codes}
use ai_child.Safety.{SafetyClassification, classify_input, classify_output}
use ai_child.Safety.Hits.{normalize}
use ai_child.Safety.Markers.{
  unsafe_secret_request_markers, unsafe_dependency_markers, unsafe_retention_pressure_markers,
  unsafe_pressure_guilt_markers,
}

-- every marker for which a reply is replaced
abbrev pub output_markers : List String
output_markers =
    unsafe_secret_request_markers
    ++ (unsafe_dependency_markers
        ++ (unsafe_retention_pressure_markers ++ unsafe_pressure_guilt_markers))

-- What the engine says of a reply that has to be replaced.
abbrev pub IsReplaced : SafetyClassification → Type 0
IsReplaced s =
    (s.risk_level ≡ RiskLevel.high)
    × (s.primary_category ≡ RiskCategory.adult_secret)
    × (s.safe_response_hint ≡ "use_scene_fallback")

contains_any-append :
    (t : PyText) (xs ys : List String)
    → contains_any t (xs ++ ys) ≡ contains_any t xs || contains_any t ys
unfolding contains_any
contains_any-append t xs ys = any-append (λ m. contains (codes m) t) xs ys

contains_any-output :
    (t : PyText)
    → contains_any t output_markers
      ≡ contains_any t unsafe_secret_request_markers
        || (contains_any t unsafe_dependency_markers
            || (contains_any t unsafe_retention_pressure_markers
                || contains_any t unsafe_pressure_guilt_markers))
contains_any-output t =
    contains_any-append t unsafe_secret_request_markers _
    ∙ ap (λ b. contains_any t unsafe_secret_request_markers || b)
        (contains_any-append t unsafe_dependency_markers _
          ∙ ap (λ b. contains_any t unsafe_dependency_markers || b)
              (contains_any-append t unsafe_retention_pressure_markers
                unsafe_pressure_guilt_markers))

-- A reply with a marker is replaced: its level is high and its hint is the fallback of the scene.
-- A reply with none is classified as a child's text would be.
pub output_branches :
    (lower : PyText → PyText) (text : PyText)
    → (contains_any (normalize lower text) output_markers ≡ true
        → IsReplaced (classify_output lower text))
      × (contains_any (normalize lower text) output_markers ≡ false
          → classify_output lower text ≡ classify_input lower text)
unfolding classify_output
output_branches lower text =
    rw (contains_any-output (normalize lower text)) (λ h. ground arith, λ h. ground arith)
