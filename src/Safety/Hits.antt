-- ===== src/Safety/Hits.antt =====
-- safety_engine.py, `classify_input` up to the test `if not hits`: the hits of a child's text.
use mathlib.Core.Bool.{not}
use ai_child.Prelude.{String, Bool, ◌&&◌, List, [], ◌∷◌, ◌++◌, if◌then◌else◌}
use ai_child.Enums.{RiskLevel, RiskCategory}
use ai_child.PyText.{PyText, contains_any, strip, without}
use ai_child.Safety.Markers.{
  self_harm_markers, stranger_markers, secret_markers, adult_request_markers, body_privacy_markers,
  violence_markers, dangerous_markers, bullying_markers, medical_markers,
  mental_distress_watch_markers, mental_distress_low_markers, exaggerated_fatigue_markers,
  sports_context_markers, privacy_markers,
}

-- The tuples of the list `hits`: level, category and evidence.
abbrev pub Hit : Type 0
Hit = RiskLevel × RiskCategory × String

-- text.strip().lower().replace(" ", "")
unfoldable pub normalize : (PyText → PyText) → PyText → PyText
normalize lower text = without 0x20 (lower (strip text))

-- `if test: hits.append(hit)`
unfoldable pub hit_if : Bool → Hit → List Hit
hit_if test hit = if test then hit ∷ [] else []

unfoldable pub self_harm_hits : PyText → List Hit
self_harm_hits t =
    hit_if (contains_any t self_harm_markers)
      (RiskLevel.critical, RiskCategory.self_harm, "self_harm")

-- has_stranger, has_secret, has_adult_request
unfoldable pub contact_hits : Bool → Bool → Bool → List Hit
contact_hits stranger secret adult_request =
    if stranger && secret
    then (RiskLevel.high, RiskCategory.stranger_contact, "stranger_secret")
      ∷ (RiskLevel.high, RiskCategory.adult_secret, "adult_secret")
      ∷ []
    else if secret && adult_request
    then (RiskLevel.high, RiskCategory.adult_secret, "adult_secret") ∷ []
    else if secret
    then (RiskLevel.watch, RiskCategory.adult_secret, "secret_signal") ∷ []
    else if stranger
    then (RiskLevel.watch, RiskCategory.stranger_contact, "stranger_contact") ∷ []
    else []

unfoldable pub harm_hits : PyText → List Hit
unfolding hit_if
harm_hits t =
    hit_if (contains_any t body_privacy_markers)
      (RiskLevel.high, RiskCategory.sexual_content, "body_privacy")
    ++ (hit_if (contains_any t violence_markers) (RiskLevel.high, RiskCategory.violence, "violence")
        ++ (hit_if (contains_any t dangerous_markers)
              (RiskLevel.high, RiskCategory.dangerous_behavior, "dangerous_behavior")
            ++ (hit_if (contains_any t bullying_markers)
                  (RiskLevel.watch, RiskCategory.bullying, "bullying")
                ++ hit_if (contains_any t medical_markers)
                    (RiskLevel.watch, RiskCategory.medical, "medical"))))

-- the two tests of mental distress
unfoldable pub distress_hits : Bool → Bool → List Hit
distress_hits watch low =
    if watch
    then (RiskLevel.watch, RiskCategory.mental_distress, "mental_distress") ∷ []
    else if low
    then (RiskLevel.low, RiskCategory.mental_distress, "mild_distress") ∷ []
    else []

-- has_exaggerated_fatigue, has_medical_watch, has_sports_context
unfoldable pub fatigue_hits : Bool → Bool → Bool → List Hit
fatigue_hits fatigue medical_watch sports =
    if fatigue && not medical_watch
    then (if sports
        then (RiskLevel.low, RiskCategory.medical, "body_discomfort_watch_lite") ∷ []
        else (RiskLevel.low, RiskCategory.mental_distress, "exaggerated_fatigue") ∷ [])
    else []

unfoldable pub privacy_hits : PyText → List Hit
unfolding hit_if
privacy_hits t =
    hit_if (contains_any t privacy_markers) (RiskLevel.low, RiskCategory.privacy, "privacy")

-- All hits of a normalized text, in the order in which they are appended.
unfoldable pub input_hits : PyText → List Hit
unfolding self_harm_hits contact_hits harm_hits distress_hits fatigue_hits privacy_hits hit_if
input_hits t =
    self_harm_hits t
    ++ (contact_hits (contains_any t stranger_markers) (contains_any t secret_markers)
          (contains_any t adult_request_markers)
        ++ (harm_hits t
            ++ (distress_hits (contains_any t mental_distress_watch_markers)
                  (contains_any t mental_distress_low_markers)
                ++ (fatigue_hits (contains_any t exaggerated_fatigue_markers)
                      (contains_any t medical_markers) (contains_any t sports_context_markers)
                    ++ privacy_hits t))))
