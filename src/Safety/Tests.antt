-- ===== src/Safety/Tests.antt =====
-- Runs of the safety engine, and its theorems at concrete texts. The texts have no capital letters, so
-- `str.lower` is the identity here.
use ai_child.Prelude.{◌≡◌, ◌↔◌, ◌≤◌, [], ◌∷◌, All, refl}
use ai_child.Enums.{RiskLevel, risk_rank}
use ai_child.PyText.{PyText, codes, contains_any, strip, without}
use ai_child.Safety.{classify_input, summarise, highest}
use ai_child.Safety.Hits.{input_hits, normalize}
use ai_child.Safety.Highest.{rank}
use ai_child.Safety.Risk.{risk-is_max}

abbrev lower : PyText → PyText
lower text = text

abbrev self_harm_text : PyText
self_harm_text = codes "我 好累，不想活 了"

abbrev stranger_text : PyText
stranger_text = codes "网友叫我保密"

abbrev friendly_reply : PyText
friendly_reply = codes "今天开心吗"

-- the hit of the highest rank decides, whatever else is found
self_harm_level : (classify_input lower self_harm_text).risk_level ≡ RiskLevel.critical
unfolding classify_input input_hits normalize strip without contains_any summarise highest risk_rank
self_harm_level = refl

stranger_evidence :
    (classify_input lower stranger_text).evidence ≡ "stranger_secret" ∷ "adult_secret" ∷ []
unfolding classify_input input_hits normalize strip without contains_any summarise
stranger_evidence = refl

risk-is_max_example :
    All (λ h. rank h ≤ 4) (input_hits (normalize lower self_harm_text))
    ↔ (risk_rank (classify_input lower self_harm_text).risk_level ≤ 4)
risk-is_max_example = risk-is_max lower self_harm_text 4
