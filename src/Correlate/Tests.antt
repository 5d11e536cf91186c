-- ===== src/Correlate/Tests.antt =====
-- Chains of three alerts, at which the theorems on the order of tactics are applied.
mod Engines
use log_lookup_ai.Prelude.{◌≡◌, refl, String, none, some, [], ◌∷◌, arith}
use log_lookup_ai.Correlate.Chains.{
  Alert, progressing, judge_ranks, alert_tactic_ranks, tactics_ranks, attack_ranks,
  progression_disposition,
}
use log_lookup_ai.Correlate.Chains.Order.{progression_disposition-untagged, judge_ranks-ascending}

abbrev plain_text : String → String
plain_text = λ s. s

abbrev tagged : String → Alert
tagged uid = record { tactics = some (record { uid = some uid; name = none }) ∷ [] }

abbrev untagged : Alert
untagged = record { tactics = none ∷ [] }

untagged_ranks : alert_tactic_ranks plain_text plain_text untagged ≡ []
unfolding alert_tactic_ranks tactics_ranks attack_ranks
untagged_ranks = refl

progression_disposition-untagged_example :
    progression_disposition plain_text plain_text
      (tagged "TA0001" ∷ untagged ∷ tagged "TA0010" ∷ [])
    ≡ progression_disposition plain_text plain_text (tagged "TA0001" ∷ tagged "TA0010" ∷ [])
progression_disposition-untagged_example =
    progression_disposition-untagged plain_text plain_text (tagged "TA0001" ∷ [])
      (tagged "TA0010" ∷ []) untagged untagged_ranks

judge_ranks-ascending_example : judge_ranks (2 ∷ 7 ∷ 12 ∷ []) ≡ progressing
judge_ranks-ascending_example =
    judge_ranks-ascending 2 (7 ∷ 12 ∷ []) (omega arith, (omega arith, tt)) (omega arith)
