-- ===== src/Triage/Tests.antt =====
-- An alert and a verdict, at which the theorems of the prefilter and the validator are applied.
use log_lookup_ai.Prelude.{
  ◌≡◌, String, false, ◌&&◌, ◌||◌, Option, none, some, [], ◌∷◌, ltb, any, min, if◌then◌else◌,
}
use log_lookup_ai.Triage.Prefilter.{PreFilter, Alert, candidate, is_listed, evaluate}
use log_lookup_ai.Triage.Prefilter.Rules.{evaluate-suppressed}
use log_lookup_ai.Triage.Validator.{low_confidence_cap, Verdict, normalized, validate_verdict}
use log_lookup_ai.Triage.Validator.Grounding.{
  Known, validate_verdict-Known, validate_verdict-confidence, all_known, refs_known,
}

abbrev same : String → String
same = λ s. s

abbrev filter : PreFilter
filter = record {
  in_networks = λ ip. false;
  service_accounts = "svc_backup" ∷ [];
  scanner_hosts = "nessus" ∷ [];
  severity_floor_id = 2;
  kept_count = 0;
  suppressed_count = 0;
}

abbrev scan : Alert
scan = record {
  severity_id = 3;
  severity_label = "Medium";
  src_ip = some "10.0.0.9";
  device_ip = none;
  user_name = none;
  hostname = some "nessus";
}

evaluate-suppressed_example : (evaluate same filter scan).1.suppressed ≡ (
    (ltb 0 scan.severity_id && ltb scan.severity_id filter.severity_floor_id)
    || (any filter.in_networks (candidate scan.src_ip)
        || any filter.in_networks (candidate scan.device_ip))
    || is_listed same filter.service_accounts scan.user_name
    || is_listed same filter.scanner_hosts scan.hostname)
evaluate-suppressed_example = evaluate-suppressed same filter scan

abbrev normalize : String → Option String
normalize = λ s. some s

abbrev verdict : Verdict
verdict = record {
  mitre_attack_techniques = "T1110" ∷ "T9999" ∷ [];
  critical_evidence_fields = "user" ∷ "made_up" ∷ [];
  evidence_refs = [];
  confidence_score = 90;
}

validate_verdict-Known_example :
    Known
      (normalized normalize ("T1110" ∷ []))
      (validate_verdict normalize same verdict ("T1110" ∷ []) ("user" ∷ []) none).valid_techniques
    × Known
        ("user" ∷ [])
        (validate_verdict normalize same verdict ("T1110" ∷ []) ("user" ∷ []) none).verified_fields
validate_verdict-Known_example =
    validate_verdict-Known normalize same verdict ("T1110" ∷ []) ("user" ∷ []) none

validate_verdict-confidence_example :
    (validate_verdict normalize same verdict ("T1110" ∷ []) ("user" ∷ []) none).final_confidence ≡ (
      if all_known normalize same ("user" ∷ []) verdict.critical_evidence_fields
        && refs_known normalize same none verdict.evidence_refs
      then 90
      else min 90 low_confidence_cap)
validate_verdict-confidence_example =
    validate_verdict-confidence normalize same verdict ("T1110" ∷ []) ("user" ∷ []) none
