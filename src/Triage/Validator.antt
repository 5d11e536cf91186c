-- ===== src/Triage/Validator.antt =====
-- engine/ai/validator.py: the grounding of a model's verdict in what it was given. `normalize` stands
-- for normalize_technique_id and `strip` for `str.strip`.
pub mod Grounding
use log_lookup_ai.Prelude.{
  ℕ, String, Bool, true, false, ◌&&◌, ◌||◌, not, Option, none, some, List, [], ◌∷◌, ◌++◌, ◌==◌,
  string_eq, if◌then◌else◌, ltb, contains,
}

-- LOW_CONFIDENCE_CAP
abbrev pub low_confidence_cap : ℕ
low_confidence_cap = 40

-- What the validator reads of an AlertTriageVerdict.
pub record Verdict : Type 0 where
  pub mitre_attack_techniques : List String
  pub critical_evidence_fields : List String
  pub evidence_refs : List String
  pub confidence_score : ℕ

-- The sentences of `notes`, with what they list.
pub data Note : Type 0 where
  rejected_ids unknown_refs unknown_fields : List String → Note
  capped : ℕ → Note

pub record ValidationResult : Type 0 where
  pub valid_techniques : List String
  pub rejected_techniques : List String
  pub verified_fields : List String
  pub unverified_fields : List String
  pub original_confidence : ℕ
  pub final_confidence : ℕ
  pub notes : List Note
  pub verified_refs : List String
  pub unverified_refs : List String

unfoldable pub is_empty : List String → Bool
is_empty [] = true
is_empty (x ∷ xs) = false

-- ValidationResult.grounded
unfoldable pub grounded : ValidationResult → Bool
unfolding is_empty
grounded r =
    is_empty r.rejected_techniques && is_empty r.unverified_fields && is_empty r.unverified_refs

-- One round of the three loops: a citation whose key is known is added to `good`, once.
unfoldable pub sort_one :
    Option String → List String → String → List String × List String → List String × List String
unfolding contains
sort_one none known cited (good, bad) = (good, bad ++ cited ∷ [])
sort_one (some key) known cited (good, bad) =
    if contains known key
    then (if contains good key then (good, bad) else (good ++ key ∷ [], bad))
    else (good, bad ++ cited ∷ [])

-- The loops over the techniques, the fields and the references.
unfoldable pub sort_out :
    (String → Option String)
    → List String
    → List String
    → List String × List String
    → List String × List String
unfolding sort_one
sort_out key known [] acc = acc
sort_out key known (c ∷ cited) acc = sort_out key known cited (sort_one (key c) known c acc)

-- normalized_candidates
unfoldable pub normalized : (String → Option String) → List String → List String
normalized normalize [] = []
normalized normalize (u ∷ uids) =
    let rest = normalized normalize uids in elim (normalize u) [ none ↦ rest | some n ↦ n ∷ rest ]

-- The references, where the caller gives the known ones.
unfoldable pub sort_refs :
    (String → String) → Option (List String) → List String → List String × List String
unfolding sort_out
sort_refs strip none cited = ([], [])
sort_refs strip (some known) cited = sort_out (λ s. some (strip s)) known cited ([], [])

abbrev pub note_if : Bool → Note → List Note
note_if true n = n ∷ []
note_if false n = []

-- final_confidence > LOW_CONFIDENCE_CAP with a citation that is not verified
unfoldable pub is_capped : List String → List String → ℕ → Bool
unfolding is_empty
is_capped unverified unverified_refs confidence =
    (not (is_empty unverified) || not (is_empty unverified_refs))
    && ltb low_confidence_cap confidence

module _ (normalize : String → Option String) (strip : String → String) where
  -- validate_verdict
  unfoldable pub validate_verdict :
      Verdict → List String → List String → Option (List String) → ValidationResult
  unfolding sort_out sort_refs normalized is_capped is_empty
  validate_verdict v uids fields refs =
      let (valid, rejected) =
        sort_out normalize (normalized normalize uids) v.mitre_attack_techniques ([], []) in
      let (verified, unverified) =
        sort_out (λ s. some (strip s)) fields v.critical_evidence_fields ([], []) in
      let (verified_refs, unverified_refs) = sort_refs strip refs v.evidence_refs in
      let cap : Bool = is_capped unverified unverified_refs v.confidence_score in
      record {
        valid_techniques = valid;
        rejected_techniques = rejected;
        verified_fields = verified;
        unverified_fields = unverified;
        original_confidence = v.confidence_score;
        final_confidence = if cap then low_confidence_cap else v.confidence_score;
        notes =
            note_if (not (is_empty rejected)) (rejected_ids rejected)
            ++ note_if (not (is_empty unverified_refs)) (unknown_refs unverified_refs)
            ++ note_if (not (is_empty unverified)) (unknown_fields unverified)
            ++ note_if cap (capped v.confidence_score);
        verified_refs = verified_refs;
        unverified_refs = unverified_refs;
      }
