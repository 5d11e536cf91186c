-- ===== src/Triage/Validator/Grounding.antt =====
-- What a validated verdict of engine/ai/validator.py may claim.
use log_lookup_ai.Prelude.{
  ◌≡◌, String, Option, none, some, List, [], ◌∷◌, ◌++◌, arith, if◌then◌else◌, contains, All,
  Bool-cases, inl, inr, string_eq, ◌&&◌, min, Bool, true, false, all, ◌∙◌, refl,
}
use log_lookup_ai.Triage.Validator.{
  low_confidence_cap, Verdict, is_empty, is_capped, sort_one, sort_out, sort_refs, normalized,
  validate_verdict,
}

abbrev pub Known : List String → List String → Type 0
Known known keys = All (λ k. contains known k ≡ true) keys

Known-append :
    (known : List String) (keys : List String) (k : String)
    → Known known keys
    → contains known k ≡ true
    → Known known (keys ++ k ∷ [])
Known-append known [] k h e = (e, tt)
Known-append known (j ∷ keys) k h e = (h.0, Known-append known keys k h.1 e)

sort_one-Known :
    (key : Option String) (known : List String) (c : String) (acc : List String × List String)
    → Known known acc.0
    → Known known (sort_one key known c acc).0
unfolding sort_one
sort_one-Known none known c (good, bad) h = h
sort_one-Known (some k) known c (good, bad) h = elim (Bool-cases (contains known k)) [
  | inr e ↦ rw e h
  | inl e ↦ elim (Bool-cases (contains good k)) [
    | inl old ↦ rw (e, old) h
    | inr new ↦ rw (e, new) (Known-append known good k h e)
  ]
]

sort_out-Known :
    (key : String → Option String) (known cited : List String) (acc : List String × List String)
    → Known known acc.0
    → Known known (sort_out key known cited acc).0
unfolding sort_out
sort_out-Known key known [] acc h = h
sort_out-Known key known (c ∷ cited) acc h =
    sort_out-Known key known cited _ (sort_one-Known (key c) known c acc h)

module _ (normalize : String → Option String) (strip : String → String) where
  -- Every technique that is kept is one of the candidates that the model was given, and every field
  -- that counts as verified is a field of the raw logs.
  pub validate_verdict-Known :
      (v : Verdict) (uids fields : List String) (refs : Option (List String))
      → Known
          (normalized normalize uids)
          (validate_verdict normalize strip v uids fields refs).valid_techniques
        × Known fields (validate_verdict normalize strip v uids fields refs).verified_fields
  unfolding validate_verdict
  validate_verdict-Known v uids fields refs = (
    sort_out-Known normalize (normalized normalize uids) v.mitre_attack_techniques ([], []) tt,
    sort_out-Known (λ s. some (strip s)) fields v.critical_evidence_fields ([], []) tt,
  )

  append-is_empty : (bad : List String) (c : String) → is_empty (bad ++ c ∷ []) ≡ false
  unfolding is_empty
  append-is_empty [] c = refl
  append-is_empty (x ∷ bad) c = refl

  -- Whether every citation, stripped, is among the names that are known.
  abbrev pub all_known : List String → List String → Bool
  all_known known cited = all (λ c. contains known (strip c)) cited

  -- Whether every reference is known, where the caller says which references there are.
  abbrev pub refs_known : Option (List String) → List String → Bool
  refs_known none cited = true
  refs_known (some known) cited = all_known known cited

  sort_out-rejected :
      (known cited : List String) (acc : List String × List String)
      → is_empty (sort_out (λ s. some (strip s)) known cited acc).1
        ≡ (is_empty acc.1 && all_known known cited)
  unfolding sort_out sort_one all
  sort_out-rejected known [] acc = ground arith
  sort_out-rejected known (c ∷ cited) (good, bad) = elim (Bool-cases (contains known (strip c))) [
    | inl p ↦ elim (Bool-cases (contains good (strip c))) [
      | inl old ↦ sort_out-rejected known cited _ ∙ rw (p, old) refl
      | inr new ↦ sort_out-rejected known cited _ ∙ rw (p, new) refl
    ]
    | inr p ↦ sort_out-rejected known cited _ ∙ rw (p, append-is_empty bad c) (ground arith)
  ]

  refs-rejected :
      (refs : Option (List String)) (cited : List String)
      → is_empty (sort_refs strip refs cited).1 ≡ refs_known refs cited
  unfolding sort_refs is_empty
  refs-rejected none cited = refl
  refs-rejected (some known) cited = sort_out-rejected known cited ([], [])

  -- The final confidence is the model's where every cited field, stripped, is a field of the raw logs and,
  -- if the caller gives the references that there are, every cited reference, stripped, is one of them; it
  -- is otherwise the smaller one of the model's and the cap.
  pub validate_verdict-confidence :
      (v : Verdict) (uids fields : List String) (refs : Option (List String))
      → (validate_verdict normalize strip v uids fields refs).final_confidence ≡ (
          if all_known fields v.critical_evidence_fields && refs_known refs v.evidence_refs
          then v.confidence_score
          else min v.confidence_score low_confidence_cap)
  unfolding validate_verdict is_capped
  validate_verdict-confidence v uids fields refs = ground (
    arith,
    sort_out-rejected fields v.critical_evidence_fields ([], []),
    refs-rejected refs v.evidence_refs,
  )
