-- ===== src/Response/Payload.antt =====
-- What `validate_payload` of engine/response/policy.py accepts.
use log_lookup_ai.Prelude.{
  ◌≤◌, ◌≡◌, refl, ◌≢◌, String, true, false, Option, none, some, List, [], ◌∷◌, arith, string_eq,
  text_iff, contains, any, subst,
}
use log_lookup_ai.Prelude.Outcome.{Outcome, ok, err, ◌>>=◌}
use log_lookup_ai.Response.Policy.{
  enum, FieldSpec, WorkflowDef, Env, Submitted, absent, word, other, submitted, validate_field,
  validate_fields, is_extra, validate_payload,
}

module _ (env : Env) where
  -- A value that fits the specification of its field.
  pub record Fits (spec : FieldSpec) (value : String) : Type 0 where
    pub short : env.text_length value ≤ spec.max_len
    pub chosen : spec.type ≡ enum → contains spec.choices value ≡ true
    pub filled : spec.required ≡ true → value ≢ ""

  -- The accepted payload: the fields in the order of the workflow, without optional ones.
  pub data Answers : List (String × FieldSpec) → List (String × String) → Type 0 where
    done : Answers [] []
    answered :
        {name : String} {spec : FieldSpec} {value : String} {specs : List (String × FieldSpec)}
        {clean : List (String × String)}
        → Fits spec value
        → Answers specs clean
        → Answers ((name, spec) ∷ specs) ((name, value) ∷ clean)
    left_out :
        {name : String} {spec : FieldSpec} {specs : List (String × FieldSpec)}
        {clean : List (String × String)}
        → spec.required ≡ false
        → Answers specs clean
        → Answers ((name, spec) ∷ specs) clean

  field-Fits :
      (spec : FieldSpec) (v : Submitted) (value : String)
      → validate_field env spec v ≡ ok (some value)
      → Fits spec value
  unfolding validate_field
  field-Fits spec absent value h = ground arith
  field-Fits spec other value h = ground arith
  field-Fits spec (word v) value h = record {
    short = ground arith;
    chosen = λ e. ground arith;
    filled = λ r e. ground (arith, text_iff value "");
  }

  field_left_out :
      (spec : FieldSpec) (v : Submitted)
      → validate_field env spec v ≡ ok none
      → spec.required ≡ false
  unfolding validate_field
  field_left_out spec absent h = ground arith
  field_left_out spec other h = ground arith
  field_left_out spec (word v) h = ground arith

  fields_answer :
      (specs : List (String × FieldSpec)) (payload : List (String × Submitted))
      (clean : List (String × String))
      → validate_fields env specs payload ≡ ok clean
      → Answers specs clean
  unfolding validate_fields
  fields_answer [] payload [] h = done
  fields_answer [] payload (c ∷ clean) h = cc
  fields_answer ((name, spec) ∷ specs) payload clean h =
      split (validate_field env spec (submitted name payload)) (validate_fields env specs payload)
        (field-Fits spec (submitted name payload)) (field_left_out spec (submitted name payload))
        (fields_answer specs payload) clean h
    where
      split :
          (o : Outcome (Option String)) (rest : Outcome (List (String × String)))
          → ((v : String) → o ≡ ok (some v) → Fits spec v)
          → (o ≡ ok none → spec.required ≡ false)
          → ((c : List (String × String)) → rest ≡ ok c → Answers specs c)
          → (clean : List (String × String))
          → (o >>= λ value.
              rest >>= λ clean. ok (elim value [ some v ↦ (name, v) ∷ clean | none ↦ clean ]))
            ≡ ok clean
          → Answers ((name, spec) ∷ specs) clean
      split (err e) rest f g k clean h = cc
      split (ok v) (err e) f g k clean h = cc
      split (ok none) (ok c) f g k clean h = left_out (g refl) (k clean (cc))
      split (ok (some v)) (ok c) f g k [] h = cc
      split (ok (some v)) (ok c) f g k ((n, v') ∷ clean) h =
          let p : (name, v) ∷ c ≡ (n, v') ∷ clean = cc in
          subst (λ cl. Answers ((name, spec) ∷ specs) cl) p (answered (f v refl) (k c refl))

  -- A payload that is accepted has no field that the workflow does not declare; the values that are
  -- kept are of declared fields, in their order, within the length and the choices of the field,
  -- and a field that is left out is not required.
  pub validate_payload-Answers :
      (wf : WorkflowDef) (payload : List (String × Submitted)) (clean : List (String × String))
      → validate_payload env wf payload ≡ ok clean
      → (any (is_extra wf.fields) payload ≡ false) × Answers wf.fields clean
  unfolding validate_payload
  validate_payload-Answers wf payload clean h =
      (ground arith, fields_answer wf.fields payload clean (ground arith))
