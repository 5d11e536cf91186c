-- ===== src/Response/Policy.antt =====
-- engine/response/policy.py: the workflow allowlist, the role test and the typed payloads.
use log_lookup_ai.Prelude.{
  ℕ, String, Bool, true, false, not, ◌&&◌, Option, none, some, List, [], ◌∷◌, ◌==◌, string_eq,
  if◌then◌else◌, ltb, contains, any,
}
use log_lookup_ai.Prelude.Table.{find}
use log_lookup_ai.Prelude.Outcome.{Outcome, ok, err, bad_request, forbidden, ◌>>=◌}
use log_lookup_ai.Response.Models.{Json, Detail, role_rank}

pub data FieldType : Type 0 where
  str enum : FieldType

pub record FieldSpec : Type 0 where
  pub type : FieldType
  pub required : Bool
  pub max_len : ℕ
  pub choices : List String

pub record WorkflowDef : Type 0 where
  pub workflow_id : String
  pub label : String
  pub operation : String
  pub fields : List (String × FieldSpec)
  pub approvals_required : ℕ
  pub separation_of_duties : Bool
  pub ttl_seconds : ℕ
  pub material_side_effect : Bool

-- What the code takes from Python and from the deployment's settings.
pub record Env : Type 0 where
  -- the workflows of the allowlist, with their definitions
  pub workflows : List WorkflowDef
  pub scope : String
  pub enabled : Bool
  -- `hashlib.sha256(text.encode()).hexdigest()`
  pub sha256 : String → String
  -- `json.dumps(detail, sort_keys=True)`, `canonical_json` of a payload, and f-strings
  pub dumps : Detail → String
  pub canonical : String → List (String × String) → List String → String
  pub render : List Json → String
  -- `_CONTROL.sub("", value).strip()` and `len(value)`
  pub clean_text : String → String
  pub text_length : String → ℕ
  -- `sorted(set(refs))`
  pub sorted_set : List String → List String
  -- `text.strip()`
  pub strip : String → String
  -- scrub of engine/connectors/http.py, which hides what looks like a secret
  pub scrub : String → String
  -- `text[:300]`
  pub clip : String → String

abbrev severities : List String
severities = "low" ∷ "medium" ∷ "high" ∷ "critical" ∷ []

abbrev free_text : ℕ → FieldSpec
free_text n = record { type = str; required = true; max_len = n; choices = [] }

abbrev one_of : List String → FieldSpec
one_of cs = record { type = enum; required = true; max_len = 500; choices = cs }

abbrev pub builtin_workflows : List WorkflowDef
builtin_workflows =
    record {
      workflow_id = "notify-soc-v1";
      label = "Notify SOC analyst";
      operation = "notify_analyst";
      fields = ("message", free_text 1000) ∷ ("severity", one_of severities) ∷ [];
      approvals_required = 1;
      separation_of_duties = false;
      ttl_seconds = 3600;
      material_side_effect = false;
    }
    ∷ record {
      workflow_id = "create-incident-v1";
      label = "Create/update downstream incident";
      operation = "create_or_update_incident";
      fields =
          ("title", free_text 200)
          ∷ ("severity", one_of severities)
          ∷ ("summary", record { type = str; required = false; max_len = 2000; choices = [] })
          ∷ [];
      approvals_required = 1;
      separation_of_duties = true;
      ttl_seconds = 3600;
      material_side_effect = true;
    }
    ∷ record {
      workflow_id = "request-enrichment-v1";
      label = "Request enrichment";
      operation = "request_enrichment";
      fields =
          ("entity_type", one_of ("user" ∷ "device" ∷ "ip" ∷ []))
          ∷ ("entity_value", free_text 256)
          ∷ [];
      approvals_required = 1;
      separation_of_duties = false;
      ttl_seconds = 3600;
      material_side_effect = false;
    }
    ∷ record {
      workflow_id = "handoff-escalation-v1";
      label = "Hand off escalation summary";
      operation = "hand_off_escalation";
      fields = ("team", free_text 100) ∷ ("summary", free_text 2000) ∷ [];
      approvals_required = 1;
      separation_of_duties = true;
      ttl_seconds = 3600;
      material_side_effect = false;
    }
    ∷ []

-- ResponsePolicy.__init__: an allowlist that names an undefined workflow is refused.
unfoldable pub allowlist : List WorkflowDef → List String → Outcome (List WorkflowDef)
allowlist defs [] = ok []
allowlist defs (w ∷ ws) = elim (find WorkflowDef.workflow_id w defs) [
  | none ↦ err bad_request
  | some d ↦ allowlist defs ws >>= λ rest. ok (d ∷ rest)
]

-- ResponsePolicy.get
unfoldable pub get_workflow : Env → String → Outcome WorkflowDef
get_workflow env id = elim (find WorkflowDef.workflow_id id env.workflows) [
  | some w ↦ ok w
  | none ↦ err forbidden
]

-- ResponsePolicy.require_role, as a test: `false` is the error `Forbidden`.
unfoldable pub has_role : String → String → Bool
unfolding role_rank
has_role role minimum = not (ltb (role_rank role) (role_rank minimum))

-- A value of the submitted JSON object.
pub data Submitted : Type 0 where
  absent : Submitted
  word : String → Submitted
  other : Submitted

unfoldable pub submitted : String → List (String × Submitted) → Submitted
submitted k [] = absent
submitted k ((j, v) ∷ m) = if j == k then v else submitted k m

-- One round of the loop of `validate_payload`: `none` skips the field.
unfoldable pub validate_field : Env → FieldSpec → Submitted → Outcome (Option String)
validate_field env spec absent = if spec.required then err bad_request else ok none
validate_field env spec other = err bad_request
validate_field env spec (word v) =
    let value = env.clean_text v in
    if v == ""
    then (if spec.required then err bad_request else ok none)
    else if ltb spec.max_len (env.text_length value)
    then err bad_request
    else if elim spec.type [ str ↦ false | enum ↦ not (contains spec.choices value) ]
    then err bad_request
    else if value == "" && spec.required
    then err bad_request
    else ok (some value)

unfoldable pub validate_fields :
    Env → List (String × FieldSpec) → List (String × Submitted) → Outcome (List (String × String))
unfolding validate_field submitted
validate_fields env [] payload = ok []
validate_fields env ((name, spec) ∷ specs) payload =
    let rest = validate_fields env specs payload in
    validate_field env spec (submitted name payload) >>= λ value.
    rest >>= λ clean. ok (elim value [ some v ↦ (name, v) ∷ clean | none ↦ clean ])

-- Whether a name of the payload is no field of the workflow.
abbrev pub is_extra : List (String × FieldSpec) → String × Submitted → Bool
is_extra specs entry = not (any (λ (spec : String × FieldSpec). spec.0 == entry.0) specs)

-- validate_payload
unfoldable pub validate_payload :
    Env → WorkflowDef → List (String × Submitted) → Outcome (List (String × String))
unfolding any
validate_payload env wf payload =
    if any (is_extra wf.fields) payload
    then err bad_request
    else validate_fields env wf.fields payload
