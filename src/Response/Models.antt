-- ===== src/Response/Models.antt =====
-- engine/response/models.py: the states of a response action, the legal transitions and the rows.
-- Also the rows of the tables `outbox`, `audit_events` and `investigations`
-- (engine/store/migrations.py). Timestamps are numbers: the code's fixed-width UTC texts sort in
-- the order of time. JSON values that the database keeps are kept as data.
use log_lookup_ai.Prelude.{
  ℕ, ◌≡◌, String, Bool, true, Option, List, [], ◌∷◌, arith, HasEq, ◌==◌, nat_eq, string_eq,
  if◌then◌else◌, contains, ◌↔◌,
}

pub data ActionState : Type 0 where
  proposed approval_required approved rejected queued dispatching : ActionState
  acknowledged completed expired failed_without_effect reconciliation_required : ActionState
  cancelled : ActionState

-- A number for each state, to compare two states by.
abbrev pub state_code : ActionState → ℕ
state_code proposed = 0
state_code approval_required = 1
state_code approved = 2
state_code rejected = 3
state_code queued = 4
state_code dispatching = 5
state_code acknowledged = 6
state_code completed = 7
state_code expired = 8
state_code failed_without_effect = 9
state_code reconciliation_required = 10
state_code cancelled = 11

abbrev pub state_beq : ActionState → ActionState → Bool
state_beq s t = state_code s == state_code t

pub state_beq_iff : (s t : ActionState) → (state_beq s t ≡ true) ↔ (s ≡ t)
state_beq_iff s t = ground arith

instance abbrev pub state_eq : HasEq ActionState
state_eq = record { same = state_beq; same_iff = state_beq_iff }

-- TRANSITIONS.get(state, frozenset())
unfoldable pub transitions : ActionState → List ActionState
transitions proposed = approval_required ∷ cancelled ∷ []
transitions approval_required = approved ∷ rejected ∷ expired ∷ cancelled ∷ []
transitions approved = queued ∷ expired ∷ cancelled ∷ []
transitions queued = dispatching ∷ expired ∷ cancelled ∷ []
transitions dispatching = acknowledged ∷ failed_without_effect ∷ reconciliation_required ∷ []
transitions acknowledged = completed ∷ []
transitions reconciliation_required = acknowledged ∷ failed_without_effect ∷ []
transitions _ = []

-- new in TRANSITIONS.get(state, frozenset())
unfoldable pub legal : ActionState → ActionState → Bool
unfolding transitions contains
legal s t = contains (transitions s) t

unfoldable pub terminal : List ActionState
terminal = rejected ∷ completed ∷ expired ∷ failed_without_effect ∷ cancelled ∷ []

unfoldable pub is_terminal : ActionState → Bool
unfolding terminal contains
is_terminal s = contains terminal s

-- ROLE_RANK.get(role, -1), raised by one so that an unknown role is 0.
unfoldable pub role_rank : String → ℕ
role_rank role =
    if role == "viewer"
    then 1
    else if role == "analyst"
    then 2
    else if role == "responder"
    then 3
    else if role == "administrator"
    then 4
    else 0

-- JSON scalars and lists, as they stand in audit details and in notes.
pub data Json : Type 0 where
  null : Json
  num : ℕ → Json
  text : String → Json
  flag : Bool → Json
  texts : List String → Json

abbrev pub Detail : Type 0
Detail = List (String × Json)

-- One entry of `transitions_json`; `source` is null for the first.
pub record Transition : Type 0 where
  pub at : ℕ
  pub by : String
  pub source : Option ActionState
  pub target : ActionState
  pub note : String

-- One entry of `approvals_json`.
pub record Approval : Type 0 where
  pub by : String
  pub at : ℕ
  pub rationale : String

pub record Payload : Type 0 where
  pub fields : List (String × String)
  pub evidence_refs : List String

-- engine/response/run_status.py: the outcome of one lookup.
pub record RunLookup : Type 0 where
  pub found : Bool
  pub reason : String
  pub status : Option String
  pub matched_by : Option String
  pub run_name : Option String
  pub start_time : Option String
  pub end_time : Option String
  pub error_code : Option String
  pub error_message : Option String
  pub candidates : ℕ

pub record ResponseAction : Type 0 where
  pub action_id : String
  pub scope_id : String
  pub cluster_id : String
  pub revision : ℕ
  pub workflow_id : String
  pub requested_by : String
  pub payload : Payload
  pub canonical_payload_hash : String
  pub idempotency_key : String
  pub state : ActionState
  pub approvals_required : ℕ
  pub approvals : List Approval
  pub rejected_by : Option String
  pub rationale : Option String
  pub provider_run_id : Option String
  pub last_remote_observation : Option String
  pub expires_at : Option ℕ
  pub transition_log : List Transition
  pub created_at : ℕ
  pub updated_at : ℕ
  pub remote_status : Option String
  pub remote_status_at : Option ℕ
  pub remote_run : Option RunLookup
  pub downstream_effect : String

-- The outbound workflow contract.
pub record Contract : Type 0 where
  pub workflow_id : String
  pub action_id : String
  pub idempotency_key : String
  pub cluster_id : String
  pub investigation_revision : ℕ
  pub scope_id : String
  pub requested_by : String
  pub approved_by : List String
  pub approved_at : Option ℕ
  pub evidence_refs : List String
  pub requested_operation : Option String
  pub payload : List (String × String)

pub record OutboxRow : Type 0 where
  pub action_id : String
  pub idempotency_key : String
  pub destination : String
  pub payload : Contract
  pub delivery_state : String
  pub attempts : ℕ
  pub last_error : Option String
  pub created_at : ℕ
  pub updated_at : ℕ

pub record AuditEvent : Type 0 where
  pub ts : ℕ
  pub actor : String
  pub action : String
  pub target : String
  pub detail : String
  pub prev_hash : String
  pub entry_hash : String

pub record Investigation : Type 0 where
  pub cluster_id : String
  pub latest_revision : ℕ
  pub merged_into : Option String

-- The tables that the response layer reads and writes.
pub record World : Type 0 where
  pub actions : List ResponseAction
  pub outbox : List OutboxRow
  pub audit : List AuditEvent
  pub investigations : List Investigation

-- A transport's verdict.
pub data Verdict : Type 0 where
  accepted refused unknown : Verdict

pub record DispatchResult : Type 0 where
  pub outcome : Verdict
  pub run_id : Option String
  pub detail : String
  pub http_status : Option ℕ
