-- ===== src/Response/Tests.antt =====
-- A deployment, its workflows and a run of an incident workflow, at which the theorems are applied.
use log_lookup_ai.Prelude.{
  ℕ, ◌+◌, ◌≤◌, ◌≡◌, refl, ◌⊎◌, inl, inr, ◌↔◌, String, Bool, true, false, Option, none, some, List,
  [], ◌∷◌, ◌++◌, length, arith, any, keep, contains, All, ◌||◌, nat_eq, ◌==◌,
}
use log_lookup_ai.Prelude.Table.{find}
use log_lookup_ai.Prelude.Outcome.{ok, err, forbidden}
use log_lookup_ai.Response.Models.{
  ActionState, proposed, approval_required, approved, queued, dispatching, rejected, legal,
  is_terminal, ResponseAction, OutboxRow, AuditEvent, World, accepted, DispatchResult, RunLookup,
}
use log_lookup_ai.Response.Policy.{
  str, enum, FieldSpec, Env, WorkflowDef, Submitted, word, get_workflow, submitted, validate_field,
  validate_fields, validate_payload, is_extra,
}
use log_lookup_ai.Response.Audit
use log_lookup_ai.Response.Tables.{find_action}
use log_lookup_ai.Response.Decisions.{has_approved}
use log_lookup_ai.Response.Dispatcher.{claim, sending}
use log_lookup_ai.Response.Delivery.{Transport, returned, run_once}
use log_lookup_ai.Response.RunStatus.{
  Run, page, Azure, lookup, lookup_tracked, find_by_tracking_id, collect, choose, describe,
}
use log_lookup_ai.Response.Trace.{Op, propose_op, approve_op, run_once_op, recover_op, run}
use log_lookup_ai.Response.Soundness.States.{◌⟶*◌}
use log_lookup_ai.Response.Soundness.Change.{Distinct, proposal}
use log_lookup_ai.Response.Soundness.Invariant.{IsSound}
use log_lookup_ai.Response.Soundness.Once.{run-IsSound}
use log_lookup_ai.Response.Soundness.History.{
  released-approvals, separated-approvals, run-path, empty-IsSound,
}
use log_lookup_ai.Response.Soundness.Sends.{times, run-at_most_once}
use Prim.Native.Char.{code}
use Prim.Native.String.{[] as []ˢ, ◌∷◌ as ◌∷ˢ◌}
use log_lookup_ai.Prelude.Text.{join, is_free, is_free-IsFree}
use log_lookup_ai.Response.Chain.{append-verify, verify-tamper, contents, Collision, IsPlain}
use log_lookup_ai.Response.Payload.{Answers, validate_payload-Answers}
use log_lookup_ai.Response.Matching.{Matches, lookup-Matches}
use log_lookup_ai.Response.Queue.{Serves, claim-Serves, run_once-stuck}

-- What follows the last separator, or `acc`.
abbrev last_part : String → String → String
last_part acc []ˢ = acc
last_part acc (c ∷ˢ s) = elim (code c == 31 || code c == 124) [
  | true ↦ last_part s s
  | false ↦ last_part acc s
]

abbrev title : FieldSpec
title = record { type = str; required = true; max_len = 200; choices = [] }

abbrev severity : FieldSpec
severity = record { type = enum; required = true; max_len = 500; choices = "low" ∷ "high" ∷ [] }

abbrev incident_workflow : WorkflowDef
incident_workflow = record {
  workflow_id = "create-incident-v1";
  label = "Create/update downstream incident";
  operation = "create_or_update_incident";
  fields = ("title", title) ∷ ("severity", severity) ∷ [];
  approvals_required = 1;
  separation_of_duties = true;
  ttl_seconds = 3600;
  material_side_effect = true;
}

abbrev demo : Env
demo = record {
  workflows = incident_workflow ∷ [];
  scope = "prod";
  enabled = true;
  sha256 = λ text. last_part text text;
  dumps = λ detail. "detail";
  canonical = λ workflow fields refs. workflow;
  render = λ parts. "text";
  clean_text = λ s. s;
  text_length = λ s. 3;
  sorted_set = λ refs. refs;
  strip = λ s. s;
  scrub = λ s. s;
  clip = λ s. s;
}

abbrev empty : World
empty = record { actions = []; outbox = []; audit = []; investigations = [] }

empty-IsSound-demo : IsSound demo empty
empty-IsSound-demo = empty-IsSound demo empty refl refl

abbrev incident : List (String × Submitted)
incident = ("title", word "beaconing host") ∷ ("severity", word "high") ∷ []

abbrev transport : Transport
transport = λ contract.
    returned (record { outcome = accepted; run_id = none; detail = ""; http_status = some 202 })

abbrev scenario : List Op
scenario =
    propose_op "ann" "responder" "a1" "c1" 1 "create-incident-v1" incident [] "seen twice" 10
    ∷ approve_op "bob" "responder" "a1" "agreed" 20
    ∷ run_once_op transport 30
    ∷ recover_op 40
    ∷ run_once_op transport 50
    ∷ []

run-IsSound_example : IsSound demo (run demo scenario empty).0
run-IsSound_example = run-IsSound demo scenario empty empty-IsSound-demo

run-at_most_once_example : times "a1" (run demo scenario empty).1 ≤ 1
run-at_most_once_example = run-at_most_once demo scenario empty empty-IsSound-demo "a1"

incident_found : get_workflow demo "create-incident-v1" ≡ ok incident_workflow
unfolding get_workflow find
incident_found = refl

-- A proposal and its approval.
abbrev approved_ops : List Op
approved_ops =
    propose_op "ann" "responder" "a1" "c1" 1 "create-incident-v1" incident [] "seen twice" 10
    ∷ approve_op "bob" "responder" "a1" "agreed" 20
    ∷ []

abbrev queued_action : ResponseAction
queued_action = record {
  action_id = "a1";
  scope_id = "prod";
  cluster_id = "c1";
  revision = 1;
  workflow_id = "create-incident-v1";
  requested_by = "ann";
  payload = record {
    fields = ("title", "beaconing host") ∷ ("severity", "high") ∷ [];
    evidence_refs = [];
  };
  canonical_payload_hash = "create-incident-v1";
  idempotency_key = "create-incident-v1";
  state = queued;
  approvals_required = 1;
  approvals = record { by = "bob"; at = 20; rationale = "agreed" } ∷ [];
  rejected_by = none;
  rationale = some "seen twice";
  provider_run_id = none;
  last_remote_observation = none;
  expires_at = some 3600000010;
  transition_log =
      record { at = 10; by = "ann"; source = none; target = proposed; note = "" }
      ∷ record {
        at = 10;
        by = "ann";
        source = some proposed;
        target = approval_required;
        note = "";
      }
      ∷ record {
        at = 20;
        by = "bob";
        source = some approval_required;
        target = approved;
        note = "approval threshold met";
      }
      ∷ record {
        at = 20;
        by = "system";
        source = some approved;
        target = queued;
        note = "queued for dispatch";
      }
      ∷ [];
  created_at = 10;
  updated_at = 20;
  remote_status = none;
  remote_status_at = none;
  remote_run = none;
  downstream_effect = "not_observed";
}

approved_run : find_action "a1" (run demo approved_ops empty).0 ≡ some queued_action
unfolding log_lookup_ai.Prelude.any log_lookup_ai.Prelude.keep log_lookup_ai.Prelude.count
    log_lookup_ai.Prelude.contains log_lookup_ai.Prelude.Table.find
    log_lookup_ai.Prelude.Table.update log_lookup_ai.Response.Models.transitions
    log_lookup_ai.Response.Models.legal log_lookup_ai.Response.Models.terminal
    log_lookup_ai.Response.Models.is_terminal log_lookup_ai.Response.Models.role_rank
    log_lookup_ai.Response.Policy.allowlist log_lookup_ai.Response.Policy.get_workflow
    log_lookup_ai.Response.Policy.has_role log_lookup_ai.Response.Policy.submitted
    log_lookup_ai.Response.Policy.validate_field log_lookup_ai.Response.Policy.validate_fields
    log_lookup_ai.Response.Policy.validate_payload log_lookup_ai.Response.Audit.entry_parts
    log_lookup_ai.Response.Audit.entry_hash log_lookup_ai.Response.Audit.last_hash
    log_lookup_ai.Response.Audit.new_event log_lookup_ai.Response.Audit.append
    log_lookup_ai.Response.Audit.first_broken log_lookup_ai.Response.Audit.verify
    log_lookup_ai.Response.Tables.commit log_lookup_ai.Response.Tables.transaction
    log_lookup_ai.Response.Tables.hits log_lookup_ai.Response.Tables.enqueue
    log_lookup_ai.Response.Tables.set_state_in log_lookup_ai.Response.Tables.finish
    log_lookup_ai.Response.Tables.next_queued log_lookup_ai.Response.Tables.unsettled
    log_lookup_ai.Response.Tables.revision_within log_lookup_ai.Response.Tables.current_revision
    log_lookup_ai.Response.Approvals.move log_lookup_ai.Response.Approvals.holds_key
    log_lookup_ai.Response.Approvals.key_taken log_lookup_ai.Response.Approvals.insert_action
    log_lookup_ai.Response.Approvals.with_action log_lookup_ai.Response.Approvals.get
    log_lookup_ai.Response.Approvals.new_action log_lookup_ai.Response.Approvals.propose_body
    log_lookup_ai.Response.Approvals.draft log_lookup_ai.Response.Approvals.reply
    log_lookup_ai.Response.Approvals.propose log_lookup_ai.Response.Decisions.has_approved
    log_lookup_ai.Response.Decisions.last_at log_lookup_ai.Response.Decisions.contract
    log_lookup_ai.Response.Decisions.is_due log_lookup_ai.Response.Decisions.is_stale
    log_lookup_ai.Response.Decisions.stale_detail log_lookup_ai.Response.Decisions.enough
    log_lookup_ai.Response.Decisions.approved_detail log_lookup_ai.Response.Decisions.withdraw
    log_lookup_ai.Response.Decisions.expire log_lookup_ai.Response.Decisions.stale_note
    log_lookup_ai.Response.Decisions.release log_lookup_ai.Response.Decisions.endorse
    log_lookup_ai.Response.Decisions.grant log_lookup_ai.Response.Decisions.approve_body
    log_lookup_ai.Response.Decisions.approve log_lookup_ai.Response.Decisions.reject_body
    log_lookup_ai.Response.Decisions.reject log_lookup_ai.Response.Decisions.cancel_body
    log_lookup_ai.Response.Decisions.cancel log_lookup_ai.Response.Trace.step
    log_lookup_ai.Response.Trace.run
approved_run = refl

released-approvals_example :
    (queued_action.approvals_required ≤ length queued_action.approvals)
    × Distinct queued_action.approvals
released-approvals_example =
    released-approvals demo approved_ops empty refl refl "a1" queued_action approved_run refl

separated-approvals_example :
    has_approved queued_action.requested_by queued_action.approvals ≡ false
separated-approvals_example =
    separated-approvals demo approved_ops empty refl refl "a1" queued_action approved_run
      incident_workflow incident_found refl

run-path_example :
    (b : ResponseAction) × (find_action "a1"
        (run demo (run_once_op transport 30 ∷ recover_op 40 ∷ []) (run demo approved_ops empty).0).0
      ≡ some b)
    × (queued ⟶* b.state)
    × (proposal b ≡ proposal queued_action)
run-path_example =
    run-path demo (run_once_op transport 30 ∷ recover_op 40 ∷ []) (run demo approved_ops empty).0
      (run-IsSound demo approved_ops empty empty-IsSound-demo) "a1" queued_action approved_run

claim-Serves_example :
    Serves demo 30 (run demo approved_ops empty).0 (claim demo 30 (run demo approved_ops empty).0)
claim-Serves_example =
    claim-Serves demo 30 (run demo approved_ops empty).0
      (run-IsSound demo approved_ops empty empty-IsSound-demo).unique

abbrev trail : List AuditEvent
trail =
    record {
      ts = 5;
      actor = "ann";
      action = "login";
      target = "engine";
      detail = "from office";
      prev_hash = Audit.genesis;
      entry_hash = "from office";
    }
    ∷ []

trail_valid : (Audit.verify demo trail).valid ≡ true
unfolding Audit.verify Audit.first_broken Audit.entry_hash Audit.entry_parts join
trail_valid = refl

append-verify_example :
    (Audit.verify demo
      (Audit.append demo 6 "bob" "logout" "engine" [] (record empty { audit = trail })).audit).valid
    ≡ true
append-verify_example =
    append-verify demo 6 "bob" "logout" "engine" [] (record empty { audit = trail }) trail_valid

trail-IsPlain : All (IsPlain demo) trail
trail-IsPlain = (
  record {
    prev_hash = is_free-IsFree Audit.separator Audit.genesis (unfold is_free in refl);
    ts = is_free-IsFree Audit.separator "text" (unfold is_free in refl);
    actor = is_free-IsFree Audit.separator "ann" (unfold is_free in refl);
    action = is_free-IsFree Audit.separator "login" (unfold is_free in refl);
    target = is_free-IsFree Audit.separator "engine" (unfold is_free in refl);
  },
  tt,
)

verify-tamper_example : (contents demo trail ≡ contents demo trail) ⊎ Collision demo
verify-tamper_example =
    verify-tamper demo trail trail trail-IsPlain trail-IsPlain trail_valid trail_valid refl refl

abbrev one_run : Run
one_run = record {
  name = some "0858";
  status = some "Succeeded";
  tracking_id = some "a1";
  start_time = none;
  end_time = none;
  error_code = none;
  error_message = none;
}

abbrev azure : Azure
azure = record {
  get_run = λ name. inl "not_found";
  list_runs = λ filtered i. page (one_run ∷ []) none;
  is_uuid = λ id. true;
  is_run_name = λ name. true;
}

abbrev report : RunLookup
report = record {
  found = true;
  reason = "ok";
  status = some "Succeeded";
  matched_by = some "client_tracking_id";
  run_name = some "0858";
  start_time = none;
  end_time = none;
  error_code = none;
  error_message = none;
  candidates = 1;
}

report_found : lookup demo azure "a1" none ≡ inr report
unfolding lookup lookup_tracked find_by_tracking_id collect choose describe keep
report_found = refl

lookup-Matches_example : Matches demo azure "a1" none report
lookup-Matches_example = lookup-Matches demo azure "a1" none report report_found refl

incident_clean :
    validate_payload demo incident_workflow incident
    ≡ ok (("title", "beaconing host") ∷ ("severity", "high") ∷ [])
unfolding validate_payload validate_fields validate_field submitted any contains
incident_clean = refl

validate_payload-Answers_example :
    (any (is_extra incident_workflow.fields) incident ≡ false)
    × Answers demo incident_workflow.fields
        (("title", "beaconing host") ∷ ("severity", "high") ∷ [])
validate_payload-Answers_example =
    validate_payload-Answers demo incident_workflow incident
      (("title", "beaconing host") ∷ ("severity", "high") ∷ []) incident_clean

-- The deployment after its workflow was taken off the allowlist.
abbrev bare : Env
bare = record demo { workflows = [] }

abbrev queued_row : OutboxRow
queued_row = record {
  action_id = "a1";
  idempotency_key = "create-incident-v1";
  destination = "https://logic.azure.com/hook";
  payload = record {
    workflow_id = "create-incident-v1";
    action_id = "a1";
    idempotency_key = "create-incident-v1";
    cluster_id = "c1";
    investigation_revision = 1;
    scope_id = "prod";
    requested_by = "ann";
    approved_by = "bob" ∷ [];
    approved_at = some 20;
    evidence_refs = [];
    requested_operation = none;
    payload = ("title", "beaconing host") ∷ ("severity", "high") ∷ [];
  };
  delivery_state = "queued";
  attempts = 0;
  last_error = none;
  created_at = 20;
  updated_at = 20;
}

abbrev waiting : World
waiting = record empty { actions = queued_action ∷ []; outbox = queued_row ∷ [] }

waiting_claimed : (claim bare 30 waiting).1 ≡ some (sending 30 queued_action, queued_row)
unfolding log_lookup_ai.Prelude.any log_lookup_ai.Prelude.keep log_lookup_ai.Prelude.count
    log_lookup_ai.Prelude.contains log_lookup_ai.Prelude.Table.find
    log_lookup_ai.Prelude.Table.update log_lookup_ai.Response.Audit.entry_parts
    log_lookup_ai.Response.Audit.entry_hash log_lookup_ai.Response.Audit.last_hash
    log_lookup_ai.Response.Audit.new_event log_lookup_ai.Response.Audit.append
    log_lookup_ai.Response.Audit.first_broken log_lookup_ai.Response.Audit.verify
    log_lookup_ai.Response.Tables.commit log_lookup_ai.Response.Tables.transaction
    log_lookup_ai.Response.Tables.hits log_lookup_ai.Response.Tables.enqueue
    log_lookup_ai.Response.Tables.set_state_in log_lookup_ai.Response.Tables.finish
    log_lookup_ai.Response.Tables.next_queued log_lookup_ai.Response.Tables.unsettled
    log_lookup_ai.Response.Tables.revision_within log_lookup_ai.Response.Tables.current_revision
    log_lookup_ai.Response.Decisions.has_approved log_lookup_ai.Response.Decisions.last_at
    log_lookup_ai.Response.Decisions.contract log_lookup_ai.Response.Decisions.is_due
    log_lookup_ai.Response.Decisions.is_stale log_lookup_ai.Response.Decisions.stale_detail
    log_lookup_ai.Response.Decisions.enough log_lookup_ai.Response.Decisions.approved_detail
    log_lookup_ai.Response.Decisions.withdraw log_lookup_ai.Response.Decisions.expire
    log_lookup_ai.Response.Decisions.stale_note log_lookup_ai.Response.Decisions.release
    log_lookup_ai.Response.Decisions.endorse log_lookup_ai.Response.Decisions.grant
    log_lookup_ai.Response.Decisions.approve_body log_lookup_ai.Response.Decisions.approve
    log_lookup_ai.Response.Decisions.reject_body log_lookup_ai.Response.Decisions.reject
    log_lookup_ai.Response.Decisions.cancel_body log_lookup_ai.Response.Decisions.cancel
    log_lookup_ai.Response.Dispatcher.outbox_for log_lookup_ai.Response.Dispatcher.state_name
    log_lookup_ai.Response.Dispatcher.settled_state log_lookup_ai.Response.Dispatcher.verdict_name
    log_lookup_ai.Response.Dispatcher.after_round log_lookup_ai.Response.Dispatcher.obstacle
    log_lookup_ai.Response.Dispatcher.expire_queued log_lookup_ai.Response.Dispatcher.take
    log_lookup_ai.Response.Dispatcher.consider_queued log_lookup_ai.Response.Dispatcher.drop_row
    log_lookup_ai.Response.Dispatcher.consider log_lookup_ai.Response.Dispatcher.round_for
    log_lookup_ai.Response.Dispatcher.claim_round log_lookup_ai.Response.Dispatcher.claim_within
    log_lookup_ai.Response.Dispatcher.claim log_lookup_ai.Response.Dispatcher.set_state
    log_lookup_ai.Response.Dispatcher.settle_as log_lookup_ai.Response.Dispatcher.settle_from
    log_lookup_ai.Response.Dispatcher.record_result
waiting_claimed = refl

bare_forbids : get_workflow bare "create-incident-v1" ≡ err forbidden
unfolding get_workflow find
bare_forbids = refl

run_once-stuck_example :
    ((run_once bare transport 30 waiting).1 ≡ none)
    × ((b : ResponseAction) × (find_action "a1" (run_once bare transport 30 waiting).0 ≡ some b)
        × (b.state ≡ dispatching))
run_once-stuck_example =
    run_once-stuck bare transport 30 waiting (sending 30 queued_action) queued_row
      (unfold find in (refl, tt)) waiting_claimed bare_forbids
