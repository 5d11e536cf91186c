-- ===== src/Response/Decisions.antt =====
-- engine/response/approvals.py: what a person decides about a pending action, and its expiry.
use log_lookup_ai.Prelude.{
  ℕ, String, Bool, true, false, not, ◌&&◌, ◌||◌, Option, none, some, List, [], ◌∷◌, ◌++◌, map, ◌==◌,
  string_eq, nat_eq, if◌then◌else◌, ltb, leb, length, any,
}
use log_lookup_ai.Prelude.Outcome.{Outcome, ok, err, forbidden, conflict, ◌>>=◌}
use log_lookup_ai.Response.Models.{
  approval_required, approved, rejected, queued, expired, cancelled, state_eq, num, text, flag,
  Detail, Approval, ResponseAction, Contract, OutboxRow, World,
}
use log_lookup_ai.Response.Policy.{Env, get_workflow, has_role}
use log_lookup_ai.Response.Audit
use log_lookup_ai.Response.Tables.{
  transaction, set_action, when_state, set_outbox, enqueue, current_revision,
}
use log_lookup_ai.Response.Approvals.{destination, get, move, save, reply, with_action}

-- any(a["by"] == user for a in action.approvals)
unfoldable pub has_approved : String → List Approval → Bool
unfolding any
has_approved user approvals = any (λ (a : Approval). a.by == user) approvals

-- action.approvals[-1]["at"]
unfoldable pub last_at : List Approval → Option ℕ
last_at [] = none
last_at (a ∷ []) = some a.at
last_at (a ∷ b ∷ rest) = last_at (b ∷ rest)

-- ActionService._contract
unfoldable pub contract : ResponseAction → Contract
contract a = record {
  workflow_id = a.workflow_id;
  action_id = a.action_id;
  idempotency_key = a.idempotency_key;
  cluster_id = a.cluster_id;
  investigation_revision = a.revision;
  scope_id = a.scope_id;
  requested_by = a.requested_by;
  approved_by = map Approval.by a.approvals;
  approved_at = last_at a.approvals;
  evidence_refs = a.payload.evidence_refs;
  requested_operation = none;
  payload = a.payload.fields;
}

-- action.expires_at and action.expires_at < utcnow()
unfoldable pub is_due : ℕ → ResponseAction → Bool
is_due now a = elim a.expires_at [ none ↦ false | some t ↦ ltb t now ]

-- latest is not None and latest != action.revision
unfoldable pub is_stale : World → ResponseAction → Bool
is_stale w a = elim (current_revision w a.cluster_id) [
  | none ↦ false
  | some latest ↦ not (latest == a.revision)
]

unfoldable pub stale_detail : World → ResponseAction → Detail
stale_detail w a = elim (current_revision w a.cluster_id) [
  | none ↦ []
  | some latest ↦ ("proposed_on", num a.revision) ∷ ("current", num latest) ∷ []
]

-- The action with one more approval.
abbrev pub approve_with : String → String → ℕ → ResponseAction → ResponseAction
approve_with user rationale now a = record a {
  approvals = a.approvals ++ record { by = user; at = now; rationale = rationale } ∷ [];
}

unfoldable pub enough : ResponseAction → Bool
enough a = leb a.approvals_required (length a.approvals)

-- The UPDATE of `approve`, which applies to a pending row.
abbrev pub save_approval_row : ℕ → ResponseAction → ResponseAction → ResponseAction
save_approval_row now a row = record row {
  approvals = a.approvals;
  state = a.state;
  transition_log = a.transition_log;
  updated_at = now;
}

abbrev pub save_approval : ℕ → ResponseAction → ResponseAction → ResponseAction
save_approval now a = when_state approval_required (save_approval_row now a)

unfoldable pub approved_detail : ResponseAction → Bool → Detail
approved_detail a done =
    ("approvals", num (length a.approvals))
    ∷ ("required", num a.approvals_required)
    ∷ ("queued", flag done)
    ∷ ("payload_hash", text a.canonical_payload_hash)
    ∷ []

-- The outbox write of `cancel`, for a queued action.
abbrev pub withdrawn : ℕ → OutboxRow → OutboxRow
withdrawn now o =
    if o.delivery_state == "queued"
    then record o { delivery_state = "cancelled"; updated_at = now }
    else o

unfoldable pub withdraw : ℕ → String → ResponseAction → World → World
withdraw now id a w = if a.state == queued then set_outbox id (withdrawn now) w else w

module _ (env : Env) where
  -- The writes of `_expire_if_due` and `_expire_if_stale`.
  unfoldable pub expire :
      String → Detail → String → ℕ → ResponseAction → World → Outcome (Bool × World)
  expire event detail note now a w = move expired "system" note now a >>= λ a'. ok (
    true,
    Audit.append env now "system" event a.action_id detail (set_action a.action_id (save now a') w),
  )

  -- The note of an expiry by a newer revision.
  unfoldable pub stale_note : World → ResponseAction → String
  stale_note w a = elim (current_revision w a.cluster_id) [
    | none ↦ ""
    | some latest ↦ env.render (
        text "investigation moved from revision "
        ∷ num a.revision
        ∷ text " to "
        ∷ num latest
        ∷ text " before approval"
        ∷ [])
  ]

  -- Where the threshold is met: two moves, and a row in the outbox.
  unfoldable pub release : String → ℕ → ResponseAction → World → Outcome (Bool × World)
  release user now a w = move approved user "approval threshold met" now a >>= λ b.
      move queued "system" "queued for dispatch" now b >>= λ c.
      enqueue now a.action_id a.idempotency_key destination (contract c)
        (set_action a.action_id (save_approval now c) w)
      >>= λ w'. ok (
        false,
        Audit.append env now user "action.approved" a.action_id (approved_detail c true) w',
      )

  -- Where more approvals are needed.
  unfoldable pub endorse : String → ℕ → ResponseAction → World → Outcome (Bool × World)
  endorse user now a w = ok (
    false,
    Audit.append env now user "action.approved" a.action_id (approved_detail a false)
        (set_action a.action_id (save_approval now a) w),
  )

  -- The last branch of `approve`.
  unfoldable pub grant : String → String → ℕ → ResponseAction → World → Outcome (Bool × World)
  unfolding has_approved enough
  grant user rationale now a w = get_workflow env a.workflow_id >>= λ wf.
      if wf.separation_of_duties && user == a.requested_by
      then err forbidden
      else if has_approved user a.approvals
      then err conflict
      else let b = approve_with user rationale now a in
        if enough b then release user now b w else endorse user now b w

  -- The transaction of `approve`.
  unfoldable pub approve_body : String → String → String → ℕ → World → Outcome (Bool × World)
  approve_body user id rationale now w = get env id w >>= λ a.
      if not (a.state == approval_required)
      then err conflict
      else if is_due now a
      then expire "action.expired" [] "time-to-live elapsed" now a w
      else if is_stale w a
      then expire "action.superseded" (stale_detail w a) (stale_note w a) now a w
      else grant user rationale now a w

  -- ActionService.approve
  unfoldable pub approve :
      String → String → String → String → ℕ → World → Outcome ResponseAction × World
  approve user role id rationale now w =
      if not (has_role role "responder")
      then (err forbidden, w)
      else reply env id (transaction (approve_body user id rationale now) w)

  -- ActionService.reject
  unfoldable pub reject_body : String → String → String → ℕ → World → Outcome (Bool × World)
  reject_body user id rationale now w = get env id w >>= λ a.
      if not (a.state == approval_required)
      then err conflict
      else (move rejected user (if rationale == "" then "rejected" else rationale) now a >>= λ b.
          ok (
            false,
            Audit.append env now user "action.rejected" id (("rationale", text rationale) ∷ []) (
                set_action id
                  (λ row. record (save now b row) {
                    rejected_by = some user;
                    rationale = some rationale;
                  })
                  w),
          ))

  unfoldable pub reject :
      String → String → String → String → ℕ → World → Outcome ResponseAction × World
  reject user role id rationale now w =
      if not (has_role role "responder")
      then (err forbidden, w)
      else reply env id (transaction (reject_body user id rationale now) w)

  unfoldable pub cancel_body : String → String → ℕ → World → Outcome (Bool × World)
  unfolding withdraw
  cancel_body user id now w = get env id w >>= λ a.
      if not (a.state == approval_required || a.state == approved || a.state == queued)
      then err conflict
      else (move cancelled user "cancelled" now a >>= λ b. ok (
        false,
        Audit.append env now user "action.cancelled" id []
            (set_action id (save now b) (withdraw now id a w)),
      ))

  -- ActionService.cancel: the requester may cancel, or a responder.
  unfoldable pub cancel : String → String → String → ℕ → World → Outcome ResponseAction × World
  cancel user role id now w = with_action (get env id w) w λ a.
      if not (user == a.requested_by) && not (has_role role "responder")
      then (err forbidden, w)
      else reply env id (transaction (cancel_body user id now) w)
