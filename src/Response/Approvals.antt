-- ===== src/Response/Approvals.antt =====
-- engine/response/approvals.py: proposal, approval, rejection and cancellation.
-- `now` is the instant that `utcnow()` returns in one call of an operation.
use log_lookup_ai.Prelude.{
  ℕ, ◌+◌, ◌*◌, String, Bool, true, false, not, ◌&&◌, ◌||◌, none, some, List, [], ◌∷◌, ◌++◌, ◌==◌,
  string_eq, nat_eq, if◌then◌else◌, any,
}
use log_lookup_ai.Prelude.Outcome.{
  Outcome, ok, err, forbidden, conflict, not_found, unavailable, ◌>>=◌,
}
use log_lookup_ai.Prelude.Text.{join}
use log_lookup_ai.Response.Models.{
  ActionState, proposed, approval_required, rejected, expired, cancelled, failed_without_effect,
  state_eq, legal, num, text, texts, ResponseAction, World,
}
use log_lookup_ai.Response.Policy.{
  Env, WorkflowDef, Submitted, get_workflow, has_role, validate_payload,
}
use log_lookup_ai.Response.Audit
use log_lookup_ai.Response.Tables.{transaction, find_action}

abbrev pub destination : String
destination = "logic_apps"

-- ActionService._move
unfoldable pub move : ActionState → String → String → ℕ → ResponseAction → Outcome ResponseAction
unfolding legal
move new by note now a =
    if legal a.state new
    then ok (record a {
      state = new;
      transition_log =
          a.transition_log
          ++ (record { at = now; by = by; source = some a.state; target = new; note = note }) ∷ [];
    })
    else err conflict

-- UPDATE response_actions SET state=?, transitions_json=?, updated_at=? WHERE action_id=?
abbrev pub save : ℕ → ResponseAction → ResponseAction → ResponseAction
save now a row = record row { state = a.state; transition_log = a.transition_log; updated_at = now }

-- The unique index `ux_actions_idem`: one live action for each idempotency key.
unfoldable pub holds_key : ActionState → Bool
holds_key s = not (s == rejected || s == failed_without_effect || s == expired || s == cancelled)

-- A row that the partial index covers, with this key.
abbrev pub is_live_with : String → ResponseAction → Bool
is_live_with key a = holds_key a.state && a.idempotency_key == key

unfoldable pub key_taken : String → List ResponseAction → Bool
unfolding holds_key any
key_taken key rows = any (is_live_with key) rows

-- The INSERT of `propose`, with the two constraints that raise IntegrityError.
unfoldable pub insert_action : ResponseAction → World → Outcome World
insert_action a w = elim (find_action a.action_id w) [
  | some _ ↦ err conflict
  | none ↦
      if key_taken a.idempotency_key w.actions
      then err conflict
      else ok (record w { actions = w.actions ++ a ∷ [] })
]

-- A call that raises before any write ends the operation; else it goes on with the action.
unfoldable pub with_action :
    Outcome ResponseAction
    → World
    → (ResponseAction → Outcome ResponseAction × World)
    → Outcome ResponseAction × World
with_action (err e) w k = (err e, w)
with_action (ok a) w k = k a

module _ (env : Env) where
  -- ActionService.get and _load_locked
  unfoldable pub get : String → World → Outcome ResponseAction
  get id w = elim (find_action id w) [
    | none ↦ err not_found
    | some a ↦ if a.scope_id == env.scope then ok a else err not_found
  ]

  -- The row of a new proposal.
  unfoldable pub new_action :
      String
      → String
      → String
      → ℕ
      → WorkflowDef
      → List (String × String)
      → List String
      → String
      → ℕ
      → ResponseAction
  new_action user id cluster revision wf clean evidence rationale now =
      let refs : List String = env.sorted_set evidence in
      let hash : String = env.sha256 (env.canonical wf.workflow_id clean refs) in
      record {
        action_id = id;
        scope_id = env.scope;
        cluster_id = cluster;
        revision = revision;
        workflow_id = wf.workflow_id;
        requested_by = user;
        payload = record { fields = clean; evidence_refs = refs };
        canonical_payload_hash = hash;
        idempotency_key = env.sha256 (
            join "|" (
              env.scope
              ∷ destination
              ∷ wf.workflow_id
              ∷ cluster
              ∷ env.render (num revision ∷ [])
              ∷ hash
              ∷ []));
        state = approval_required;
        approvals_required = wf.approvals_required;
        approvals = [];
        rejected_by = none;
        rationale = some rationale;
        provider_run_id = none;
        last_remote_observation = none;
        expires_at = some (now + wf.ttl_seconds * 1000000);
        transition_log =
            record { at = now; by = user; source = none; target = proposed; note = "" }
            ∷ record {
              at = now;
              by = user;
              source = some proposed;
              target = approval_required;
              note = "";
            }
            ∷ [];
        created_at = now;
        updated_at = now;
        remote_status = none;
        remote_status_at = none;
        remote_run = none;
        downstream_effect = "not_observed";
      }

  -- The transaction of `propose`.
  unfoldable pub propose_body : ℕ → ResponseAction → World → Outcome (Bool × World)
  propose_body now a w = insert_action a w >>= λ w'. ok (
    false,
    Audit.append env now a.requested_by "action.proposed" a.action_id
        (("cluster_id", text a.cluster_id)
          ∷ ("revision", num a.revision)
          ∷ ("workflow_id", text a.workflow_id)
          ∷ ("payload_hash", text a.canonical_payload_hash)
          ∷ ("evidence_refs", texts a.payload.evidence_refs)
          ∷ [])
        w',
  )

  -- What `propose` checks before it writes; `id` is the fresh `uuid4`.
  unfoldable pub draft :
      String
      → String
      → String
      → String
      → ℕ
      → String
      → List (String × Submitted)
      → List String
      → String
      → ℕ
      → Outcome ResponseAction
  draft user role id cluster revision workflow payload evidence rationale now =
      if not (has_role role "analyst")
      then err forbidden
      else if not env.enabled
      then err unavailable
      else (get_workflow env workflow >>= λ wf. validate_payload env wf payload >>= λ clean.
          ok (new_action user id cluster revision wf clean evidence rationale now))

  -- What follows the transaction: a refusal that was committed is raised, else the row is read.
  unfoldable pub reply : String → Outcome Bool × World → Outcome ResponseAction × World
  reply id (ok true, w) = (err conflict, w)
  reply id (ok false, w) = (get id w, w)
  reply id (err e, w) = (err e, w)

  -- ActionService.propose
  unfoldable pub propose :
      String
      → String
      → String
      → String
      → ℕ
      → String
      → List (String × Submitted)
      → List String
      → String
      → ℕ
      → World
      → Outcome ResponseAction × World
  propose user role id cluster revision workflow payload evidence rationale now w =
      with_action (draft user role id cluster revision workflow payload evidence rationale now) w
        λ a. reply id (transaction (propose_body now a) w)
