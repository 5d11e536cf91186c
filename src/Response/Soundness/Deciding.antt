-- ===== src/Response/Soundness/Deciding.antt =====
-- `approve`, `reject`, `cancel` and the expiry change the tables as they may.
use log_lookup_ai.Prelude.{
  ℕ, ◌≡◌, refl, ap, ◌∙◌, sym, subst, inl, String, true, false, ◌&&◌, ◌||◌, none, some, List, [],
  ◌∷◌, ◌++◌, ◌≢◌, arith, ◌==◌, string_eq, leb→le, text_iff, text_refl, any,
}
use log_lookup_ai.Prelude.Table.{Unique-append, find-append, find-update_self, find-update_ne}
use log_lookup_ai.Prelude.Outcome.{ok}
use log_lookup_ai.Response.Models.{
  approval_required, approved, queued, expired, state_eq, Detail, Approval, ResponseAction,
  Contract, OutboxRow, World,
}
use log_lookup_ai.Response.Policy.{Env, WorkflowDef, get_workflow}
use log_lookup_ai.Response.Tables.{
  find_action, find_outbox, delivery, set_action, enqueue, outbox_row,
}
use log_lookup_ai.Response.Approvals.{move, save, destination}
use log_lookup_ai.Response.Decisions.{
  has_approved, contract, expire, approve_with, enough, save_approval_row, save_approval,
  approved_detail, release, endorse,
}
use log_lookup_ai.Response.Soundness.States.{go, stay, is_released}
use log_lookup_ai.Response.Soundness.Change.{
  Distinct, IsVetted, Proposal, proposal, Extends-move, Evolves, Evolves-write, Evolves-action,
}
use log_lookup_ai.Response.Soundness.Rules.{
  Ensures, Ensures-bind, move_lem, when_state_at, when_state_id, Mirrors-at, Evolves-audit,
}

has_approved-append :
    (who user rationale : String) (now : ℕ) (as' : List Approval)
    → has_approved who (as' ++ record { by = user; at = now; rationale = rationale } ∷ [])
      ≡ (has_approved who as' || user == who)
unfolding has_approved any
has_approved-append who user rationale now [] = ground arith
has_approved-append who user rationale now (a ∷ rest) =
    ground (arith, has_approved-append who user rationale now rest)

Distinct-append :
    (user rationale : String) (now : ℕ) (as' : List Approval)
    → has_approved user as' ≡ false
    → Distinct as'
    → Distinct (as' ++ record { by = user; at = now; rationale = rationale } ∷ [])
unfolding has_approved any
Distinct-append user rationale now [] h d = (refl, tt)
Distinct-append user rationale now (a ∷ rest) h d = (
  ground (
    arith,
    has_approved-append a.by user rationale now rest,
    text_iff user a.by,
    text_iff a.by user,
    h,
    d.0,
  ),
  Distinct-append user rationale now rest (ground arith) d.1,
)

-- Inversion of the insertion into the outbox.
enqueue_lem :
    (now : ℕ) (id key place : String) (c : Contract) (w : World) {w' : World}
    → enqueue now id key place c w ≡ ok w'
    → (find_outbox id w ≡ none)
      × (record w { outbox = w.outbox ++ outbox_row now id key place c ∷ [] } ≡ w')
unfolding enqueue
enqueue_lem now id key place c w h = ground arith

module _ (now : ℕ) (id key place : String) (c : Contract) (w : World) where
  abbrev with_row : World
  with_row = record w { outbox = w.outbox ++ outbox_row now id key place c ∷ [] }

  delivery-with_row : find_outbox id w ≡ none → delivery id with_row ≡ some "queued"
  delivery-with_row h = rw (find-append OutboxRow.action_id, h, text_refl)

  delivery-with_row_ne : (j : String) → id ≢ j → delivery j with_row ≡ delivery j w
  delivery-with_row_ne j n = rw find-append (ground (arith, text_iff id j))

abbrev proposal_required : Proposal → ℕ
proposal_required p = p.approvals_required

abbrev proposal_requester : Proposal → String
proposal_requester p = p.requested_by

abbrev proposal_workflow : Proposal → String
proposal_workflow p = p.workflow_id

module _ (env : Env) where
  pub expire-Evolves :
      (event note : String) (detail : Detail) (now : ℕ) (a : ResponseAction) (w : World)
      → find_action a.action_id w ≡ some a
      → a.state ≡ approval_required
      → Ensures (Evolves env w) (expire env event detail note now a w)
  unfolding expire
  expire-Evolves event note detail now a w found pending =
      Ensures-bind (Evolves env w) (move expired "system" note now a) _ λ b moved.
        let (step, at, _) = move_lem expired "system" note now a moved in
        Evolves-audit env now "system" event a.action_id detail (
          Evolves-action env a.action_id (save now b) w found (λ r. refl) refl
            (Extends-move env step refl refl (λ h. cc (sym h ∙ ap is_released at)))
            (λ d m. Mirrors-at d (sym at) (inl (Mirrors-at d pending m))))

  -- The approval that is added is by a new person, and not by the requester where duties are
  -- separated.
  approve_with-IsVetted :
      (user rationale : String) (now : ℕ) (a b : ResponseAction) (wf : WorkflowDef)
      → get_workflow env a.workflow_id ≡ ok wf
      → (wf.separation_of_duties && user == a.requested_by) ≡ false
      → has_approved user a.approvals ≡ false
      → proposal b ≡ proposal a
      → b.approvals ≡ (approve_with user rationale now a).approvals
      → (is_released b.state ≡ true → enough (approve_with user rationale now a) ≡ true)
      → IsVetted env a
      → IsVetted env b
  unfolding enough
  approve_with-IsVetted user rationale now a b wf found sep fresh same kept release v = record {
    distinct = rw kept (Distinct-append user rationale now a.approvals fresh v.distinct);
    enough = λ h. rw (kept, ap proposal_required same) (leb→le _ _ (release h));
    separated = λ wf' found' sep'.
        rw (kept, ap proposal_requester same, has_approved-append)
          (ground
            (arith, found, rw (ap proposal_workflow same) at found', v.separated wf', sep, sep'));
  }

  -- The mirror of a transition out of `approval_required` with no outbox row.
  pub endorse-Evolves :
      (user rationale : String) (now : ℕ) (a : ResponseAction) (w : World) (wf : WorkflowDef)
      → find_action a.action_id w ≡ some a
      → a.state ≡ approval_required
      → get_workflow env a.workflow_id ≡ ok wf
      → (wf.separation_of_duties && user == a.requested_by) ≡ false
      → has_approved user a.approvals ≡ false
      → Ensures (Evolves env w) (endorse env user now (approve_with user rationale now a) w)
  unfolding endorse
  endorse-Evolves user rationale now a w wf found pending known sep fresh =
      let b = approve_with user rationale now a in
      Evolves-audit env now user "action.approved" a.action_id (approved_detail b false) (
        Evolves-action env a.action_id (save_approval now b) w found
          (λ r. when_state_id approval_required (save_approval_row now b) r refl)
          (when_state_at approval_required (save_approval_row now b) a pending)
          (record {
            path = stay;
            same = refl;
            vetted =
                approve_with-IsVetted user rationale now a (save_approval_row now b a) wf known sep
                  fresh refl refl (λ h. cc (sym h ∙ ap is_released pending));
          })
          (λ d m. m))

  released :
      (user rationale : String) (now : ℕ) (a : ResponseAction) (w : World) (wf : WorkflowDef)
      → find_action a.action_id w ≡ some a
      → a.state ≡ approval_required
      → get_workflow env a.workflow_id ≡ ok wf
      → (wf.separation_of_duties && user == a.requested_by) ≡ false
      → has_approved user a.approvals ≡ false
      → enough (approve_with user rationale now a) ≡ true
      → (b c : ResponseAction)
      → move approved user "approval threshold met" now (approve_with user rationale now a) ≡ ok b
      → move queued "system" "queued for dispatch" now b ≡ ok c
      → find_outbox a.action_id w ≡ none
      → Evolves env w (
          with_row now a.action_id a.idempotency_key destination
            (contract c)
            (set_action a.action_id (save_approval now c) w))
  released user rationale now a w wf found pending known sep fresh done b c m₁ m₂ empty =
      let (step₁, at₁, kept₁) = move_lem approved user _ now _ m₁ in
      let (step₂, at₂, kept₂) = move_lem queued "system" _ now b m₂ in
      Evolves-write env a.action_id
        (λ j n.
          find-update_ne ResponseAction.action_id a.action_id j (save_approval now c) w.actions
            (λ r. when_state_id approval_required (save_approval_row now c) r refl) n)
        (λ j n. delivery-with_row_ne now a.action_id _ destination (contract c) w j n)
        (rw
          (
            find-update_self ResponseAction.action_id a.action_id (save_approval now c) w.actions
                (λ r. when_state_id approval_required (save_approval_row now c) r refl),
            found,
            when_state_at approval_required (save_approval_row now c) a pending,
            delivery-with_row now a.action_id a.idempotency_key destination (contract c) w empty,
          )
          (
            record {
              path = go step₁ (go step₂ stay);
              same = refl;
              vetted =
                  approve_with-IsVetted user rationale now a (save_approval_row now c a) wf known
                    sep fresh refl (kept₂ ∙ kept₁) (λ h. done);
            },
            λ m. Mirrors-at _ (sym at₂) refl,
          ))
        (Unique-append OutboxRow.action_id w.outbox
          (outbox_row now a.action_id a.idempotency_key destination (contract c)) empty)

  pub release-Evolves :
      (user rationale : String) (now : ℕ) (a : ResponseAction) (w : World) (wf : WorkflowDef)
      → find_action a.action_id w ≡ some a
      → a.state ≡ approval_required
      → get_workflow env a.workflow_id ≡ ok wf
      → (wf.separation_of_duties && user == a.requested_by) ≡ false
      → has_approved user a.approvals ≡ false
      → enough (approve_with user rationale now a) ≡ true
      → Ensures (Evolves env w) (release env user now (approve_with user rationale now a) w)
  unfolding release
  release-Evolves user rationale now a w wf found pending known sep fresh done =
      Ensures-bind (Evolves env w) (move approved user _ now _) _ λ b m₁.
        Ensures-bind (Evolves env w) (move queued "system" _ now b) _ λ c m₂.
          Ensures-bind (Evolves env w) (enqueue now a.action_id _ destination (contract c) _) _
            λ w' put.
              Evolves-audit env now user "action.approved" a.action_id (approved_detail c true) (
                subst (Evolves env w)
                  (enqueue_lem now a.action_id _ destination (contract c) _ put).1
                  (released user rationale now a w wf found pending known sep fresh done b c m₁ m₂
                    (enqueue_lem now a.action_id _ destination (contract c) _ put).0))
