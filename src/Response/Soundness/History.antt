-- ===== src/Response/Soundness/History.antt =====
-- What becomes of an action that is in the tables, whatever operations run.
use log_lookup_ai.Prelude.{
  ℕ, ◌≡◌, refl, subst, String, true, false, some, List, [], ◌∷◌, length, ◌≤◌,
}
use log_lookup_ai.Prelude.Table.{find, find-append}
use log_lookup_ai.Prelude.Outcome.{ok}
use log_lookup_ai.Response.Models.{Detail, ResponseAction, World}
use log_lookup_ai.Response.Policy.{Env, Submitted, WorkflowDef, get_workflow}
use log_lookup_ai.Response.Audit
use log_lookup_ai.Response.Tables.{find_action}
use log_lookup_ai.Response.Approvals.{insert_action, propose_body, draft, propose}
use log_lookup_ai.Response.Decisions.{has_approved}
use log_lookup_ai.Response.Trace.{Op, step, run}
use log_lookup_ai.Response.Soundness.States.{◌⟶*◌, is_released}
use log_lookup_ai.Response.Soundness.Change.{
  Distinct, proposal, Extends, Extends-refl, Extends-trans, forward,
}
use log_lookup_ai.Response.Soundness.Rules.{Ensures-bind, with_action-holds, reply-holds}
use log_lookup_ai.Response.Soundness.Invariant.{IsSound, insert_action_lem, with_action_row}
use log_lookup_ai.Response.Soundness.Once.{step-holds, step-IsSound, run-IsSound}

module _ (env : Env) where
  -- The actions of the tables stay, and change only as they may.
  abbrev pub Keeps : World → World → Type 0
  Keeps w w' =
      (id : String) (a : ResponseAction)
      → find_action id w ≡ some a
      → (b : ResponseAction) × (find_action id w' ≡ some b) × Extends env a b

  insert-Keeps : (a : ResponseAction) (w : World) → Keeps w (with_action_row a w)
  insert-Keeps a w id b found = (b, rw (find-append, found) refl, Extends-refl env b)

  audit-Keeps :
      (now : ℕ) (actor action target : String) (detail : Detail) (w w' : World)
      → Keeps w w'
      → Keeps w (Audit.append env now actor action target detail w')
  unfolding Audit.append
  audit-Keeps now actor action target detail w w' k = k

  propose-Keeps :
      (user role id cluster : String) (revision : ℕ) (workflow : String)
      (payload : List (String × Submitted)) (evidence : List String) (rationale : String) (now : ℕ)
      (w : World)
      → Keeps w
          (propose env user role id cluster revision workflow payload evidence rationale now w).1
  unfolding propose propose_body
  propose-Keeps user role id cluster revision workflow payload evidence rationale now w =
      let same : Keeps w w = λ j a found. (a, found, Extends-refl env a) in
      with_action-holds (Keeps w)
        (draft env user role id cluster revision workflow payload evidence rationale now) w _ same
        λ a made. reply-holds env (Keeps w) id (propose_body env now a) w same (
          Ensures-bind (Keeps w) (insert_action a w) _ λ w' put.
            let (absent, free, made) = insert_action_lem a w put in
            audit-Keeps now a.requested_by "action.proposed" a.action_id _ w w'
              (subst (Keeps w) made (insert-Keeps a w)))

  pub step-Keeps : (op : Op) (w : World) → IsSound env w → Keeps w (step env op w).0
  step-Keeps op w s =
      step-holds env (Keeps w) op w s.unique (λ w' e id a found. forward env id e found)
        λ u r i c v f p e x n. propose-Keeps u r i c v f p e x n w

  run-Keeps : (ops : List Op) (w : World) → IsSound env w → Keeps w (run env ops w).0
  unfolding run
  run-Keeps [] w s = λ id a found. (a, found, Extends-refl env a)
  run-Keeps (op ∷ ops) w s = λ id a found.
      let (b, found_b, ab) = step-Keeps op w s id a found in
      let (c, found_c, bc) = run-Keeps ops _ (step-IsSound env op w s) id b found_b in
      (c, found_c, Extends-trans env ab bc)

  -- Whatever operations run, in whatever order, from sound tables: an action that is there is still
  -- there afterwards, its state is reached by transitions of TRANSITIONS, and what was proposed
  -- (its payload, its hash, its requester, its revision and the approvals it needs) is unchanged.
  pub run-path :
      (ops : List Op) (w : World)
      → IsSound env w
      → (id : String) (a : ResponseAction) → find_action id w ≡ some a
      → (b : ResponseAction) × (find_action id (run env ops w).0 ≡ some b)
        × (a.state ⟶* b.state)
        × (proposal b ≡ proposal a)
  run-path ops w s id a found =
      let (b, found_b, ab) = run-Keeps ops w s id a found in (b, found_b, ab.path, ab.same)

  -- Tables with no action and no outbox row.
  pub empty-IsSound : (w : World) → w.actions ≡ [] → w.outbox ≡ [] → IsSound env w
  empty-IsSound w none_there no_row = record {
    vetted = λ id a found. absurd (gone id found);
    mirrored = λ id a found. absurd (gone id found);
    no_orphan = λ id h. rw no_row (unfold find in refl);
    one_live = λ i j a b fa fb la lb key. absurd (gone i fa);
    unique = rw no_row tt;
  }
    where
      gone : (id : String) {a : ResponseAction} → find_action id w ≡ some a → ⊥
      gone id {a} found =
          let h : find ResponseAction.action_id id [] ≡ some a =
            subst (λ rows. find ResponseAction.action_id id rows ≡ some a) none_there found in
          unfold find in cc h

  -- However the operations run from tables without actions: an action that is approved, queued or
  -- further has as many approvals as it needs, each of another person.
  pub released-approvals :
      (ops : List Op) (w : World)
      → w.actions ≡ []
      → w.outbox ≡ []
      → (id : String) (a : ResponseAction) → find_action id (run env ops w).0 ≡ some a
      → is_released a.state ≡ true
      → (a.approvals_required ≤ length a.approvals) × Distinct a.approvals
  released-approvals ops w no_action no_row id a found released =
      let v = (run-IsSound env ops w (empty-IsSound w no_action no_row)).vetted id a found in
      (v.enough released, v.distinct)

  -- However the operations run from tables without actions: no action of a workflow that separates
  -- duties is approved by the person who requested it.
  pub separated-approvals :
      (ops : List Op) (w : World)
      → w.actions ≡ []
      → w.outbox ≡ []
      → (id : String) (a : ResponseAction) → find_action id (run env ops w).0 ≡ some a
      → (wf : WorkflowDef) → get_workflow env a.workflow_id ≡ ok wf
      → wf.separation_of_duties ≡ true
      → has_approved a.requested_by a.approvals ≡ false
  separated-approvals ops w no_action no_row id a found =
      let v = (run-IsSound env ops w (empty-IsSound w no_action no_row)).vetted id a found in
      v.separated
