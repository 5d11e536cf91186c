-- ===== src/Response/Soundness/Recovering.antt =====
-- `run_once`, `recover`, `resolve` and `check` change the tables as they may.
use mathlib.Core.Option
use log_lookup_ai.Prelude.{
  ℕ, ◌≡◌, refl, ◌∙◌, sym, inl, inr, String, Bool, true, false, not, Option, none, some, List, [],
  ◌∷◌, arith, ◌==◌, string_eq, Bool-cases,
}
use log_lookup_ai.Prelude.Table.{Unique}
use log_lookup_ai.Prelude.Outcome.{Outcome, ok, err}
use log_lookup_ai.Response.Models.{
  ActionState, proposed, approval_required, approved, rejected, queued, expired, cancelled,
  dispatching, acknowledged, completed, failed_without_effect, reconciliation_required, legal,
  state_eq, ResponseAction, OutboxRow, World,
}
use log_lookup_ai.Response.Policy.{Env, WorkflowDef, has_role}
use log_lookup_ai.Response.Tables.{
  find_action, hits, when_state, relabel, set_state_in, finish, unsettled,
}
use log_lookup_ai.Response.Approvals.{get}
use log_lookup_ai.Response.Dispatcher.{outbox_for}
use log_lookup_ai.Response.Delivery.{
  Sent, Transport, settle_read, settle_sent, dispatch, after_claim, run_once, repair, interrupted,
  requeue, recover_action, recover_row, recover_rows, recover, resolved_state, is_resolution,
  resolved_row, resolved_outbox, resolve_body, resolve,
}
use log_lookup_ai.Response.Soundness.Change.{
  Mirrors, Extends-move, Evolves, Evolves-refl, Evolves-trans, Evolves-both, Evolves-outbox,
}
use log_lookup_ai.Response.Soundness.Rules.{
  Ensures, Ensures-if, holds_if, state_of_test, hits_lem, when_state_at, when_state_id, Mirrors-at,
  Evolves-audit, Evolves-reply, with_action-holds,
}
use log_lookup_ai.Response.Soundness.Claiming.{FairClaim, claim-Fair}
use log_lookup_ai.Response.Soundness.Settling.{
  label_mirror, relabel_row, settle_from-Evolves, record_result-Evolves,
}

resolved_step : (outcome : String) → legal reconciliation_required (resolved_state outcome) ≡ true
unfolding legal resolved_state
resolved_step outcome = ground arith

resolved_mirror :
    (outcome : String) (now : ℕ) (o : Option OutboxRow)
    → Option.map OutboxRow.delivery_state o ≡ some "reconciliation_required"
    → Mirrors
        (resolved_state outcome)
        (Option.map OutboxRow.delivery_state (Option.map (resolved_outbox outcome now) o))
unfolding resolved_state
resolved_mirror outcome now none m = cc
resolved_mirror outcome now (some o) m = elim (Bool-cases (outcome == "delivered")) [
  | inl e ↦ rw e refl
  | inr e ↦ rw e refl
]

module _ (env : Env) where
  resolve_body-Evolves :
      (user outcome : String) (run : Option String) (note : String) (effect : Option String)
      (now : ℕ) (a : ResponseAction) (w : World)
      → Ensures (Evolves env w) (resolve_body env user outcome run note effect now a w)
  unfolding resolve_body
  resolve_body-Evolves user outcome run note effect now a w =
      Ensures-if (Evolves env w) (hits a.action_id reconciliation_required w) _ _
        (λ h.
          let (b, found, at) = hits_lem a.action_id reconciliation_required w h in
          let f = resolved_row env user outcome run note effect now a in
          Evolves-audit env now user "action.reconciled" a.action_id _ (
            Evolves-both env a.action_id (when_state reconciliation_required f)
              (resolved_outbox outcome now) w found
              (λ r. when_state_id reconciliation_required f r refl) (λ r. refl)
              (when_state_at reconciliation_required f b at)
              (Extends-move env (rw at (resolved_step outcome)) refl refl (λ _. rw at refl))
              (λ o m. resolved_mirror outcome now o (Mirrors-at _ at m))))
        (λ _. tt)

  pub resolve-Evolves :
      (user role id outcome : String) (run : Option String) (note : String) (effect : Option String)
      (now : ℕ) (w : World)
      → Evolves env w (resolve env user role id outcome run note effect now w).1
  unfolding resolve
  resolve-Evolves user role id outcome run note effect now w =
      let good = λ (r : Outcome ResponseAction × World). Evolves env w r.1 in
      let same = Evolves-refl env w in
      holds_if good (not (has_role role "responder")) _ _ (λ _. same)
        λ _.
          holds_if good (not (is_resolution outcome effect)) _ _ (λ _. same)
            λ _. with_action-holds (Evolves env w) (get env id w) w _ same λ a loaded.
              holds_if good (not (a.state == reconciliation_required)) _ _ (λ _. same)
                λ _.
                  Evolves-reply env id _ w
                    (resolve_body-Evolves user outcome run note effect now a w)

  settle_read-Evolves :
      (answer : Sent) (now : ℕ) (o : Option ResponseAction) (w : World)
      → Evolves env w (settle_read env answer now o w)
  unfolding settle_read
  settle_read-Evolves answer now none w = Evolves-refl env w
  settle_read-Evolves answer now (some a) w = record_result-Evolves env _ now a w

  pub dispatch-Evolves :
      (send : Transport) (now : ℕ) (a : ResponseAction) (o : OutboxRow) (wf : Outcome WorkflowDef)
      (w : World)
      → Evolves env w (dispatch env send now a o wf w).0
  unfolding dispatch settle_sent
  dispatch-Evolves send now a o (err e) w = Evolves-refl env w
  dispatch-Evolves send now a o (ok wf) w =
      settle_read-Evolves (send (record o.payload { requested_operation = some wf.operation })) now
        _ w

  after_claim-Evolves :
      (send : Transport) (now : ℕ) (w : World) (r : World × Option (ResponseAction × OutboxRow))
      → FairClaim env w r
      → Evolves env w (after_claim env send now r).0
  unfolding after_claim
  after_claim-Evolves send now w (w', none) f = f
  after_claim-Evolves send now w (w', some (a, o)) f =
      Evolves-trans env f.0 (dispatch-Evolves send now a o _ w')

  pub run_once-Evolves :
      (send : Transport) (now : ℕ) (w : World)
      → Unique OutboxRow.action_id w.outbox
      → Evolves env w (run_once env send now w).0
  unfolding run_once
  run_once-Evolves send now w u = after_claim-Evolves send now w _ (claim-Fair env now w u)

  repair_mirror :
      (s : ActionState) (label e : String) (now : ℕ) (o : Option OutboxRow)
      → outbox_for s ≡ some label
      → Mirrors s (Option.map OutboxRow.delivery_state o)
      → Mirrors s (Option.map OutboxRow.delivery_state (Option.map (relabel env now label e) o))
  unfolding outbox_for
  repair_mirror s label e now none h m = m
  repair_mirror acknowledged label e now (some o) h m = label_mirror acknowledged label refl h
  repair_mirror completed label e now (some o) h m = label_mirror completed label refl h
  repair_mirror failed_without_effect label e now (some o) h m =
      label_mirror failed_without_effect label refl h
  repair_mirror reconciliation_required label e now (some o) h m =
      label_mirror reconciliation_required label refl h
  repair_mirror expired label e now (some o) h m = inr (sym h)
  repair_mirror cancelled label e now (some o) h m = inr (sym h)
  repair_mirror rejected label e now (some o) h m = cc
  repair_mirror proposed label e now (some o) h m = cc
  repair_mirror approval_required label e now (some o) h m = cc
  repair_mirror approved label e now (some o) h m = cc
  repair_mirror queued label e now (some o) h m = cc
  repair_mirror dispatching label e now (some o) h m = cc

  -- A state with no label of its own, other than those two, has no outbox row.
  unlabelled_row :
      (s : ActionState) (d : Option String)
      → outbox_for s ≡ none
      → (s == queued) ≡ false
      → (s == dispatching) ≡ false
      → Mirrors s d
      → d ≡ none
  unfolding outbox_for
  unlabelled_row proposed d h q p m = m
  unlabelled_row approval_required d h q p m = m
  unlabelled_row approved d h q p m = m
  unlabelled_row queued d h q p m = cc
  unlabelled_row dispatching d h q p m = cc
  unlabelled_row acknowledged d h q p m = cc
  unlabelled_row completed d h q p m = cc
  unlabelled_row failed_without_effect d h q p m = cc
  unlabelled_row reconciliation_required d h q p m = cc
  unlabelled_row expired d h q p m = cc
  unlabelled_row cancelled d h q p m = cc
  unlabelled_row rejected d h q p m = cc

  no_row_kept :
      (now : ℕ) (label e : String) (s : ActionState) (o : Option OutboxRow)
      → (Mirrors s (Option.map OutboxRow.delivery_state o)
          → Option.map OutboxRow.delivery_state o ≡ none)
      → Mirrors s (Option.map OutboxRow.delivery_state o)
      → Mirrors s (Option.map OutboxRow.delivery_state (Option.map (relabel env now label e) o))
  no_row_kept now label e s none h m = m
  no_row_kept now label e s (some o) h m = cc (h m)

  repair-Evolves :
      (label : Option String) (now : ℕ) (o : OutboxRow) (a : ResponseAction) (w : World)
      → find_action o.action_id w ≡ some a
      → outbox_for a.state ≡ label
      → (a.state == queued) ≡ false
      → (a.state == dispatching) ≡ false
      → Evolves env w (repair env label now o a w).0
  unfolding repair finish set_state_in
  repair-Evolves (some label) now o a w found h q p =
      Evolves-audit env now "system" "outbox.repaired" o.action_id _ (
        Evolves-outbox env o.action_id (relabel env now label _) w (λ r. refl)
          λ b found' m.
            let same : some b ≡ some a = sym found' ∙ found in
            let at : b.state ≡ a.state = cc in
            Mirrors-at _ (sym at) (repair_mirror a.state label _ now _ h (Mirrors-at _ at m)))
  repair-Evolves none now o a w found h q p =
      Evolves-outbox env o.action_id (relabel env now "inconsistent" _) w (λ r. refl)
        λ b found' m.
          let same : some b ≡ some a = sym found' ∙ found in
          let at : b.state ≡ a.state = cc in
          Mirrors-at _ (sym at)
            (no_row_kept now _ _ a.state _ (unlabelled_row a.state _ h q p) (Mirrors-at _ at m))

  requeue-Evolves :
      (now : ℕ) (o : OutboxRow) (a : ResponseAction) (w : World)
      → find_action o.action_id w ≡ some a
      → a.state ≡ queued
      → Evolves env w (requeue env now o w)
  unfolding requeue finish
  requeue-Evolves now o a w found ready =
      holds_if (Evolves env w) (o.delivery_state == "dispatching") _ _
        (λ _.
          Evolves-outbox env o.action_id (relabel env now "queued" "") w (λ r. refl)
            λ b found' m.
              let same : some b ≡ some a = sym found' ∙ found in
              let at : b.state ≡ queued = cc in
              Mirrors-at _ (sym at) (relabel_row env now "queued" "" _ (Mirrors-at _ at m)))
        (λ _. Evolves-refl env w)

  recover_action-Evolves :
      (now : ℕ) (o : OutboxRow) (r : Option ResponseAction) (w : World)
      → find_action o.action_id w ≡ r
      → Evolves env w (recover_action env now o r w).0
  unfolding recover_action finish interrupted
  recover_action-Evolves now o none w e =
      Evolves-outbox env o.action_id _ w (λ r. refl) (λ a found m. cc)
  recover_action-Evolves now o (some a) w e =
      let good = λ (r : World × Bool). Evolves env w r.0 in
      holds_if good (a.state == queued) _ _
        (λ q. requeue-Evolves now o a w e (state_of_test a.state queued q))
        λ q.
          holds_if good (a.state == dispatching) _ _
            (λ _. settle_from-Evolves env reconciliation_required _ _ none none now a w refl)
            (λ p. repair-Evolves (outbox_for a.state) now o a w e refl q p)

  recover_rows-Evolves :
      (now : ℕ) (rows : List OutboxRow) (needs : ℕ) (w : World)
      → Evolves env w (recover_rows env now rows needs w).0
  unfolding recover_rows recover_row
  recover_rows-Evolves now [] needs w = Evolves-refl env w
  recover_rows-Evolves now (o ∷ rows) needs w =
      Evolves-trans env (recover_action-Evolves now o _ w refl) (recover_rows-Evolves now rows _ _)

  pub recover-Evolves : (now : ℕ) (w : World) → Evolves env w (recover env now w).0
  unfolding recover
  recover-Evolves now w = recover_rows-Evolves now (unsettled w) 0 w
