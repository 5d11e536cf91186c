-- ===== src/Response/Delivery.antt =====
-- engine/response/dispatcher.py: `run_once` and `recover`; engine/response/reconcile.py; and `check`
-- of engine/response/run_status.py. The transport and Azure's answer are arguments.
use log_lookup_ai.Prelude.{
  ℕ, suc, String, Bool, true, false, not, ◌&&◌, ◌||◌, Option, none, some, List, [], ◌∷◌, ◌==◌,
  string_eq, if◌then◌else◌,
}
use log_lookup_ai.Prelude.Outcome.{Outcome, ok, err, forbidden, conflict}
use log_lookup_ai.Response.Models.{
  ActionState, queued, dispatching, acknowledged, failed_without_effect, reconciliation_required,
  state_eq, text, ResponseAction, Contract, OutboxRow, World, unknown, DispatchResult,
}
use log_lookup_ai.Response.Policy.{Env, WorkflowDef, get_workflow, has_role}
use log_lookup_ai.Response.Audit
use log_lookup_ai.Response.Tables.{
  transaction, find_action, set_action, hits, when_state, coalesce, set_outbox, set_state_in,
  finish, unsettled,
}
use log_lookup_ai.Response.Approvals.{get, reply, with_action}
use log_lookup_ai.Response.Dispatcher.{
  outbox_for, state_name, text?, logged, claim, settle_from, record_result,
}

-- What `send` does: it returns a verdict, or raises an exception of the class named.
pub data Sent : Type 0 where
  returned : DispatchResult → Sent
  raised : String → Sent

abbrev pub Transport : Type 0
Transport = Contract → Sent

-- The verdict that is recorded: an exception counts as unknown.
unfoldable pub verdict_of : Sent → DispatchResult
verdict_of (returned r) = r
verdict_of (raised name) = record {
  outcome = unknown;
  run_id = none;
  detail = name;
  http_status = none;
}

-- Reconciler.resolve: the state that an outcome leads to, and the outbox label.
unfoldable pub resolved_state : String → ActionState
resolved_state outcome = if outcome == "delivered" then acknowledged else failed_without_effect

unfoldable pub effect_label : String → Option String
effect_label s =
    if s == "confirmed"
    then some "confirmed_effect"
    else if s == "absent"
    then some "confirmed_no_effect"
    else none

-- Whether the request is well-formed.
unfoldable pub is_resolution : String → Option String → Bool
unfolding effect_label
is_resolution outcome effect =
    (outcome == "delivered" || outcome == "not_delivered")
    && elim effect [ none ↦ true | some s ↦ elim (effect_label s) [ none ↦ false | some _ ↦ true ] ]

-- The second UPDATE of `resolve`, where an effect is given.
unfoldable pub noted_effect : Option String → String → String
unfolding effect_label
noted_effect none old = old
noted_effect (some s) old = elim (effect_label s) [ none ↦ old | some label ↦ label ]

abbrev pub resolved_outbox : String → ℕ → OutboxRow → OutboxRow
resolved_outbox outcome now o = record o {
  delivery_state = if outcome == "delivered" then "delivered" else "failed";
  updated_at = now;
}

module _ (env : Env) where
  -- After the send: the action is read again, and the verdict recorded.
  unfoldable pub settle_read : Sent → ℕ → Option ResponseAction → World → World
  unfolding verdict_of
  settle_read answer now none w = w
  settle_read answer now (some a) w = record_result env (verdict_of answer) now a w

  unfoldable pub settle_sent : Sent → ℕ → String → World → World
  unfolding settle_read
  settle_sent answer now id w = settle_read answer now (find_action id w) w

  -- `run_once` with a claimed item: the contract is sent if the workflow is still allowed.
  unfoldable pub dispatch :
      Transport
      → ℕ
      → ResponseAction
      → OutboxRow
      → Outcome WorkflowDef
      → World
      → World × Option Contract
  dispatch send now a o (err e) w = (w, none)
  dispatch send now a o (ok wf) w =
      let c = record o.payload { requested_operation = some wf.operation } in
      (settle_sent (send c) now a.action_id w, some c)

  unfoldable pub after_claim :
      Transport → ℕ → World × Option (ResponseAction × OutboxRow) → World × Option Contract
  unfolding dispatch
  after_claim send now (w, none) = (w, none)
  after_claim send now (w, some (a, o)) = dispatch send now a o (get_workflow env a.workflow_id) w

  -- Dispatcher.run_once: the world after it and the contract that was sent, if one was.
  unfoldable pub run_once : Transport → ℕ → World → World × Option Contract
  unfolding after_claim
  run_once send now w = after_claim send now (claim env now w)

  -- `recover` at a state that is neither queued nor dispatching.
  unfoldable pub repair : Option String → ℕ → OutboxRow → ResponseAction → World → World × Bool
  repair (some label) now o a w = (
    Audit.append env now "system" "outbox.repaired" o.action_id
        (("action_state", text (state_name a.state)) ∷ ("outbox", text label) ∷ [])
        (set_state_in env now o.action_id label
          (env.render
            (text "repaired after restart (action " ∷ text (state_name a.state) ∷ text ")" ∷ []))
          none w),
    false,
  )
  repair none now o a w = (
    finish env now o.action_id "inconsistent"
        (env.render
          (text "action is " ∷ text (state_name a.state) ∷ text "; not dispatchable" ∷ []))
        w,
    true,
  )

  -- `recover` at an action that was being sent: its delivery is unknown.
  unfoldable pub interrupted : ℕ → ResponseAction → World → World
  interrupted now a w =
      (settle_from env reconciliation_required "system"
        "process stopped during dispatch; delivery unknown" none none now a w).0

  -- `recover` at a queued action: nothing was sent.
  unfoldable pub requeue : ℕ → OutboxRow → World → World
  requeue now o w =
      if o.delivery_state == "dispatching" then finish env now o.action_id "queued" "" w else w

  -- One round of the loop of `recover`: the new world, and whether an operator is needed.
  unfoldable pub recover_action : ℕ → OutboxRow → Option ResponseAction → World → World × Bool
  unfolding repair interrupted requeue
  recover_action now o none w =
      (finish env now o.action_id "inconsistent" "no matching action" w, true)
  recover_action now o (some a) w =
      if a.state == queued
      then (requeue now o w, false)
      else if a.state == dispatching
      then (interrupted now a w, true)
      else repair (outbox_for a.state) now o a w

  unfoldable pub recover_row : ℕ → OutboxRow → World → World × Bool
  unfolding recover_action
  recover_row now o w = recover_action now o (find_action o.action_id w) w

  unfoldable pub recover_rows : ℕ → List OutboxRow → ℕ → World → World × ℕ
  recover_rows now [] needs w = (w, needs)
  recover_rows now (o ∷ os) needs w =
      let (w', operator) = recover_row now o w in
      recover_rows now os (if operator then suc needs else needs) w'

  -- Dispatcher.recover
  unfoldable pub recover : ℕ → World → World × ℕ
  recover now w = recover_rows now (unsettled w) 0 w

  abbrev pub resolved_row :
      String
      → String
      → Option String
      → String
      → Option String
      → ℕ
      → ResponseAction
      → ResponseAction
      → ResponseAction
  resolved_row user outcome run_id note effect now a row = record row {
    state = resolved_state outcome;
    transition_log =
        logged a now user a.state (resolved_state outcome) (
          env.strip (env.render (text "reconciled: " ∷ text outcome ∷ text ". " ∷ text note ∷ [])));
    provider_run_id = coalesce run_id row.provider_run_id;
    last_remote_observation =
        some (env.render (text "reconciled by " ∷ text user ∷ text ": " ∷ text outcome ∷ []));
    updated_at = now;
    downstream_effect = noted_effect effect row.downstream_effect;
  }

  -- The transaction of `resolve`; `a` is the action as it was read before.
  unfoldable pub resolve_body :
      String
      → String
      → Option String
      → String
      → Option String
      → ℕ
      → ResponseAction
      → World
      → Outcome (Bool × World)
  unfolding resolved_state noted_effect
  resolve_body user outcome run_id note effect now a w =
      if hits a.action_id reconciliation_required w
      then ok (
        false,
        Audit.append env now user "action.reconciled" a.action_id
            (("outcome", text outcome)
              ∷ ("run_id", text? run_id)
              ∷ ("note", text note)
              ∷ ("downstream_effect", text? effect)
              ∷ [])
            (set_outbox a.action_id (resolved_outbox outcome now) (
              set_action a.action_id
                (when_state reconciliation_required
                  (resolved_row user outcome run_id note effect now a))
                w)),
      )
      else err conflict

  -- Reconciler.resolve
  unfoldable pub resolve :
      String
      → String
      → String
      → String
      → Option String
      → String
      → Option String
      → ℕ
      → World
      → Outcome ResponseAction × World
  resolve user role id outcome run_id note effect now w =
      if not (has_role role "responder")
      then (err forbidden, w)
      else if not (is_resolution outcome effect)
      then (err conflict, w)
      else with_action (get env id w) w λ a.
        if not (a.state == reconciliation_required)
        then (err conflict, w)
        else reply env id (transaction (resolve_body user outcome run_id note effect now a) w)
