-- ===== src/Response/Dispatcher.antt =====
-- engine/response/dispatcher.py: claiming, sending and settling approved actions; recovery.
use log_lookup_ai.Prelude.{
  ℕ, zero, suc, ◌+◌, String, Bool, true, false, not, Option, none, some, List, [], ◌∷◌, ◌++◌, ◌==◌,
  string_eq, nat_eq, if◌then◌else◌, count,
}
use log_lookup_ai.Response.Models.{
  ActionState, approval_required, approved, rejected, queued, expired, cancelled, dispatching,
  acknowledged, completed, proposed, failed_without_effect, reconciliation_required, state_eq,
  legal, num, text, null, Json, Transition, ResponseAction, OutboxRow, World, Verdict, accepted,
  refused, unknown, DispatchResult,
}
use log_lookup_ai.Response.Policy.{Env}
use log_lookup_ai.Response.Audit
use log_lookup_ai.Response.Tables.{
  find_action, set_action, hits, when_state, coalesce, set_outbox, set_state_in, next_queued,
  is_queued, current_revision,
}
use log_lookup_ai.Response.Decisions.{is_due}

-- Dispatcher._OUTBOX_FOR.get(state)
unfoldable pub outbox_for : ActionState → Option String
outbox_for acknowledged = some "delivered"
outbox_for completed = some "delivered"
outbox_for failed_without_effect = some "failed"
outbox_for reconciliation_required = some "reconciliation_required"
outbox_for expired = some "expired"
outbox_for cancelled = some "cancelled"
outbox_for rejected = some "cancelled"
outbox_for _ = none

-- The text of a state in the database.
unfoldable pub state_name : ActionState → String
state_name proposed = "proposed"
state_name approval_required = "approval_required"
state_name approved = "approved"
state_name rejected = "rejected"
state_name queued = "queued"
state_name dispatching = "dispatching"
state_name acknowledged = "acknowledged"
state_name completed = "completed"
state_name expired = "expired"
state_name failed_without_effect = "failed_without_effect"
state_name reconciliation_required = "reconciliation_required"
state_name cancelled = "cancelled"

-- A JSON null, or the text.
abbrev pub text? : Option String → Json
text? none = null
text? (some s) = text s

-- The transition log with one more entry.
abbrev pub logged :
    ResponseAction → ℕ → String → ActionState → ActionState → String → List Transition
logged a now by old new note =
    a.transition_log
    ++ (record { at = now; by = by; source = some old; target = new; note = note }) ∷ []

-- What `_claim` writes to an action that it expires.
abbrev pub expired_row : ℕ → String → ResponseAction → ResponseAction → ResponseAction
expired_row now why a row = record row {
  state = expired;
  transition_log = logged a now "system" queued expired why;
  updated_at = now;
}

-- The action that `_claim` takes, and what it writes to the two rows.
abbrev pub sending : ℕ → ResponseAction → ResponseAction
sending now a = record a {
  state = dispatching;
  transition_log = logged a now "system" queued dispatching "sending";
}

abbrev pub sending_row : ℕ → ResponseAction → ResponseAction → ResponseAction
sending_row now a row = record row {
  state = dispatching;
  transition_log = (sending now a).transition_log;
  updated_at = now;
}

abbrev pub attempted : ℕ → OutboxRow → OutboxRow
attempted now row = record row {
  delivery_state = "dispatching";
  attempts = row.attempts + 1;
  updated_at = now;
}

-- One round of the loop of `_claim`: nothing is queued, the row was dealt with, or it is taken.
pub data Round : Type 0 where
  idle : Round
  skip : World → Round
  took : World → ResponseAction → OutboxRow → Round

-- The UPDATE of `_set_state`, which applies only in the expected state.
abbrev pub settled_row :
    ActionState
    → String
    → String
    → Option String
    → Option String
    → ℕ
    → ResponseAction
    → ResponseAction
    → ResponseAction
settled_row new by note run_id observation now a row = record row {
  state = new;
  transition_log = logged a now by a.state new note;
  provider_run_id = coalesce run_id row.provider_run_id;
  last_remote_observation = coalesce observation row.last_remote_observation;
  updated_at = now;
}

abbrev pub settle_row :
    ActionState
    → String
    → String
    → Option String
    → Option String
    → ℕ
    → ResponseAction
    → ResponseAction
    → ResponseAction
settle_row new by note run_id observation now a =
    when_state a.state (settled_row new by note run_id observation now a)

unfoldable pub settled_state : Verdict → ActionState
settled_state accepted = acknowledged
settled_state refused = failed_without_effect
settled_state unknown = reconciliation_required

unfoldable pub verdict_name : Verdict → String
verdict_name accepted = "accepted"
verdict_name refused = "rejected"
verdict_name unknown = "unknown"

abbrev http_text : Option ℕ → Json
http_text none = text "None"
http_text (some code) = num code

-- What follows a round; `go` is the next one.
unfoldable pub after_round :
    Round
    → World
    → (World → World × Option (ResponseAction × OutboxRow))
    → World × Option (ResponseAction × OutboxRow)
after_round idle w go = (w, none)
after_round (skip w') w go = go w'
after_round (took w' a o) w go = (w', some (a, o))

module _ (env : Env) where
  -- Why a queued action is not sent, if it is not.
  unfoldable pub obstacle : ℕ → World → ResponseAction → Option String
  obstacle now w a =
      if is_due now a
      then some "expired before dispatch"
      else elim (current_revision w a.cluster_id) [
        | none ↦ none
        | some latest ↦
            if latest == a.revision
            then none
            else some (
                env.render (
                  text "investigation moved from revision "
                  ∷ num a.revision
                  ∷ text " to "
                  ∷ num latest
                  ∷ text " before dispatch"
                  ∷ []))
      ]

  unfoldable pub expire_queued : ℕ → String → ResponseAction → World → World
  expire_queued now why a w =
      Audit.append env now "system" "action.expired" a.action_id (("note", text why) ∷ []) (
        set_state_in env now a.action_id "expired" why (some "queued")
          (set_action a.action_id (when_state queued (expired_row now why a)) w))

  -- The last part of a round: the compare-and-set on the action, and the outbox row.
  unfoldable pub take : ℕ → ResponseAction → OutboxRow → World → Round
  take now a o w =
      if hits a.action_id queued w
      then took
          (Audit.append env now "system" "action.dispatching" a.action_id
            (("note", text "sending") ∷ [])
            (set_outbox a.action_id (attempted now)
              (set_action a.action_id (when_state queued (sending_row now a)) w)))
          (sending now a) o
      else skip w

  -- The queued outbox row `o`, and its action if there is one.
  unfoldable pub consider_queued : ℕ → OutboxRow → ResponseAction → Option String → World → Round
  unfolding expire_queued take
  consider_queued now o a (some why) w = skip (expire_queued now why a w)
  consider_queued now o a none w = take now a o w

  -- Nothing to send: the row is taken out of the queue.
  unfoldable pub drop_row : ℕ → OutboxRow → World → World
  drop_row now o w =
      set_state_in env now o.action_id "cancelled" "no longer queued at dispatch time"
        (some "queued") w

  unfoldable pub consider : ℕ → OutboxRow → Option ResponseAction → World → Round
  unfolding obstacle consider_queued drop_row
  consider now o none w = skip (drop_row now o w)
  consider now o (some a) w =
      if not (a.state == queued)
      then skip (drop_row now o w)
      else consider_queued now o a (obstacle now w a) w

  unfoldable pub round_for : ℕ → Option OutboxRow → World → Round
  unfolding consider
  round_for now none w = idle
  round_for now (some o) w = consider now o (find_action o.action_id w) w

  unfoldable pub claim_round : ℕ → World → Round
  unfolding round_for
  claim_round now w = round_for now (next_queued w.outbox) w

  -- The `while True` of `_claim`, on fuel.
  unfoldable pub claim_within : ℕ → ℕ → World → World × Option (ResponseAction × OutboxRow)
  unfolding after_round
  claim_within zero now w = (w, none)
  claim_within (suc fuel) now w = after_round (claim_round now w) w (claim_within fuel now)

  -- Dispatcher._claim: one round for each queued row, and one to see that none is left.
  unfoldable pub claim : ℕ → World → World × Option (ResponseAction × OutboxRow)
  claim now w = claim_within (suc (count is_queued w.outbox)) now w

  -- Dispatcher._set_state with `expect` and `outbox_state` given.
  unfoldable pub set_state :
      ActionState
      → String
      → String
      → String
      → Option String
      → Option String
      → ℕ
      → ResponseAction
      → World
      → World × Bool
  set_state new label by note run_id observation now a w =
      if hits a.action_id a.state w
      then (
        Audit.append env now by (env.render (text "action." ∷ text (state_name new) ∷ []))
            a.action_id (("note", text note) ∷ ("run_id", text? run_id) ∷ [])
            (set_state_in env now a.action_id label note none
              (set_action a.action_id (settle_row new by note run_id observation now a) w)),
        true,
      )
      else (w, false)

  -- The compare-and-set with the label of `_OUTBOX_FOR`; the states it is called with have one.
  unfoldable pub settle_as :
      Option String
      → ActionState
      → String
      → String
      → Option String
      → Option String
      → ℕ
      → ResponseAction
      → World
      → World × Bool
  settle_as none new by note run_id observation now a w = (w, false)
  settle_as (some label) new by note run_id observation now a w =
      set_state new label by note run_id observation now a w

  -- Dispatcher._settle_from; `a` is the action as it was read, before the transaction.
  unfoldable pub settle_from :
      ActionState
      → String
      → String
      → Option String
      → Option String
      → ℕ
      → ResponseAction
      → World
      → World × Bool
  unfolding legal settle_as
  settle_from new by note run_id observation now a w =
      if not (legal a.state new)
      then (w, false)
      else settle_as (outbox_for new) new by note run_id observation now a w

  -- Dispatcher._record_result, after the read of the action.
  unfoldable pub record_result : DispatchResult → ℕ → ResponseAction → World → World
  unfolding settled_state verdict_name
  record_result r now a w =
      (settle_from (settled_state r.outcome) "system"
        (if r.detail == "" then verdict_name r.outcome else r.detail) r.run_id
        (some (
          env.clip
            (env.render (text "http=" ∷ http_text r.http_status ∷ text " " ∷ text r.detail ∷ []))))
        now a w).0
