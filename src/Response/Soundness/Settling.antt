-- ===== src/Response/Soundness/Settling.antt =====
-- Settling a dispatch, reconciliation and the status check change the tables as they may.
use mathlib.Core.Option
use log_lookup_ai.Prelude.{
  ℕ, ◌≡◌, refl, sym, String, Bool, true, not, Option, none, some, arith, string_eq,
}
use log_lookup_ai.Response.Models.{
  ActionState, proposed, approval_required, approved, rejected, queued, expired, cancelled,
  dispatching, acknowledged, completed, failed_without_effect, reconciliation_required, legal,
  state_eq, ResponseAction, OutboxRow, World, DispatchResult, Verdict,
}
use log_lookup_ai.Response.Policy.{Env}
use log_lookup_ai.Response.Tables.{hits, when_state, relabel, set_state_in}
use log_lookup_ai.Response.Dispatcher.{
  outbox_for, settled_row, set_state, settle_as, settle_from, settled_state, record_result,
}
use log_lookup_ai.Response.Soundness.States.{is_released, is_claimed}
use log_lookup_ai.Response.Soundness.Change.{
  Mirrors, Extends-move, Evolves, Evolves-refl, Evolves-both,
}
use log_lookup_ai.Response.Soundness.Rules.{
  holds_if, hits_lem, when_state_at, when_state_id, Mirrors-at, Evolves-audit,
}

-- A claimed state has an outbox row.
claimed_row :
    (s : ActionState) (d : Option String)
    → is_claimed s ≡ true
    → Mirrors s d
    → (l : String) × (d ≡ some l)
claimed_row dispatching d c m = (_, m)
claimed_row acknowledged d c m = (_, m)
claimed_row completed d c m = (_, m)
claimed_row failed_without_effect d c m = (_, m)
claimed_row reconciliation_required d c m = (_, m)
claimed_row proposed d c m = cc
claimed_row approval_required d c m = cc
claimed_row approved d c m = cc
claimed_row rejected d c m = cc
claimed_row queued d c m = cc
claimed_row expired d c m = cc
claimed_row cancelled d c m = cc

pub label_mirror :
    (s : ActionState) (l : String)
    → is_claimed s ≡ true
    → outbox_for s ≡ some l
    → Mirrors s (some l)
unfolding outbox_for
label_mirror acknowledged l c h = sym h
label_mirror completed l c h = sym h
label_mirror failed_without_effect l c h = sym h
label_mirror reconciliation_required l c h = sym h
label_mirror dispatching l c h = cc
label_mirror proposed l c h = cc
label_mirror approval_required l c h = cc
label_mirror approved l c h = cc
label_mirror rejected l c h = cc
label_mirror queued l c h = cc
label_mirror expired l c h = cc
label_mirror cancelled l c h = cc

-- A state with an outbox label that follows a claim is reached only from a claimed state.
claimed_source :
    (s t : ActionState) (l : String)
    → legal s t ≡ true
    → is_claimed t ≡ true
    → outbox_for t ≡ some l
    → is_claimed s ≡ true
unfolding legal outbox_for
claimed_source s t l h c o = ground arith

claimed_released : (s : ActionState) → is_claimed s ≡ true → is_released s ≡ true
claimed_released s c = ground arith

module _ (env : Env) where
  pub relabel_row :
      (now : ℕ) (l e : String) (o : Option OutboxRow) {old : String}
      → Option.map OutboxRow.delivery_state o ≡ some old
      → Option.map OutboxRow.delivery_state (Option.map (relabel env now l e) o) ≡ some l
  relabel_row now l e none h = cc
  relabel_row now l e (some o) h = refl

  -- A compare-and-set with an action that may be out of date.
  settle_as-Evolves :
      (label : Option String) (new : ActionState) (by note : String) (run obs : Option String)
      (now : ℕ) (a : ResponseAction) (w : World)
      → is_claimed new ≡ true
      → legal a.state new ≡ true
      → outbox_for new ≡ label
      → Evolves env w (settle_as env label new by note run obs now a w).0
  unfolding settle_as set_state set_state_in
  settle_as-Evolves none new by note run obs now a w c step e = Evolves-refl env w
  settle_as-Evolves (some label) new by note run obs now a w c step e =
      holds_if (λ (r : World × Bool). Evolves env w r.0) (hits a.action_id a.state w) _ _
        (λ h.
          let (b, found, at) = hits_lem a.action_id a.state w h in
          let from = claimed_source a.state new label step c e in
          let f = settled_row new by note run obs now a in
          Evolves-audit env now by _ a.action_id _ (
            Evolves-both env a.action_id (when_state a.state f) (relabel env now label note) w found
              (λ r. when_state_id a.state f r refl) (λ r. refl) (when_state_at a.state f b at)
              (Extends-move env (rw at step) refl refl (λ _. rw at (claimed_released a.state from)))
              (λ o m.
                rw (relabel_row now label note o (claimed_row a.state _ from (Mirrors-at _ at m)).1)
                  (label_mirror new label c e))))
        (λ _. Evolves-refl env w)

  pub settle_from-Evolves :
      (new : ActionState) (by note : String) (run obs : Option String) (now : ℕ)
      (a : ResponseAction) (w : World)
      → is_claimed new ≡ true
      → Evolves env w (settle_from env new by note run obs now a w).0
  unfolding settle_from
  settle_from-Evolves new by note run obs now a w c =
      holds_if (λ (r : World × Bool). Evolves env w r.0) (not (legal a.state new)) _ _
        (λ _. Evolves-refl env w)
        (λ h. settle_as-Evolves (outbox_for new) new by note run obs now a w c (ground arith) refl)

  settled_claimed : (v : Verdict) → is_claimed (settled_state v) ≡ true
  unfolding settled_state
  settled_claimed v = ground arith

  pub record_result-Evolves :
      (r : DispatchResult) (now : ℕ) (a : ResponseAction) (w : World)
      → Evolves env w (record_result env r now a w)
  unfolding record_result
  record_result-Evolves r now a w =
      settle_from-Evolves (settled_state r.outcome) _ _ _ _ now a w (settled_claimed r.outcome)
