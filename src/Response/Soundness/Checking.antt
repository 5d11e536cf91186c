-- ===== src/Response/Soundness/Checking.antt =====
-- The status check changes the tables as it may.
use mathlib.Core.Option
use log_lookup_ai.Prelude.{
  ℕ, ◌≡◌, refl, ◌⊎◌, inl, inr, String, true, not, ◌&&◌, ◌||◌, Option, none, some, arith, ◌==◌,
  string_eq,
}
use log_lookup_ai.Prelude.Outcome.{Outcome}
use log_lookup_ai.Response.Models.{
  completed, acknowledged, reconciliation_required, legal, state_eq, ResponseAction, OutboxRow,
  World, RunLookup,
}
use log_lookup_ai.Response.Policy.{Env, has_role}
use log_lookup_ai.Response.Tables.{set_action, hits, when_state}
use log_lookup_ai.Response.Approvals.{get}
use log_lookup_ai.Response.RunStatus.{
  Azure, proves_delivery, observe, acknowledged_row, delivered_outbox, acknowledge, check_body,
  check_found, check_sent, check,
}
use log_lookup_ai.Response.Soundness.Change.{
  Extends-move, Extends-still, Evolves, Evolves-refl, Evolves-trans, Evolves-action, Evolves-both,
}
use log_lookup_ai.Response.Soundness.Rules.{
  Ensures, Ensures-bind, holds_if, get_lem, hits_lem, when_state_at, when_state_id, Mirrors-at,
  Evolves-audit, Evolves-reply, with_action-holds,
}

delivered_row :
    (now : ℕ) (o : Option OutboxRow)
    → Option.map OutboxRow.delivery_state o ≡ some "reconciliation_required"
    → Option.map OutboxRow.delivery_state (Option.map (delivered_outbox now) o) ≡ some "delivered"
delivered_row now none m = cc
delivered_row now (some o) m = refl

module _ (env : Env) where
  acknowledge-Evolves :
      (now : ℕ) (fresh : ResponseAction) (l : RunLookup) (w : World)
      → hits fresh.action_id reconciliation_required w ≡ true
      → Evolves env w (acknowledge env now fresh l w)
  unfolding acknowledge
  acknowledge-Evolves now fresh l w h =
      let (b, found, at) = hits_lem fresh.action_id reconciliation_required w h in
      let f = acknowledged_row env fresh l now in
      Evolves-both env fresh.action_id (when_state reconciliation_required f) (delivered_outbox now)
        w found (λ r. when_state_id reconciliation_required f r refl) (λ r. refl)
        (when_state_at reconciliation_required f b at)
        (Extends-move env (rw at (unfold legal in refl)) refl refl (λ _. rw at refl))
        (λ o m. delivered_row now o (Mirrors-at _ at m))

  check_body-Evolves :
      (user id : String) (l : RunLookup) (now : ℕ) (w : World)
      → Ensures (Evolves env w) (check_body env user id l now w)
  unfolding check_body
  check_body-Evolves user id l now w = Ensures-bind (Evolves env w) (get env id w) _ λ fresh loaded.
      let w' = set_action id (observe now l) w in
      let seen : Evolves env w w' =
        Evolves-action env id (observe now l) w (get_lem env id w loaded) (λ r. refl) refl
          (Extends-still env refl refl refl) (λ d m. m) in
      Evolves-audit env now user "action.remote_status_checked" id _ (
        holds_if (Evolves env w)
          (fresh.state == reconciliation_required
            && proves_delivery l
            && hits fresh.action_id reconciliation_required w')
          _ _ (λ h. Evolves-trans env seen (acknowledge-Evolves now fresh l w' (ground arith)))
          (λ _. seen))

  check_found-Evolves :
      (user id : String) (now : ℕ) (r : String ⊎ RunLookup) (w : World)
      → Evolves env w (check_found env user id now r w).1
  unfolding check_found
  check_found-Evolves user id now (inl code) w =
      Evolves-audit env now user "action.remote_status_failed" id _ (Evolves-refl env w)
  check_found-Evolves user id now (inr l) w =
      Evolves-reply env id _ w (check_body-Evolves user id l now w)

  check_sent-Evolves :
      (user id : String) (az : Option Azure) (now : ℕ) (a : ResponseAction) (w : World)
      → Evolves env w (check_sent env user id az now a w).1
  unfolding check_sent
  check_sent-Evolves user id none now a w = Evolves-refl env w
  check_sent-Evolves user id (some az) now a w = check_found-Evolves user id now _ w

  pub check-Evolves :
      (user role id : String) (az : Option Azure) (now : ℕ) (w : World)
      → Evolves env w (check env user role id az now w).1
  unfolding check
  check-Evolves user role id az now w =
      let good = λ (r : Outcome ResponseAction × World). Evolves env w r.1 in
      let same = Evolves-refl env w in
      holds_if good (not (has_role role "responder")) _ _ (λ _. same)
        λ _. with_action-holds (Evolves env w) (get env id w) w _ same λ a loaded.
          holds_if good
            (not (
              a.state == acknowledged
              || a.state == completed
              || a.state == reconciliation_required))
            _ _ (λ _. same) (λ _. check_sent-Evolves user id az now a w)
