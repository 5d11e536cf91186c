-- ===== src/Response/Soundness/Closing.antt =====
-- `approve`, `reject` and `cancel` as a whole change the tables as they may.
use mathlib.Core.Option
use log_lookup_ai.Prelude.{
  ℕ, ◌≡◌, refl, ap, ◌∙◌, sym, inl, inr, String, false, not, ◌&&◌, ◌||◌, Option, none, some, [], ◌∷◌,
  arith, ◌==◌, string_eq, text_iff, Bool-cases,
}
use log_lookup_ai.Prelude.Outcome.{Outcome, ok}
use log_lookup_ai.Response.Models.{
  approval_required, approved, rejected, queued, cancelled, state_eq, text, ResponseAction,
  OutboxRow, World,
}
use log_lookup_ai.Response.Policy.{Env, get_workflow, has_role}
use log_lookup_ai.Response.Tables.{find_action, set_action}
use log_lookup_ai.Response.Approvals.{get, move, save}
use log_lookup_ai.Response.Decisions.{
  has_approved, is_due, is_stale, stale_note, stale_detail, approve_with, enough, grant,
  approve_body, approve, reject_body, reject, withdrawn, withdraw, cancel_body, cancel,
}
use log_lookup_ai.Response.Soundness.States.{is_released}
use log_lookup_ai.Response.Soundness.Change.{
  Mirrors, Extends, Extends-move, Evolves, Evolves-refl, Evolves-action, Evolves-both,
}
use log_lookup_ai.Response.Soundness.Rules.{
  Ensures, Ensures-bind, Ensures-if, holds_if, get_lem, found_self, move_lem, state_of_test,
  Mirrors-at, Evolves-audit, Evolves-reply, with_action-holds,
}
use log_lookup_ai.Response.Soundness.Deciding.{expire-Evolves, endorse-Evolves, release-Evolves}

module _ (env : Env) where
  grant-Evolves :
      (user rationale : String) (now : ℕ) (a : ResponseAction) (w : World)
      → find_action a.action_id w ≡ some a
      → a.state ≡ approval_required
      → Ensures (Evolves env w) (grant env user rationale now a w)
  unfolding grant
  grant-Evolves user rationale now a w found pending =
      let good = Evolves env w in
      Ensures-bind good (get_workflow env a.workflow_id) _ λ wf known.
        Ensures-if good (wf.separation_of_duties && user == a.requested_by) _ _ (λ _. tt)
          λ sep.
            Ensures-if good (has_approved user a.approvals) _ _ (λ _. tt)
              λ fresh.
                Ensures-if good (enough (approve_with user rationale now a)) _ _
                  (λ done.
                    release-Evolves env user rationale now a w wf found pending known sep fresh
                      done)
                  (λ _. endorse-Evolves env user rationale now a w wf found pending known sep fresh)

  pending_of_test :
      (a : ResponseAction)
      → not (a.state == approval_required) ≡ false
      → a.state ≡ approval_required
  pending_of_test a h = state_of_test a.state approval_required (ground arith)

  approve_body-Evolves :
      (user id rationale : String) (now : ℕ) (w : World)
      → Ensures (Evolves env w) (approve_body env user id rationale now w)
  unfolding approve_body
  approve_body-Evolves user id rationale now w =
      let good = Evolves env w in
      Ensures-bind good (get env id w) _ λ a loaded.
        let found = found_self id w (get_lem env id w loaded) in
        Ensures-if good (not (a.state == approval_required)) _ _ (λ _. tt)
          λ still.
            let pending = pending_of_test a still in
            Ensures-if good (is_due now a) _ _
              (λ _.
                expire-Evolves env "action.expired" "time-to-live elapsed" [] now a w found pending)
              λ _.
                Ensures-if good (is_stale w a) _ _
                  (λ _.
                    expire-Evolves env "action.superseded" (stale_note env w a) (stale_detail w a)
                      now a w found pending)
                  (λ _. grant-Evolves user rationale now a w found pending)

  pub approve-Evolves :
      (user role id rationale : String) (now : ℕ) (w : World)
      → Evolves env w (approve env user role id rationale now w).1
  unfolding approve
  approve-Evolves user role id rationale now w =
      holds_if (λ (r : Outcome ResponseAction × World). Evolves env w r.1)
        (not (has_role role "responder")) _ _ (λ _. Evolves-refl env w)
        (λ _. Evolves-reply env id _ w (approve_body-Evolves user id rationale now w))

  reject_body-Evolves :
      (user id rationale : String) (now : ℕ) (w : World)
      → Ensures (Evolves env w) (reject_body env user id rationale now w)
  unfolding reject_body
  reject_body-Evolves user id rationale now w =
      let good = Evolves env w in
      Ensures-bind good (get env id w) _ λ a loaded.
        Ensures-if good (not (a.state == approval_required)) _ _ (λ _. tt)
          λ still.
            let pending = pending_of_test a still in
            Ensures-bind good (move rejected user _ now a) _ λ b moved.
              let (step, at, kept) = move_lem rejected user _ now a moved in
              Evolves-audit env now user "action.rejected" id (("rationale", text rationale) ∷ []) (
                Evolves-action env id _ w (get_lem env id w loaded) (λ r. refl) refl
                  (Extends-move env step refl refl (λ h. cc (sym h ∙ ap is_released at)))
                  (λ d m. Mirrors-at d (sym at) (Mirrors-at d pending m)))

  pub reject-Evolves :
      (user role id rationale : String) (now : ℕ) (w : World)
      → Evolves env w (reject env user role id rationale now w).1
  unfolding reject
  reject-Evolves user role id rationale now w =
      holds_if (λ (r : Outcome ResponseAction × World). Evolves env w r.1)
        (not (has_role role "responder")) _ _ (λ _. Evolves-refl env w)
        (λ _. Evolves-reply env id _ w (reject_body-Evolves user id rationale now w))

  withdrawn_label :
      (now : ℕ) (o : Option OutboxRow)
      → Option.map OutboxRow.delivery_state o ≡ some "queued"
      → Option.map OutboxRow.delivery_state (Option.map (withdrawn now) o) ≡ some "cancelled"
  withdrawn_label now none h = cc
  withdrawn_label now (some o) h = ground (arith, text_iff o.delivery_state "queued")

  -- The states from which an action is cancelled have no outbox row, but for `queued`.
  no_row :
      (a : ResponseAction) (d : Option String)
      → not (a.state == approval_required || a.state == approved || a.state == queued) ≡ false
      → (a.state == queued) ≡ false
      → Mirrors a.state d
      → d ≡ none
  no_row a d still other m = elim (Bool-cases (a.state == approval_required)) [
    | inl p ↦ Mirrors-at d (state_of_test a.state approval_required p) m
    | inr n ↦ Mirrors-at d (state_of_test a.state approved (ground arith)) m
  ]

  withdraw-Evolves :
      (user id : String) (now : ℕ) (w : World) (a b : ResponseAction)
      → find_action id w ≡ some a
      → not (a.state == approval_required || a.state == approved || a.state == queued) ≡ false
      → move cancelled user "cancelled" now a ≡ ok b
      → Evolves env w (set_action id (save now b) (withdraw now id a w))
  unfolding withdraw
  withdraw-Evolves user id now w a b found still moved =
      let (step, at, kept) = move_lem cancelled user _ now a moved in
      let ext : Extends env a (save now b a) =
        Extends-move env step refl refl (λ h. cc (sym h ∙ ap is_released at)) in
      elim (Bool-cases (a.state == queued)) [
        | inl q ↦ rw q (
            Evolves-both env id (save now b) (withdrawn now) w found (λ r. refl) (λ o. ground arith)
              refl ext
              (λ o m.
                Mirrors-at _ (sym at)
                  (inr (withdrawn_label now o (Mirrors-at _ (state_of_test a.state queued q) m)))))
        | inr n ↦ rw n (
            Evolves-action env id (save now b) w found (λ r. refl) refl ext
              (λ d m. Mirrors-at d (sym at) (inl (no_row a d still n m))))
      ]

  cancel_body-Evolves :
      (user id : String) (now : ℕ) (w : World)
      → Ensures (Evolves env w) (cancel_body env user id now w)
  unfolding cancel_body
  cancel_body-Evolves user id now w =
      let good = Evolves env w in
      Ensures-bind good (get env id w) _ λ a loaded.
        Ensures-if good
          (not (a.state == approval_required || a.state == approved || a.state == queued)) _ _
          (λ _. tt)
          λ still. Ensures-bind good (move cancelled user _ now a) _ λ b moved.
            Evolves-audit env now user "action.cancelled" id []
              (withdraw-Evolves user id now w a b (get_lem env id w loaded) still moved)

  pub cancel-Evolves :
      (user role id : String) (now : ℕ) (w : World)
      → Evolves env w (cancel env user role id now w).1
  unfolding cancel
  cancel-Evolves user role id now w =
      with_action-holds (Evolves env w) (get env id w) w _ (Evolves-refl env w) λ a loaded.
        holds_if (λ (r : Outcome ResponseAction × World). Evolves env w r.1)
          (not (user == a.requested_by) && not (has_role role "responder")) _ _
          (λ _. Evolves-refl env w)
          (λ _. Evolves-reply env id _ w (cancel_body-Evolves user id now w))
