-- ===== src/Response/Soundness/Once.antt =====
-- What holds of every trace of the response layer.
use log_lookup_ai.Prelude.Table.{Unique}
use log_lookup_ai.Prelude.{ℕ, String, Option, none, some, List, [], ◌∷◌, string_eq}
use log_lookup_ai.Response.Models.{ResponseAction, OutboxRow, Investigation, World}
use log_lookup_ai.Response.Policy.{Env, Submitted}
use log_lookup_ai.Response.Approvals.{propose}
use log_lookup_ai.Response.Trace.{
  Op, propose_op, approve_op, reject_op, cancel_op, claim_op, record_op, run_once_op, recover_op,
  resolve_op, check_op, investigate_op, step, run,
}
use log_lookup_ai.Response.Soundness.Change.{Evolves, Evolves-refl}
use log_lookup_ai.Response.Soundness.Closing.{approve-Evolves, reject-Evolves, cancel-Evolves}
use log_lookup_ai.Response.Soundness.Claiming.{FairClaim, claim-Fair}
use log_lookup_ai.Response.Soundness.Settling.{record_result-Evolves}
use log_lookup_ai.Response.Soundness.Recovering.{run_once-Evolves, recover-Evolves, resolve-Evolves}
use log_lookup_ai.Response.Soundness.Checking.{check-Evolves}
use log_lookup_ai.Response.Soundness.Invariant.{IsSound, Evolves-IsSound, propose-IsSound}

module _ (env : Env) where
  claim_world :
      (w : World) (r : World × Option (ResponseAction × OutboxRow))
      → FairClaim env w r
      → Evolves env w r.0
  claim_world w (w', none) f = f
  claim_world w (w', some (a, o)) f = f.0

  investigate-Evolves :
      (rows : List Investigation) (w : World) → Evolves env w (record w { investigations = rows })
  investigate-Evolves rows w =
      let e = Evolves-refl env w in record { at_id = e.at_id; unique = e.unique }

  -- What holds after an operation: a proposal, or a change of the actions that are there.
  pub step-holds {κ} :
      (P : World → Type κ) (op : Op) (w : World)
      → Unique OutboxRow.action_id w.outbox
      → ((w' : World) → Evolves env w w' → P w')
      → ((user role id cluster : String) (revision : ℕ) (workflow : String)
            (payload : List (String × Submitted)) (evidence : List String) (rationale : String)
            (now : ℕ)
          → P
              (propose env user role id cluster revision workflow payload evidence rationale now
                w).1)
      → P (step env op w).0
  unfolding step
  step-holds P (propose_op u r i c v f p e x n) w s k h = h u r i c v f p e x n
  step-holds P (approve_op u r i x n) w s k h = k _ (approve-Evolves env u r i x n w)
  step-holds P (reject_op u r i x n) w s k h = k _ (reject-Evolves env u r i x n w)
  step-holds P (cancel_op u r i n) w s k h = k _ (cancel-Evolves env u r i n w)
  step-holds P (claim_op n) w s k h = k _ (claim_world w _ (claim-Fair env n w s))
  step-holds P (record_op r n a) w s k h = k _ (record_result-Evolves env r n a w)
  step-holds P (run_once_op t n) w s k h = k _ (run_once-Evolves env t n w s)
  step-holds P (recover_op n) w s k h = k _ (recover-Evolves env n w)
  step-holds P (resolve_op u r i o d x f n) w s k h = k _ (resolve-Evolves env u r i o d x f n w)
  step-holds P (check_op u r i az n) w s k h = k _ (check-Evolves env u r i az n w)
  step-holds P (investigate_op rows) w s k h = k _ (investigate-Evolves rows w)

  pub step-IsSound : (op : Op) (w : World) → IsSound env w → IsSound env (step env op w).0
  step-IsSound op w s =
      step-holds (IsSound env) op w s.unique (λ w' e. Evolves-IsSound env e s)
        λ u r i c v f p e x n. propose-IsSound env u r i c v f p e x n w s

  -- Whatever operations run, in whatever order, sound tables stay sound.
  pub run-IsSound : (ops : List Op) (w : World) → IsSound env w → IsSound env (run env ops w).0
  unfolding run
  run-IsSound [] w s = s
  run-IsSound (op ∷ ops) w s = run-IsSound ops (step env op w).0 (step-IsSound op w s)
