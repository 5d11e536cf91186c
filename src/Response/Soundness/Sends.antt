-- ===== src/Response/Soundness/Sends.antt =====
-- An action is handed to the transport at most once.
use log_lookup_ai.Prelude.{
  ℕ, ◌+◌, ◌≤◌, ◌≡◌, refl, ap, subst, ◌⊎◌, inl, inr, String, Bool, true, false, Option, none, some,
  List, [], ◌∷◌, ◌++◌, arith, ◌==◌, string_eq, text_iff, count, Bool-cases,
}
use log_lookup_ai.Prelude.Table.{Unique}
use log_lookup_ai.Response.Models.{ResponseAction, OutboxRow, World}
use log_lookup_ai.Response.Policy.{Env, get_workflow}
use log_lookup_ai.Response.Tables.{find_action}
use log_lookup_ai.Response.Delivery.{Transport, after_claim, run_once}
use log_lookup_ai.Response.Trace.{
  Op, propose_op, approve_op, reject_op, cancel_op, claim_op, record_op, run_once_op, recover_op,
  resolve_op, check_op, investigate_op, handed, step, run,
}
use log_lookup_ai.Response.Soundness.States.{is_claimed, claimed_path}
use log_lookup_ai.Response.Soundness.Change.{forward}
use log_lookup_ai.Response.Soundness.Claiming.{FairClaim, claim-Fair}
use log_lookup_ai.Response.Soundness.Recovering.{dispatch-Evolves}
use log_lookup_ai.Response.Soundness.Invariant.{IsSound}
use log_lookup_ai.Response.Soundness.Once.{step-IsSound}
use log_lookup_ai.Response.Soundness.History.{step-Keeps}

-- How often an id stands in a list.
abbrev pub times : String → List String → ℕ
times id ids = count (λ j. j == id) ids

count_append : (id : String) (xs ys : List String) → times id (xs ++ ys) ≡ times id xs + times id ys
unfolding count
count_append id [] ys = omega arith
count_append id (x ∷ xs) ys = omega (arith, count_append id xs ys)

-- The action is in the tables, and was claimed or was not.
abbrev pub Claim : Bool → String → World → Type 0
Claim c id w = (b : ResponseAction) × (find_action id w ≡ some b) × (is_claimed b.state ≡ c)

-- What an operation hands out: nothing, or one action that was not claimed and now is.
abbrev Hands : World → World → List String → Type 0
Hands w w' sent =
    (sent ≡ []) ⊎ ((id : String) × (sent ≡ id ∷ []) × Claim false id w × Claim true id w')

Claim-unique : (id : String) (w : World) → Claim false id w → Claim true id w → ⊥
Claim-unique id w (a, found_a, free) (b, found_b, taken) = cc

module _ (env : Env) where
  claim-Hands :
      (w : World) (r : World × Option (ResponseAction × OutboxRow))
      → FairClaim env w r
      → Hands w r.0 (handed r.1)
  claim-Hands w (w', none) f = inl refl
  claim-Hands w (w', some (a, o)) (e, before, (b, found, now)) =
      inr (a.action_id, refl, before, (b, found, ap is_claimed now))

  after_claim-Hands :
      (send : Transport) (now : ℕ) (w : World) (r : World × Option (ResponseAction × OutboxRow))
      → FairClaim env w r
      → Hands w (after_claim env send now r).0 (handed r.1)
  unfolding after_claim
  after_claim-Hands send now w (w', none) f = inl refl
  after_claim-Hands send now w (w', some (a, o)) (e, before, (b, found, at)) =
      let sent = dispatch-Evolves env send now a o (get_workflow env a.workflow_id) w' in
      let (c, found_c, ext) = forward env a.action_id sent found in
      inr (a.action_id, refl, before, (c, found_c, claimed_path ext.path (ap is_claimed at)))

  step-Hands :
      (op : Op) (w : World)
      → Unique OutboxRow.action_id w.outbox
      → Hands w (step env op w).0 (step env op w).1
  unfolding step run_once
  step-Hands (claim_op n) w u = claim-Hands w _ (claim-Fair env n w u)
  step-Hands (run_once_op t n) w u = after_claim-Hands t n w _ (claim-Fair env n w u)
  step-Hands (propose_op u r i c v f p e x n) w _ = inl refl
  step-Hands (approve_op u r i x n) w _ = inl refl
  step-Hands (reject_op u r i x n) w _ = inl refl
  step-Hands (cancel_op u r i n) w _ = inl refl
  step-Hands (record_op r n a) w _ = inl refl
  step-Hands (recover_op n) w _ = inl refl
  step-Hands (resolve_op u r i o d x f n) w _ = inl refl
  step-Hands (check_op u r i az n) w _ = inl refl
  step-Hands (investigate_op rows) w _ = inl refl

  step-Claim :
      (op : Op) (w : World)
      → IsSound env w
      → (id : String) → Claim true id w
      → Claim true id (step env op w).0
  step-Claim op w s id (a, found, taken) =
      let (b, found_b, ext) = step-Keeps env op w s id a found in
      (b, found_b, claimed_path ext.path taken)

  -- An action that was claimed is not handed out by the next operation.
  step-silent :
      (op : Op) (w : World)
      → IsSound env w
      → (id : String) → Claim true id w
      → times id (step env op w).1 ≡ 0
  step-silent op w s id taken = elim (step-Hands op w s.unique) [
    | inl none_sent ↦ rw none_sent (unfold count in refl)
    | inr (j, sent, before, after) ↦ rw sent (
        unfold count in
        ground (
          arith,
          text_iff j id,
          λ (e : j ≡ id). Claim-unique id w (subst (λ k. Claim false k w) e before) taken,
        ))
  ]

  -- An action that was claimed is not handed out by any later operations.
  silent :
      (ops : List Op) (w : World)
      → IsSound env w
      → (id : String) → Claim true id w
      → times id (run env ops w).1 ≡ 0
  unfolding run
  silent [] w s id taken = unfold count in refl
  silent (op ∷ ops) w s id taken = omega (
    arith,
    count_append id (step env op w).1 (run env ops (step env op w).0).1,
    step-silent op w s id taken,
    silent ops _ (step-IsSound env op w s) id (step-Claim op w s id taken),
  )

  once_each : (id : String) (xs : List String) (j : String) → xs ≡ j ∷ [] → times id xs ≤ 1
  once_each id xs j h = rw h (unfold count in ground arith)

  none_times : (id : String) (xs : List String) → xs ≡ [] → times id xs ≡ 0
  none_times id xs h = rw h (unfold count in refl)

  other_times :
      (id : String) (xs : List String) (j : String)
      → xs ≡ j ∷ []
      → (j == id) ≡ false
      → times id xs ≡ 0
  other_times id xs j h n = rw h (unfold count in ground arith)

  -- From sound tables, whatever operations run, in whatever order, with sends interleaved and with
  -- restarts (recover) anywhere: no action is handed to the transport more than once.
  pub run-at_most_once :
      (ops : List Op) (w : World) → IsSound env w → (id : String) → times id (run env ops w).1 ≤ 1
  unfolding run
  run-at_most_once [] w s id = unfold count in omega arith
  run-at_most_once (op ∷ ops) w s id = elim (step-Hands op w s.unique) [
    | inl none_sent ↦ omega (
      arith,
      count_append id (step env op w).1 (run env ops (step env op w).0).1,
      none_times id _ none_sent,
      run-at_most_once ops _ (step-IsSound env op w s) id,
    )
    | inr (j, sent, before, after) ↦ elim (Bool-cases (j == id)) [
      | inl e ↦ omega (
        arith,
        count_append id (step env op w).1 (run env ops (step env op w).0).1,
        once_each id _ j sent,
        silent ops _ (step-IsSound env op w s) id
            (subst (λ k. Claim true k (step env op w).0) ((text_iff j id).0 e) after),
      )
      | inr n ↦ omega (
        arith,
        count_append id (step env op w).1 (run env ops (step env op w).0).1,
        other_times id _ j sent n,
        run-at_most_once ops _ (step-IsSound env op w s) id,
      )
    ]
  ]
