-- ===== src/Response/Queue.antt =====
-- What `_claim` of engine/response/dispatcher.py leaves in the queue, and what it hands out.
use log_lookup_ai.Prelude.{
  ℕ, zero, suc, ◌≤◌, ◌<◌, ◌≡◌, refl, ◌∙◌, sym, subst, inl, inr, String, true, false, not, Option,
  none, some, List, [], ◌∷◌, arith, ◌==◌, string_eq, nat_eq, Bool-cases, text_iff, count,
  nat_beq_iff,
}
use log_lookup_ai.Prelude.Table.{Unique, find, find-key, update}
use log_lookup_ai.Prelude.Outcome.{Failure, err}
use log_lookup_ai.Response.Models.{
  queued, dispatching, state_eq, state_beq_iff, ResponseAction, OutboxRow, World,
}
use log_lookup_ai.Response.Policy.{Env, get_workflow}
use log_lookup_ai.Response.Tables.{
  find_action, hits, relabel_if, set_state_in, next_queued, is_queued, current_revision,
}
use log_lookup_ai.Response.Audit
use log_lookup_ai.Response.Decisions.{is_due}
use log_lookup_ai.Response.Delivery.{Transport, after_claim, run_once, dispatch}
use log_lookup_ai.Response.Dispatcher.{
  Round, idle, skip, took, sending, obstacle, expire_queued, take, consider_queued, drop_row,
  consider, round_for, claim_round, after_round, claim_within, claim,
}
use log_lookup_ai.Response.Soundness.Rules.{holds_if, state_of_test, found_self}
use log_lookup_ai.Response.Soundness.Claiming.{
  next_queued_lem, Fair, claim_round-Fair, FairClaim, claim-Fair,
}

queue_le :
    (id : String) (g : OutboxRow → OutboxRow) (rows : List OutboxRow)
    → ((o : OutboxRow) → is_queued (g o) ≡ true → is_queued o ≡ true)
    → count is_queued (update OutboxRow.action_id id g rows) ≤ count is_queued rows
unfolding count update
queue_le id g [] h = omega arith
queue_le id g (r ∷ rows) h = ground (arith, h r, queue_le id g rows h)

queue_lt :
    (id : String) (g : OutboxRow → OutboxRow) (rows : List OutboxRow) (o : OutboxRow)
    → ((r : OutboxRow) → is_queued (g r) ≡ true → is_queued r ≡ true)
    → find OutboxRow.action_id id rows ≡ some o
    → is_queued o ≡ true
    → is_queued (g o) ≡ false
    → count is_queued (update OutboxRow.action_id id g rows) < count is_queued rows
unfolding count update find
queue_lt id g [] o h f q n = cc
queue_lt id g (r ∷ rows) o h f q n = elim (Bool-cases (r.action_id == id)) [
  | inl e ↦
      let s : some r ≡ some o = sym (rw e refl) ∙ f in
      let p : r ≡ o = cc in
      let a : is_queued r ≡ true = rw p q in
      let b : is_queued (g r) ≡ false = rw p n in rw (e, a, b) (omega (arith, queue_le id g rows h))
  | inr e ↦ rw e (omega (arith, queue_lt id g rows o h (sym (rw e refl) ∙ f) q n))
]

some_queued : (rows : List OutboxRow) → next_queued rows ≡ none → count is_queued rows ≡ 0
unfolding next_queued count
some_queued [] h = refl
some_queued (r ∷ rows) h = ground (arith, some_queued rows)

no_row : (rows : List OutboxRow) → count is_queued rows ≡ 0 → next_queued rows ≡ none
unfolding next_queued count
no_row [] h = refl
no_row (r ∷ rows) h = ground (arith, no_row rows)

hits_at :
    (id : String) (w : World) (a : ResponseAction)
    → find_action id w ≡ some a
    → a.state ≡ queued
    → hits id queued w ≡ true
unfolding hits
hits_at id w a found at = ground (arith, state_beq_iff a.state queued)

-- An action that may still be sent: not expired, and proposed on the current revision of its
-- investigation, if the tables have one.
pub record IsCurrent (now : ℕ) (w : World) (a : ResponseAction) : Type 0 where
  pub in_time : is_due now a ≡ false
  pub latest : (r : ℕ) → current_revision w a.cluster_id ≡ some r → r ≡ a.revision

module _ (env : Env) where
  -- A round ends with an empty queue, or makes it shorter, or takes an action that may be sent.
  abbrev Proper : ℕ → World → Round → Type 0
  Proper now w idle = next_queued w.outbox ≡ none
  Proper now w (skip w') =
      (count is_queued w'.outbox < count is_queued w.outbox)
      × (w'.investigations ≡ w.investigations)
  Proper now w (took w' a o) = IsCurrent now w a

  relabelled_queue :
      (now : ℕ) (label why : String) (r : OutboxRow)
      → is_queued (relabel_if env now label why "queued" r) ≡ true
      → is_queued r ≡ true
  relabelled_queue now label why r h = ground arith

  left_queue :
      (now : ℕ) (label why : String) (r : OutboxRow)
      → (label == "queued") ≡ false
      → is_queued r ≡ true
      → is_queued (relabel_if env now label why "queued" r) ≡ false
  left_queue now label why r n h = ground arith

  unqueued :
      (now : ℕ) (label why : String) (o : OutboxRow) (w : World)
      → (label == "queued") ≡ false
      → find OutboxRow.action_id o.action_id w.outbox ≡ some o
      → is_queued o ≡ true
      → count is_queued (set_state_in env now o.action_id label why (some "queued") w).outbox
        < count is_queued w.outbox
  unfolding set_state_in
  unqueued now label why o w n found q =
      queue_lt o.action_id (relabel_if env now label why "queued") w.outbox o
        (relabelled_queue now label why) found q (left_queue now label why o n q)

  obstacle_lem :
      (now : ℕ) (w : World) (a : ResponseAction) → obstacle env now w a ≡ none → IsCurrent now w a
  unfolding obstacle
  obstacle_lem now w a h = record {
    in_time = ground arith;
    latest = λ r e. ground (arith, nat_beq_iff r a.revision);
  }

  sending-IsCurrent :
      (now : ℕ) (w : World) (a : ResponseAction)
      → IsCurrent now w a
      → IsCurrent now w (sending now a)
  unfolding is_due
  sending-IsCurrent now w a c = record { in_time = c.in_time; latest = c.latest }

  consider-Proper :
      (now : ℕ) (o : OutboxRow) (w : World)
      → find OutboxRow.action_id o.action_id w.outbox ≡ some o
      → is_queued o ≡ true
      → (r : Option ResponseAction) → find_action o.action_id w ≡ r
      → Proper now w (consider env now o r w)
  unfolding consider consider_queued drop_row take expire_queued Audit.append set_state_in
  consider-Proper now o w row q none e = (unqueued now _ _ o w refl row q, refl)
  consider-Proper now o w row q (some a) e =
      holds_if (Proper now w) (not (a.state == queued)) _ _
        (λ h. (unqueued now _ _ o w refl row q, refl))
        (λ h.
          settle (obstacle env now w a) refl (found_self o.action_id w e)
            (find-key ResponseAction.action_id o.action_id w.actions e)
            (state_of_test a.state queued (ground arith)))
    where
      settle :
          (why : Option String)
          → obstacle env now w a ≡ why
          → find_action a.action_id w ≡ some a
          → a.action_id ≡ o.action_id
          → a.state ≡ queued
          → Proper now w (consider_queued env now o a why w)
      settle none clear found same ready =
          rw (hits_at a.action_id w a found ready)
            (sending-IsCurrent now w a (obstacle_lem now w a clear))
      settle (some why) clear found same ready =
          (rw same (unqueued now "expired" why o w refl row q), refl)

  claim_round-Proper :
      (now : ℕ) (w : World)
      → Unique OutboxRow.action_id w.outbox
      → Proper now w (claim_round env now w)
  unfolding claim_round round_for
  claim_round-Proper now w u = for_row (next_queued w.outbox) refl
    where
      for_row :
          (o : Option OutboxRow) → next_queued w.outbox ≡ o → Proper now w (round_for env now o w)
      for_row none e = e
      for_row (some o) e =
          let (found, label) = next_queued_lem w.outbox o u e in
          consider-Proper now o w found ((text_iff o.delivery_state "queued").1 label) _ refl

  -- What `_claim` returns: nothing when the queue is empty, or an action that may be sent.
  abbrev pub Serves : ℕ → World → World × Option (ResponseAction × OutboxRow) → Type 0
  Serves now w (w', none) = next_queued w'.outbox ≡ none
  Serves now w (w', some (a, o)) = IsCurrent now w a

  IsCurrent-same :
      (now : ℕ) (w w' : World) (a : ResponseAction)
      → w'.investigations ≡ w.investigations
      → IsCurrent now w' a
      → IsCurrent now w a
  IsCurrent-same now w w' a same c = record {
    in_time = c.in_time;
    latest = λ r e. c.latest r (unfold current_revision in rw same e);
  }

  later-Serves :
      (now : ℕ) (w w' : World) (r : World × Option (ResponseAction × OutboxRow))
      → w'.investigations ≡ w.investigations
      → Serves now w' r
      → Serves now w r
  later-Serves now w w' (w'', none) same h = h
  later-Serves now w w' (w'', some (a, o)) same h = IsCurrent-same now w w' a same h

  after_round-Serves :
      (now : ℕ) (w : World) (r : Round) (go : World → World × Option (ResponseAction × OutboxRow))
      → Unique OutboxRow.action_id w.outbox
      → Fair env w r
      → Proper now w r
      → ((w' : World)
          → Unique OutboxRow.action_id w'.outbox
          → count is_queued w'.outbox < count is_queued w.outbox
          → Serves now w' (go w'))
      → Serves now w (after_round r w go)
  unfolding after_round
  after_round-Serves now w idle go u f p h = p
  after_round-Serves now w (skip w') go u f (less, same) h =
      later-Serves now w w' (go w') same (h w' (f.unique u) less)
  after_round-Serves now w (took w' a o) go u f p h = p

  claim_within-Serves :
      (fuel now : ℕ) (w : World)
      → Unique OutboxRow.action_id w.outbox
      → count is_queued w.outbox < fuel
      → Serves now w (claim_within env fuel now w)
  unfolding claim_within
  claim_within-Serves zero now w u less = absurd (omega (arith, less))
  claim_within-Serves (suc fuel) now w u less =
      after_round-Serves now w (claim_round env now w) (claim_within env fuel now) u
        (claim_round-Fair env now w u) (claim_round-Proper now w u)
        λ w' u' shorter. claim_within-Serves fuel now w' u' (omega (arith, less, shorter))

  -- `_claim` gives up only when the outbox has no queued row left (so the rounds that the model gives
  -- it are enough); an action that it hands out is not past its expiry, and is about the current
  -- revision of its investigation.
  pub claim-Serves :
      (now : ℕ) (w : World) → Unique OutboxRow.action_id w.outbox → Serves now w (claim env now w)
  unfolding claim
  claim-Serves now w u = claim_within-Serves _ now w u (omega arith)

  -- Where an action is claimed whose workflow is no longer on the allowlist, `run_once` sends
  -- nothing, and leaves the action dispatching.
  pub run_once-stuck :
      (send : Transport) (now : ℕ) (w : World) (a : ResponseAction) (o : OutboxRow) {e : Failure}
      → Unique OutboxRow.action_id w.outbox
      → (claim env now w).1 ≡ some (a, o)
      → get_workflow env a.workflow_id ≡ err e
      → ((run_once env send now w).1 ≡ none)
        × ((b : ResponseAction) × (find_action a.action_id (run_once env send now w).0 ≡ some b)
            × (b.state ≡ dispatching))
  unfolding run_once after_claim dispatch
  run_once-stuck send now w a o {e} u taken gone =
      stuck (claim env now w) (claim-Fair env now w u) taken
    where
      stuck :
          (r : World × Option (ResponseAction × OutboxRow))
          → FairClaim env w r
          → r.1 ≡ some (a, o)
          → ((after_claim env send now r).1 ≡ none)
            × ((b : ResponseAction) × (find_action a.action_id (after_claim env send now r).0
                  ≡ some b)
                × (b.state ≡ dispatching))
      stuck (w', none) f h = cc
      stuck (w', some (a', o')) f h =
          let p : a' ≡ a = cc in
          let q : get_workflow env a'.workflow_id ≡ err e = rw p gone in
          rw q (
            refl,
            subst
                (λ x.
                  (b : ResponseAction) × (find_action x.action_id w' ≡ some b)
                  × (b.state ≡ dispatching))
                p f.2,
          )
