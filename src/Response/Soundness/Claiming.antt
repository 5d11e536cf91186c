-- ===== src/Response/Soundness/Claiming.antt =====
-- The rounds of `_claim`, and what an item that it takes looks like.
use mathlib.Core.Option
use log_lookup_ai.Prelude.{
  ℕ, zero, suc, ◌≡◌, refl, ap, ◌∙◌, sym, inl, inr, String, false, not, Option, none, some, List, [],
  ◌∷◌, arith, ◌==◌, string_eq, Bool-cases, text_iff,
}
use log_lookup_ai.Prelude.Table.{Unique, find, find-update_self}
use log_lookup_ai.Response.Models.{
  ActionState, proposed, approval_required, approved, rejected, queued, expired, dispatching,
  acknowledged, completed, failed_without_effect, reconciliation_required, cancelled, legal,
  state_eq, state_beq_iff, text, ResponseAction, OutboxRow, World,
}
use log_lookup_ai.Response.Policy.{Env}
use log_lookup_ai.Response.Tables.{
  find_action, set_action, delivery, hits, when_state, relabel_if, set_state_in, next_queued,
}
use log_lookup_ai.Response.Audit
use log_lookup_ai.Response.Dispatcher.{
  Round, expired_row, sending_row, attempted, idle, skip, took, obstacle, expire_queued, take,
  consider_queued, drop_row, consider, round_for, claim_round, after_round, claim_within, claim,
}
use log_lookup_ai.Response.Soundness.States.{◌⟶*◌, is_claimed, claimed_path}
use log_lookup_ai.Response.Soundness.Change.{
  Mirrors, Extends-move, Evolves, Evolves-refl, Evolves-trans, Evolves-both, Evolves-outbox,
  backward,
}
use log_lookup_ai.Response.Soundness.Rules.{
  found_self, state_of_test, holds_if, when_state_at, when_state_id, Mirrors-at, Evolves-audit,
}

-- The row that `_claim` looks at is a queued row, and the one of its id.
pub next_queued_lem :
    (rows : List OutboxRow) (o : OutboxRow)
    → Unique OutboxRow.action_id rows
    → next_queued rows ≡ some o
    → (find OutboxRow.action_id o.action_id rows ≡ some o) × (o.delivery_state ≡ "queued")
unfolding next_queued find
next_queued_lem [] o u h = cc
next_queued_lem (r ∷ rows) o u h = ground (
  arith,
  text_iff r.action_id o.action_id,
  text_iff r.delivery_state "queued",
  next_queued_lem rows o u.1,
)

label_ne : (s t : String) → (s == t) ≡ false → some s ≡ some t → ⊥
label_ne s t h e = ground (arith, text_iff s t)

-- Only a queued action has a queued outbox row.
queued_mirror : (s : ActionState) → Mirrors s (some "queued") → s ≡ queued
queued_mirror queued m = refl
queued_mirror dispatching m = absurd (label_ne "queued" "dispatching" refl m)
queued_mirror acknowledged m = absurd (label_ne "queued" "delivered" refl m)
queued_mirror completed m = absurd (label_ne "queued" "delivered" refl m)
queued_mirror failed_without_effect m = absurd (label_ne "queued" "failed" refl m)
queued_mirror reconciliation_required m =
    absurd (label_ne "queued" "reconciliation_required" refl m)
queued_mirror expired (inl m) = cc
queued_mirror expired (inr m) = absurd (label_ne "queued" "expired" refl m)
queued_mirror cancelled (inl m) = cc
queued_mirror cancelled (inr m) = absurd (label_ne "queued" "cancelled" refl m)
queued_mirror proposed m = cc
queued_mirror approval_required m = cc
queued_mirror approved m = cc
queued_mirror rejected m = cc

module _ (env : Env) where
  -- A round that goes on changes the tables as it may; one that takes a row does too, and takes an
  -- action that was queued and is now dispatching.
  abbrev pub Fair : World → Round → Type 0
  Fair w idle = Unit
  Fair w (skip w') = Evolves env w w'
  Fair w (took w' a o) =
      Evolves env w w'
      × ((b : ResponseAction) × (find_action a.action_id w ≡ some b) × (b.state ≡ queued))
      × ((b : ResponseAction) × (find_action a.action_id w' ≡ some b) × (b.state ≡ dispatching))

  relabel_if_queued :
      (now : ℕ) (label why : String) (o : Option OutboxRow)
      → Option.map OutboxRow.delivery_state o ≡ some "queued"
      → Option.map OutboxRow.delivery_state (Option.map (relabel_if env now label why "queued") o)
        ≡ some label
  relabel_if_queued now label why none h = cc
  relabel_if_queued now label why (some o) h = ground (arith, text_iff o.delivery_state "queued")

  -- Where the outbox row is queued and the action is not, only the label is repaired.
  drop_row-Evolves :
      (now : ℕ) (o : OutboxRow) (w : World)
      → delivery o.action_id w ≡ some "queued"
      → ((a : ResponseAction) → find_action o.action_id w ≡ some a → (a.state == queued) ≡ false)
      → Evolves env w (drop_row env now o w)
  unfolding drop_row set_state_in
  drop_row-Evolves now o w label away =
      Evolves-outbox env o.action_id _ w (λ r. ground arith)
        λ a found m.
          let q : a.state ≡ queued = queued_mirror a.state (rw label at m) in
          cc (away a found, (state_beq_iff a.state queued).1 q)

  expire_queued-Evolves :
      (now : ℕ) (why : String) (a : ResponseAction) (w : World)
      → find_action a.action_id w ≡ some a
      → a.state ≡ queued
      → Evolves env w (expire_queued env now why a w)
  unfolding expire_queued set_state_in
  expire_queued-Evolves now why a w found ready =
      Evolves-audit env now "system" "action.expired" a.action_id (("note", text why) ∷ []) (
        Evolves-both env a.action_id (when_state queued (expired_row now why a))
          (relabel_if env now "expired" why "queued") w found
          (λ r. when_state_id queued (expired_row now why a) r refl) (λ r. ground arith)
          (when_state_at queued (expired_row now why a) a ready)
          (Extends-move env (rw ready (unfold legal in refl)) refl refl (λ h. cc))
          (λ o m. inr (relabel_if_queued now "expired" why o (Mirrors-at _ ready m))))

  attempted_label :
      (now : ℕ) (o : Option OutboxRow)
      → Option.map OutboxRow.delivery_state o ≡ some "queued"
      → Option.map OutboxRow.delivery_state (Option.map (attempted now) o) ≡ some "dispatching"
  attempted_label now none h = cc
  attempted_label now (some o) h = refl

  taken :
      (now : ℕ) (a : ResponseAction) (w : World)
      → find_action a.action_id w ≡ some a
      → a.state ≡ queued
      → find_action a.action_id (set_action a.action_id (when_state queued (sending_row now a)) w)
        ≡ some (sending_row now a a)
  taken now a w found ready = rw (
    find-update_self ResponseAction.action_id a.action_id (when_state queued (sending_row now a))
        w.actions (λ r. when_state_id queued (sending_row now a) r refl),
    found,
    when_state_at queued (sending_row now a) a ready,
  )

  take-Fair :
      (now : ℕ) (a : ResponseAction) (o : OutboxRow) (w : World)
      → find_action a.action_id w ≡ some a
      → a.state ≡ queued
      → Fair w (take env now a o w)
  unfolding take Audit.append
  take-Fair now a o w found ready =
      holds_if (Fair w) (hits a.action_id queued w) _ _
        (λ _. (
          Evolves-audit env now "system" "action.dispatching" a.action_id
              (("note", text "sending") ∷ [])
              (Evolves-both env a.action_id (when_state queued (sending_row now a)) (attempted now)
                w found (λ r. when_state_id queued (sending_row now a) r refl) (λ r. refl)
                (when_state_at queued (sending_row now a) a ready)
                (Extends-move env (rw ready (unfold legal in refl)) refl refl (λ h. rw ready refl))
                (λ d m. attempted_label now d (Mirrors-at _ ready m))),
          (a, found, ready),
          (sending_row now a a, taken now a w found ready, refl),
        ))
        (λ _. Evolves-refl env w)

  consider-Fair :
      (now : ℕ) (o : OutboxRow) (w : World)
      → delivery o.action_id w ≡ some "queued"
      → (r : Option ResponseAction) → find_action o.action_id w ≡ r
      → Fair w (consider env now o r w)
  unfolding consider
  consider-Fair now o w label none e = drop_row-Evolves now o w label (λ a f. cc)
  consider-Fair now o w label (some a) e =
      holds_if (Fair w) (not (a.state == queued)) _ _
        (λ h. drop_row-Evolves now o w label (λ b f. ground arith))
        (λ h.
          settle (obstacle env now w a) (found_self o.action_id w e)
            (state_of_test a.state queued (ground arith)))
    where
      settle :
          (why : Option String)
          → find_action a.action_id w ≡ some a
          → a.state ≡ queued
          → Fair w (consider_queued env now o a why w)
      settle none found ready = take-Fair now a o w found ready
      settle (some why) found ready = expire_queued-Evolves now why a w found ready

  pub claim_round-Fair :
      (now : ℕ) (w : World) → Unique OutboxRow.action_id w.outbox → Fair w (claim_round env now w)
  unfolding claim_round
  claim_round-Fair now w u = for_row (next_queued w.outbox) refl
    where
      for_row : (o : Option OutboxRow) → next_queued w.outbox ≡ o → Fair w (round_for env now o w)
      for_row none e = tt
      for_row (some o) e =
          let (found, label) = next_queued_lem w.outbox o u e in
          consider-Fair now o w (ap (Option.map OutboxRow.delivery_state) found ∙ ap some label) _
            refl

  -- What `_claim` returns: it changes the tables as it may, and an action that it hands out was
  -- queued and is dispatching.
  abbrev pub FairClaim : World → World × Option (ResponseAction × OutboxRow) → Type 0
  FairClaim w (w', none) = Evolves env w w'
  FairClaim w (w', some (a, o)) =
      Evolves env w w'
      × ((b : ResponseAction) × (find_action a.action_id w ≡ some b) × (is_claimed b.state ≡ false))
      × ((b : ResponseAction) × (find_action a.action_id w' ≡ some b) × (b.state ≡ dispatching))

  not_claimed_before : {s t : ActionState} → s ⟶* t → is_claimed t ≡ false → is_claimed s ≡ false
  not_claimed_before {s} p h = elim (Bool-cases (is_claimed s)) [
    | inl c ↦ cc (sym h ∙ claimed_path p c)
    | inr n ↦ n
  ]

  FairClaim-trans :
      {w w' : World} (r : World × Option (ResponseAction × OutboxRow))
      → Evolves env w w'
      → FairClaim w' r
      → FairClaim w r
  FairClaim-trans (w'', none) e f = Evolves-trans env e f
  FairClaim-trans (w'', some (a, o)) e (g, (b, found, fresh), now) =
      let (b₀, found₀, ext) = backward env a.action_id e found in
      (Evolves-trans env e g, (b₀, found₀, not_claimed_before ext.path fresh), now)

  after_round-Fair :
      (w : World) (r : Round) (go : World → World × Option (ResponseAction × OutboxRow))
      → Unique OutboxRow.action_id w.outbox
      → Fair w r
      → ((w' : World) → Unique OutboxRow.action_id w'.outbox → FairClaim w' (go w'))
      → FairClaim w (after_round r w go)
  unfolding after_round
  after_round-Fair w idle go u f h = Evolves-refl env w
  after_round-Fair w (skip w') go u f h = FairClaim-trans (go w') f (h w' (f.unique u))
  after_round-Fair w (took w' a o) go u (e, (b, found, ready), later) h =
      (e, (b, found, rw ready refl), later)

  claim_within-Fair :
      (fuel now : ℕ) (w : World)
      → Unique OutboxRow.action_id w.outbox
      → FairClaim w (claim_within env fuel now w)
  unfolding claim_within
  claim_within-Fair zero now w u = Evolves-refl env w
  claim_within-Fair (suc fuel) now w u =
      after_round-Fair w (claim_round env now w) (claim_within env fuel now) u
        (claim_round-Fair now w u) (claim_within-Fair fuel now)

  pub claim-Fair :
      (now : ℕ) (w : World) → Unique OutboxRow.action_id w.outbox → FairClaim w (claim env now w)
  unfolding claim
  claim-Fair now w u = claim_within-Fair _ now w u
