-- ===== src/Response/Soundness/Change.antt =====
-- How an operation may change the rows of one action, and how a change of the tables is shown
-- from the change of the one action that an operation writes to.
use mathlib.Core.Option
use log_lookup_ai.Prelude.{
  ℕ, ◌≤◌, ◌≡◌, refl, sym, subst, ◌∙◌, ap, ◌≢◌, ◌⊎◌, inl, inr, String, true, false, Option, none,
  some, List, [], ◌∷◌, ◌==◌, string_eq, text_iff, length, Bool-cases,
}
use log_lookup_ai.Prelude.Table.{Unique, Unique-update, find-update_ne, find-update_self}
use log_lookup_ai.Prelude.Outcome.{ok}
use log_lookup_ai.Response.Models.{
  ActionState, queued, expired, cancelled, dispatching, acknowledged, completed,
  failed_without_effect, reconciliation_required, Approval, Payload, ResponseAction, OutboxRow,
  World, legal,
}
use log_lookup_ai.Response.Policy.{Env, WorkflowDef, get_workflow}
use log_lookup_ai.Response.Tables.{find_action, set_action, find_outbox, delivery, set_outbox}
use log_lookup_ai.Response.Decisions.{has_approved}
use log_lookup_ai.Response.Soundness.States.{◌⟶*◌, stay, go_one, go_on, is_released}

-- No one approves twice.
abbrev pub Distinct : List Approval → Type 0
Distinct [] = Unit
Distinct (a ∷ rest) = (has_approved a.by rest ≡ false) × Distinct rest

-- The approvals of a row: of distinct people, enough of them once the action is released, and
-- none by the requester where the workflow separates duties.
pub record IsVetted (env : Env) (a : ResponseAction) : Type 0 where
  pub distinct : Distinct a.approvals
  pub enough : is_released a.state ≡ true → a.approvals_required ≤ length a.approvals
  pub separated :
      (wf : WorkflowDef)
      → get_workflow env a.workflow_id ≡ ok wf
      → wf.separation_of_duties ≡ true
      → has_approved a.requested_by a.approvals ≡ false

-- The outbox label that goes with a state.
abbrev pub Mirrors : ActionState → Option String → Type 0
Mirrors queued d = d ≡ some "queued"
Mirrors dispatching d = d ≡ some "dispatching"
Mirrors acknowledged d = d ≡ some "delivered"
Mirrors completed d = d ≡ some "delivered"
Mirrors failed_without_effect d = d ≡ some "failed"
Mirrors reconciliation_required d = d ≡ some "reconciliation_required"
Mirrors expired d = (d ≡ none) ⊎ (d ≡ some "expired")
Mirrors cancelled d = (d ≡ none) ⊎ (d ≡ some "cancelled")
Mirrors _ d = d ≡ none

-- What was proposed.
pub record Proposal : Type 0 where
  pub action_id : String
  pub scope_id : String
  pub cluster_id : String
  pub revision : ℕ
  pub workflow_id : String
  pub requested_by : String
  pub payload : Payload
  pub canonical_payload_hash : String
  pub idempotency_key : String
  pub approvals_required : ℕ
  pub created_at : ℕ

abbrev pub proposal : ResponseAction → Proposal
proposal a = record {
  action_id = a.action_id;
  scope_id = a.scope_id;
  cluster_id = a.cluster_id;
  revision = a.revision;
  workflow_id = a.workflow_id;
  requested_by = a.requested_by;
  payload = a.payload;
  canonical_payload_hash = a.canonical_payload_hash;
  idempotency_key = a.idempotency_key;
  approvals_required = a.approvals_required;
  created_at = a.created_at;
}

-- What may happen to a row: its state follows legal transitions, what was proposed stays as it was
-- proposed, and its approvals stay in order.
pub record Extends (env : Env) (a b : ResponseAction) : Type 0 where
  pub path : a.state ⟶* b.state
  pub same : proposal b ≡ proposal a
  pub vetted : IsVetted env a → IsVetted env b

module _ (env : Env) where
  abbrev pub Change :
      Option ResponseAction → Option String → Option ResponseAction → Option String → Type 0
  Change none d none d' = d ≡ none → d' ≡ none
  Change (some a) d (some b) d' = Extends env a b × (Mirrors a.state d → Mirrors b.state d')
  Change none d (some b) d' = ⊥
  Change (some a) d none d' = ⊥

  pub record Evolves (w w' : World) : Type 0 where
    pub at_id :
        (id : String)
        → Change (find_action id w) (delivery id w) (find_action id w') (delivery id w')
    pub unique : Unique OutboxRow.action_id w.outbox → Unique OutboxRow.action_id w'.outbox

  pub Extends-refl : (a : ResponseAction) → Extends env a a
  Extends-refl a = record { path = stay; same = refl; vetted = λ v. v }

  pub Extends-trans : {a b c : ResponseAction} → Extends env a b → Extends env b c → Extends env a c
  Extends-trans p q = record {
    path = go_on p.path q.path;
    same = q.same ∙ p.same;
    vetted = λ v. q.vetted (p.vetted v);
  }

  keep-IsVetted :
      {a b : ResponseAction}
      → proposal b ≡ proposal a
      → b.approvals ≡ a.approvals
      → (is_released b.state ≡ true → is_released a.state ≡ true)
      → IsVetted env a
      → IsVetted env b
  keep-IsVetted same kept release v = record {
    distinct = rw kept v.distinct;
    enough = λ h. rw (kept, ap Proposal.approvals_required same) (v.enough (release h));
    separated = λ wf found sep.
        rw (kept, ap Proposal.requested_by same)
          (v.separated wf (rw (ap Proposal.workflow_id same) at found) sep);
  }

  -- A write that leaves the state and the approvals alone.
  pub Extends-still :
      {a b : ResponseAction}
      → b.state ≡ a.state
      → proposal b ≡ proposal a
      → b.approvals ≡ a.approvals
      → Extends env a b
  Extends-still {a} {b} at same kept = record {
    path = subst (λ s. a.state ⟶* s) (sym at) stay;
    same = same;
    vetted = keep-IsVetted same kept (λ h. sym (ap is_released at) ∙ h);
  }

  -- A transition that leaves the approvals alone, and does not release the action.
  pub Extends-move :
      {a b : ResponseAction}
      → legal a.state b.state ≡ true
      → proposal b ≡ proposal a
      → b.approvals ≡ a.approvals
      → (is_released b.state ≡ true → is_released a.state ≡ true)
      → Extends env a b
  Extends-move step same kept release = record {
    path = go_one step;
    same = same;
    vetted = keep-IsVetted same kept release;
  }

  pub Change-refl : (o : Option ResponseAction) (d : Option String) → Change o d o d
  Change-refl none d = λ h. h
  Change-refl (some a) d = (Extends-refl a, λ m. m)

  pub Change-trans :
      (o₁ o₂ o₃ : Option ResponseAction) (d₁ d₂ d₃ : Option String)
      → Change o₁ d₁ o₂ d₂
      → Change o₂ d₂ o₃ d₃
      → Change o₁ d₁ o₃ d₃
  Change-trans none none none d₁ d₂ d₃ p q = λ h. q (p h)
  Change-trans (some a) (some b) (some c) d₁ d₂ d₃ p q = (Extends-trans p.0 q.0, λ m. q.1 (p.1 m))
  Change-trans none none (some c) d₁ d₂ d₃ p q = absurd q
  Change-trans none (some b) o₃ d₁ d₂ d₃ p q = absurd p
  Change-trans (some a) none o₃ d₁ d₂ d₃ p q = absurd p
  Change-trans (some a) (some b) none d₁ d₂ d₃ p q = absurd q

  pub Evolves-refl : (w : World) → Evolves w w
  Evolves-refl w = record { at_id = λ id. Change-refl _ _; unique = λ u. u }

  pub Evolves-trans : {w w' w'' : World} → Evolves w w' → Evolves w' w'' → Evolves w w''
  Evolves-trans p q = record {
    at_id = λ id. Change-trans _ _ _ _ _ _ (p.at_id id) (q.at_id id);
    unique = λ u. q.unique (p.unique u);
  }

  -- An operation that writes to the rows of one action.
  pub Evolves-write :
      {w w' : World} (id : String)
      → ((j : String) → id ≢ j → find_action j w' ≡ find_action j w)
      → ((j : String) → id ≢ j → delivery j w' ≡ delivery j w)
      → Change (find_action id w) (delivery id w) (find_action id w') (delivery id w')
      → (Unique OutboxRow.action_id w.outbox → Unique OutboxRow.action_id w'.outbox)
      → Evolves w w'
  Evolves-write {w} {w'} id same_action same_delivery here unique = record {
    at_id = λ j. elim (Bool-cases (id == j)) [
      | inl e ↦ let p : id ≡ j = (text_iff id j).0 e in rw p at here
      | inr n ↦
          let p : id ≢ j = λ q. (cc (n, (text_iff id j).1 q)) in
          rw (same_action j p, same_delivery j p) (Change-refl _ _)
    ];
    unique = unique;
  }

  -- An update of the one action.
  pub Evolves-action :
      (id : String) (f : ResponseAction → ResponseAction) (w : World) {a b : ResponseAction}
      → find_action id w ≡ some a
      → ((r : ResponseAction) → (f r).action_id ≡ r.action_id)
      → f a ≡ b
      → Extends env a b
      → ((d : Option String) → Mirrors a.state d → Mirrors b.state d)
      → Evolves w (set_action id f w)
  Evolves-action id f w {a} {b} found same made ext mirror =
      Evolves-write id (λ j n. find-update_ne ResponseAction.action_id id j f w.actions same n)
        (λ j n. refl)
        (rw (find-update_self ResponseAction.action_id id f w.actions same, found, made)
          (ext, mirror (delivery id w)))
        (λ u. u)

  -- An update of the action and of its outbox row.
  pub Evolves-both :
      (id : String) (f : ResponseAction → ResponseAction) (g : OutboxRow → OutboxRow) (w : World)
      {a b : ResponseAction}
      → find_action id w ≡ some a
      → ((r : ResponseAction) → (f r).action_id ≡ r.action_id)
      → ((o : OutboxRow) → (g o).action_id ≡ o.action_id)
      → f a ≡ b
      → Extends env a b
      → ((o : Option OutboxRow)
          → Mirrors a.state (Option.map OutboxRow.delivery_state o)
          → Mirrors b.state (Option.map OutboxRow.delivery_state (Option.map g o)))
      → Evolves w (set_outbox id g (set_action id f w))
  Evolves-both id f g w {a} {b} found same same_row made ext mirror =
      Evolves-write id (λ j n. find-update_ne ResponseAction.action_id id j f w.actions same n)
        (λ j n.
          ap (Option.map OutboxRow.delivery_state)
            (find-update_ne OutboxRow.action_id id j g w.outbox same_row n))
        (rw
          (
            find-update_self ResponseAction.action_id id f w.actions same,
            found,
            made,
            find-update_self OutboxRow.action_id id g w.outbox same_row,
          )
          (ext, mirror (find_outbox id w)))
        (Unique-update OutboxRow.action_id id g w.outbox same_row)

  -- An update of the outbox row alone.
  pub Evolves-outbox :
      (id : String) (g : OutboxRow → OutboxRow) (w : World)
      → ((o : OutboxRow) → (g o).action_id ≡ o.action_id)
      → ((a : ResponseAction)
          → find_action id w ≡ some a
          → Mirrors a.state (delivery id w)
          → Mirrors a.state (Option.map OutboxRow.delivery_state (Option.map g (find_outbox id w))))
      → Evolves w (set_outbox id g w)
  Evolves-outbox id g w same_row mirror =
      Evolves-write id (λ j n. refl)
        (λ j n.
          ap (Option.map OutboxRow.delivery_state)
            (find-update_ne OutboxRow.action_id id j g w.outbox same_row n))
        (rw (find-update_self OutboxRow.action_id id g w.outbox same_row)
          (relabelled (find_action id w) (find_outbox id w) mirror))
        (Unique-update OutboxRow.action_id id g w.outbox same_row)
    where
      relabelled :
          (o : Option ResponseAction) (r : Option OutboxRow)
          → ((a : ResponseAction)
              → o ≡ some a
              → Mirrors a.state (Option.map OutboxRow.delivery_state r)
              → Mirrors a.state (Option.map OutboxRow.delivery_state (Option.map g r)))
          → Change o
              (Option.map OutboxRow.delivery_state r)
              o
              (Option.map OutboxRow.delivery_state (Option.map g r))
      relabelled none none h = λ e. e
      relabelled none (some r) h = λ e. cc
      relabelled (some a) r h = (Extends-refl a, h a refl)

  pub forward :
      {w w' : World} (id : String) {a : ResponseAction}
      → Evolves w w'
      → find_action id w ≡ some a
      → (b : ResponseAction) × (find_action id w' ≡ some b) × Extends env a b
  forward {w} {w'} id {a} e found = changed (find_action id w') refl (
      subst (λ o. Change o (delivery id w) (find_action id w') (delivery id w')) found (e.at_id id))
    where
      changed :
          (o : Option ResponseAction)
          → find_action id w' ≡ o
          → Change (some a) (delivery id w) o (delivery id w')
          → (b : ResponseAction) × (find_action id w' ≡ some b) × Extends env a b
      changed none p c = absurd c
      changed (some b) p c = (b, p, c.0)

  pub backward :
      {w w' : World} (id : String) {b : ResponseAction}
      → Evolves w w'
      → find_action id w' ≡ some b
      → (a : ResponseAction) × (find_action id w ≡ some a) × Extends env a b
  backward {w} {w'} id {b} e found =
      changed (find_action id w) refl (
        subst (λ o. Change (find_action id w) (delivery id w) o (delivery id w')) found
          (e.at_id id))
    where
      changed :
          (o : Option ResponseAction)
          → find_action id w ≡ o
          → Change o (delivery id w) (some b) (delivery id w')
          → (a : ResponseAction) × (find_action id w ≡ some a) × Extends env a b
      changed none p c = absurd c
      changed (some a) p c = (a, p, c.0)
