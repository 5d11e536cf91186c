-- ===== src/Response/Soundness/Rules.antt =====
-- Rules to show that an operation changes the tables as it may: transactions, binds, tests, moves.
use log_lookup_ai.Prelude.{
  ℕ, ◌≡◌, refl, sym, String, Bool, true, false, Option, some, arith, if◌then◌else◌, subst,
}
use log_lookup_ai.Prelude.Table.{find-key}
use log_lookup_ai.Prelude.Outcome.{Outcome, ok, err, ◌>>=◌}
use log_lookup_ai.Response.Models.{
  ActionState, state_eq, state_beq_iff, Detail, ResponseAction, World, legal,
}
use log_lookup_ai.Response.Policy.{Env}
use log_lookup_ai.Response.Audit
use log_lookup_ai.Response.Tables.{commit, transaction, find_action, hits, when_state}
use log_lookup_ai.Response.Approvals.{get, move, reply, with_action}
use log_lookup_ai.Response.Soundness.Change.{Evolves, Evolves-refl, Mirrors}

-- What holds of the world that a transaction commits.
abbrev pub Ensures {ℓ κ} : {A : Type ℓ} → (World → Type κ) → Outcome (A × World) → Type κ
Ensures P (ok (a, w)) = P w
Ensures P (err e) = Unit

pub Ensures-bind {ℓ κ μ} :
    {A : Type ℓ} {B : Type μ} (P : World → Type κ) (m : Outcome A) (f : A → Outcome (B × World))
    → ((a : A) → m ≡ ok a → Ensures P (f a))
    → Ensures P (m >>= f)
Ensures-bind P (ok a) f h = h a refl
Ensures-bind P (err e) f h = tt

pub Ensures-if {ℓ κ} :
    {A : Type ℓ} (P : World → Type κ) (b : Bool) (x y : Outcome (A × World))
    → (b ≡ true → Ensures P x)
    → (b ≡ false → Ensures P y)
    → Ensures P (if b then x else y)
Ensures-if P true x y hx hy = hx refl
Ensures-if P false x y hx hy = hy refl

-- The same for an operation with no transaction of its own.
pub holds_if {ℓ κ} :
    {A : Type ℓ} (P : A → Type κ) (b : Bool) (x y : A)
    → (b ≡ true → P x)
    → (b ≡ false → P y)
    → P (if b then x else y)
holds_if P true x y hx hy = hx refl
holds_if P false x y hx hy = hy refl

pub get_lem :
    (env : Env) (id : String) (w : World) {a : ResponseAction}
    → get env id w ≡ ok a
    → find_action id w ≡ some a
unfolding get
get_lem env id w h = ground arith

pub found_id :
    (id : String) (w : World) {a : ResponseAction} → find_action id w ≡ some a → a.action_id ≡ id
found_id id w h = find-key ResponseAction.action_id id w.actions h

-- The row, found by its own id.
pub found_self :
    (id : String) (w : World) {a : ResponseAction}
    → find_action id w ≡ some a
    → find_action a.action_id w ≡ some a
found_self id w {a} h = subst (λ k. find_action k w ≡ some a) (sym (found_id id w h)) h

pub move_lem :
    (new : ActionState) (by note : String) (now : ℕ) (a : ResponseAction) {b : ResponseAction}
    → move new by note now a ≡ ok b
    → (legal a.state b.state ≡ true) × (b.state ≡ new) × (b.approvals ≡ a.approvals)
unfolding move
move_lem new by note now a h = ground arith

pub state_of_test : (s t : ActionState) → state_eq.same s t ≡ true → s ≡ t
state_of_test s t h = (state_beq_iff s t).0 h

pub when_state_at :
    (s : ActionState) (f : ResponseAction → ResponseAction) (a : ResponseAction)
    → a.state ≡ s
    → when_state s f a ≡ f a
when_state_at s f a h = rw ((state_beq_iff a.state s).1 h)

pub when_state_id :
    (s : ActionState) (f : ResponseAction → ResponseAction) (r : ResponseAction)
    → (f r).action_id ≡ r.action_id
    → (when_state s f r).action_id ≡ r.action_id
when_state_id s f r h = ground arith

pub hits_lem :
    (id : String) (s : ActionState) (w : World)
    → hits id s w ≡ true
    → (a : ResponseAction) × (find_action id w ≡ some a) × (a.state ≡ s)
unfolding hits
hits_lem id s w h = ground arith

-- The label that goes with a state goes with the same state.
pub Mirrors-at : {s t : ActionState} (d : Option String) → s ≡ t → Mirrors s d → Mirrors t d
Mirrors-at d e m = subst (λ u. Mirrors u d) e m

commit-holds {ℓ κ} :
    {A : Type ℓ} (P : World → Type κ) (o : Outcome (A × World)) (w : World)
    → P w
    → Ensures P o
    → P (commit o w).1
unfolding commit
commit-holds P (ok (a, w')) w old h = h
commit-holds P (err e) w old h = old

-- What holds of the world after an operation that first reads the action.
pub with_action-holds {κ} :
    (P : World → Type κ) (o : Outcome ResponseAction) (w : World)
    (k : ResponseAction → Outcome ResponseAction × World)
    → P w
    → ((a : ResponseAction) → o ≡ ok a → P (k a).1)
    → P (with_action o w k).1
unfolding with_action
with_action-holds P (err e) w k h g = h
with_action-holds P (ok a) w k h g = g a refl

module _ (env : Env) where
  -- The audit trail is no part of what a change is about.
  pub Evolves-audit :
      (now : ℕ) (actor action target : String) (detail : Detail) {w w' : World}
      → Evolves env w w'
      → Evolves env w (Audit.append env now actor action target detail w')
  unfolding Audit.append
  Evolves-audit now actor action target detail h = record { at_id = h.at_id; unique = h.unique }

  pub reply_world : (id : String) (o : Outcome Bool × World) → (reply env id o).1 ≡ o.1
  unfolding reply
  reply_world id (ok true, w) = refl
  reply_world id (ok false, w) = refl
  reply_world id (err e, w) = refl

  -- What an operation establishes that runs a transaction and then reads the row.
  pub reply-holds {κ} :
      (P : World → Type κ) (id : String) (body : World → Outcome (Bool × World)) (w : World)
      → P w
      → Ensures P (body w)
      → P (reply env id (transaction body w)).1
  unfolding transaction
  reply-holds P id body w old h = rw reply_world (commit-holds P (body w) w old h)

  pub Evolves-reply :
      (id : String) (body : World → Outcome (Bool × World)) (w : World)
      → Ensures (Evolves env w) (body w)
      → Evolves env w (reply env id (transaction body w)).1
  Evolves-reply id body w h = reply-holds (Evolves env w) id body w (Evolves-refl env w) h
