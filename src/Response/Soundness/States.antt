-- ===== src/Response/Soundness/States.antt =====
-- The state machine of engine/response/models.py as a relation, and what a path of it keeps.
use log_lookup_ai.Prelude.{◌≡◌, ◌↔◌, Bool, true, false, arith}
use log_lookup_ai.Response.Models.{
  ActionState, approved, queued, cancelled, dispatching, acknowledged, completed,
  failed_without_effect, reconciliation_required, legal, is_terminal,
}
use log_lookup_ai.Response.Approvals.{holds_key}

infix 40 ◌⟶*◌
-- A sequence of legal transitions.
pub data ◌⟶*◌ : ActionState → ActionState → Type 0 where
  stay : {s : ActionState} → s ⟶* s
  go : {s t u : ActionState} → legal s t ≡ true → t ⟶* u → s ⟶* u

pub go_one : {s t : ActionState} → legal s t ≡ true → s ⟶* t
go_one h = go h stay

pub go_on : {s t u : ActionState} → s ⟶* t → t ⟶* u → s ⟶* u
go_on stay q = q
go_on (go h p) q = go h (go_on p q)

-- The states that an action has only after enough approvals.
abbrev pub is_released : ActionState → Bool
is_released approved = true
is_released queued = true
is_released dispatching = true
is_released acknowledged = true
is_released completed = true
is_released failed_without_effect = true
is_released reconciliation_required = true
is_released _ = false

-- The states that an action has only after it was claimed for sending.
abbrev pub is_claimed : ActionState → Bool
is_claimed dispatching = true
is_claimed acknowledged = true
is_claimed completed = true
is_claimed failed_without_effect = true
is_claimed reconciliation_required = true
is_claimed _ = false

claimed_step : (s t : ActionState) → legal s t ≡ true → is_claimed s ≡ true → is_claimed t ≡ true
unfolding legal
claimed_step s t h c = ground arith

-- Once claimed, an action never goes back to a state from which it could be claimed again.
pub claimed_path : {s t : ActionState} → s ⟶* t → is_claimed s ≡ true → is_claimed t ≡ true
claimed_path stay c = c
claimed_path (go {s} {t} h p) c = claimed_path p (claimed_step s t h c)

key_step : (s t : ActionState) → legal s t ≡ true → holds_key t ≡ true → holds_key s ≡ true
unfolding legal holds_key
key_step s t h k = ground arith

-- A state that frees the idempotency key never takes it back.
pub key_path : {s t : ActionState} → s ⟶* t → holds_key t ≡ true → holds_key s ≡ true
key_path stay k = k
key_path (go {s} {t} h p) k = key_step s t h (key_path p k)

terminal_stuck : (s t : ActionState) → is_terminal s ≡ true → legal s t ≡ false
unfolding is_terminal legal
terminal_stuck s t h = ground arith

stuck_terminal : (s : ActionState) → ((t : ActionState) → legal s t ≡ false) → is_terminal s ≡ true
unfolding is_terminal legal
stuck_terminal s h = ground (arith, h cancelled, h acknowledged, h completed)

-- The states that the code calls terminal are exactly those that no transition leaves.
terminal_iff : (s : ActionState) → (is_terminal s ≡ true) ↔ ((t : ActionState) → legal s t ≡ false)
terminal_iff s = (λ h t. terminal_stuck s t h, stuck_terminal s)
