-- ===== src/Response/Tables.antt =====
-- The SQL statements of the response layer over the tables of `World`, and its transactions
-- (engine/store/database.py, engine/response/outbox.py).
use mathlib.Core.Option
use log_lookup_ai.Prelude.{
  ℕ, zero, suc, String, Bool, true, false, Option, none, some, List, [], ◌∷◌, ◌++◌, ◌==◌, string_eq,
  if◌then◌else◌, ltb, keep,
}
use log_lookup_ai.Prelude.Table.{find, update}
use log_lookup_ai.Prelude.Outcome.{Outcome, ok, err, integrity}
use log_lookup_ai.Response.Models.{
  ActionState, state_eq, ResponseAction, Contract, OutboxRow, Investigation, World,
}
use log_lookup_ai.Response.Policy.{Env}

-- The end of a transaction: an error rolls every write back.
unfoldable pub commit {ℓ} : {A : Type ℓ} → Outcome (A × World) → World → Outcome A × World
commit (ok (a, w')) w = (ok a, w')
commit (err e) w = (err e, w)

-- Database.transaction
unfoldable pub transaction {ℓ} :
    {A : Type ℓ} → (World → Outcome (A × World)) → World → Outcome A × World
unfolding commit
transaction body w = commit (body w) w

abbrev pub find_action : String → World → Option ResponseAction
find_action id w = find ResponseAction.action_id id w.actions

abbrev pub set_action : String → (ResponseAction → ResponseAction) → World → World
set_action id f w = record w { actions = update ResponseAction.action_id id f w.actions }

-- The `rowcount` of an update `WHERE action_id = id AND state = s` is not 0.
unfoldable pub hits : String → ActionState → World → Bool
hits id s w = elim (find_action id w) [ none ↦ false | some a ↦ a.state == s ]

-- The same update: it writes only to a row that is still in state `s`.
abbrev pub when_state :
    ActionState → (ResponseAction → ResponseAction) → ResponseAction → ResponseAction
when_state s f a = if a.state == s then f a else a

-- COALESCE(x, old)
abbrev pub coalesce {ℓ} : {A : Type ℓ} → Option A → Option A → Option A
coalesce (some x) old = some x
coalesce none old = old

abbrev pub find_outbox : String → World → Option OutboxRow
find_outbox id w = find OutboxRow.action_id id w.outbox

-- The delivery state of an action's outbox row.
abbrev pub delivery : String → World → Option String
delivery id w = Option.map OutboxRow.delivery_state (find_outbox id w)

abbrev pub set_outbox : String → (OutboxRow → OutboxRow) → World → World
set_outbox id f w = record w { outbox = update OutboxRow.action_id id f w.outbox }

-- The row that `enqueue` inserts.
abbrev pub outbox_row : ℕ → String → String → String → Contract → OutboxRow
outbox_row now id key destination payload = record {
  action_id = id;
  idempotency_key = key;
  destination = destination;
  payload = payload;
  delivery_state = "queued";
  attempts = 0;
  last_error = none;
  created_at = now;
  updated_at = now;
}

-- Outbox.enqueue
unfoldable pub enqueue : ℕ → String → String → String → Contract → World → Outcome World
enqueue now id key destination payload w = elim (find_outbox id w) [
  | some _ ↦ err integrity
  | none ↦ ok (record w { outbox = w.outbox ++ outbox_row now id key destination payload ∷ [] })
]

-- The row that `set_state_in` and `finish` leave.
abbrev pub relabel : Env → ℕ → String → String → OutboxRow → OutboxRow
relabel env now s error o = record o {
  delivery_state = s;
  last_error = some (env.clip error);
  updated_at = now;
}

-- Outbox.set_state_in; `expect` is None where it is not given.
abbrev pub relabel_if : Env → ℕ → String → String → String → OutboxRow → OutboxRow
relabel_if env now s error old o = if o.delivery_state == old then relabel env now s error o else o

unfoldable pub set_state_in : Env → ℕ → String → String → String → Option String → World → World
set_state_in env now id s error none w = set_outbox id (relabel env now s error) w
set_state_in env now id s error (some old) w = set_outbox id (relabel_if env now s error old) w

-- Outbox.finish
unfoldable pub finish : Env → ℕ → String → String → String → World → World
finish env now id s error w = set_outbox id (relabel env now s error) w

-- SELECT * FROM outbox WHERE delivery_state='queued' ORDER BY created_at LIMIT 1
unfoldable pub next_queued : List OutboxRow → Option OutboxRow
next_queued [] = none
next_queued (o ∷ os) =
    let rest = next_queued os in
    if o.delivery_state == "queued"
    then elim rest [
      | none ↦ some o
      | some q ↦ if ltb q.created_at o.created_at then some q else some o
    ]
    else rest

-- Outbox.unsettled
abbrev pub is_open : OutboxRow → Bool
is_open o = if o.delivery_state == "queued" then true else o.delivery_state == "dispatching"

unfoldable pub unsettled : World → List OutboxRow
unfolding keep
unsettled w = keep is_open w.outbox

abbrev pub is_queued : OutboxRow → Bool
is_queued o = o.delivery_state == "queued"

-- engine/response/approvals.py, current_revision: at most `hops` merges are followed.
unfoldable pub revision_within : ℕ → List Investigation → String → Option ℕ
revision_within zero rows c = none
revision_within (suc hops) rows c = elim (find Investigation.cluster_id c rows) [
  | none ↦ none
  | some i ↦ elim i.merged_into [
    | none ↦ some i.latest_revision
    | some next ↦ if next == "" then some i.latest_revision else revision_within hops rows next
  ]
]

unfoldable pub current_revision : World → String → Option ℕ
unfolding revision_within
current_revision w c = revision_within 5 w.investigations c
