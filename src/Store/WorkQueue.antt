-- ===== src/Store/WorkQueue.antt =====
-- engine/store/workqueue.py: the durable queue between the ledger and the correlation engine.
pub mod Leases
pub mod Attempts
use log_lookup_ai.Prelude.{
  ℕ, zero, suc, ◌+◌, ◌*◌, ◌^◌, min, String, Bool, true, false, ◌&&◌, ◌||◌, Option, none, some, List,
  [], ◌∷◌, map, ◌==◌, string_eq, nat_eq, if◌then◌else◌, ltb, leb, keep, any, count,
}
use log_lookup_ai.Store.Records.{
  EventRevision, Observation, WorkState, pending, claimed, failed_retryable, processed, quarantined,
  WorkItem, Store,
}

-- MAX_ATTEMPTS
abbrev pub max_attempts : ℕ
max_attempts = 8

-- timedelta(seconds=n), in microseconds
abbrev pub seconds : ℕ → ℕ
seconds n = n * 1000000

-- WHERE canonical_event_id=? AND revision=? AND operation=?
unfoldable pub same_item : WorkItem → WorkItem → Bool
same_item item row =
    row.canonical_event_id == item.canonical_event_id
    && row.revision == item.revision
    && row.operation == item.operation

-- An UPDATE of the row of an item.
unfoldable pub update_item : WorkItem → (WorkItem → WorkItem) → List WorkItem → List WorkItem
update_item item f [] = []
update_item item f (row ∷ rows) =
    (if same_item item row then f row else row) ∷ update_item item f rows

-- What `recover_claimed` writes to a row.
unfoldable pub recovered : WorkItem → WorkItem
recovered row = elim row.state [
  | claimed ↦ record row { state = pending; lease_until = none }
  | _ ↦ row
]

-- WorkQueue.recover_claimed
unfoldable pub recover_claimed : Store → Store
recover_claimed s = record s { work_items = map recovered s.work_items }

-- The WHERE of `claim_batch`.
unfoldable pub is_ready : ℕ → WorkItem → Bool
is_ready now row = elim row.state [
  | pending ↦ leb row.next_attempt_at now
  | failed_retryable ↦ leb row.next_attempt_at now
  | claimed ↦ elim row.lease_until [ none ↦ false | some until ↦ ltb until now ]
  | processed ↦ false
  | quarantined ↦ false
]

-- ORDER BY created_at, rows of the same time in the order of the table.
unfoldable pub insert_by_age : WorkItem → List WorkItem → List WorkItem
insert_by_age row [] = row ∷ []
insert_by_age row (other ∷ rows) =
    let rest = insert_by_age row rows in
    if leb row.created_at other.created_at then row ∷ other ∷ rows else other ∷ rest

unfoldable pub by_age : List WorkItem → List WorkItem
unfolding insert_by_age
by_age [] = []
by_age (row ∷ rows) = insert_by_age row (by_age rows)

-- LIMIT n
unfoldable pub limited : ℕ → List WorkItem → List WorkItem
limited zero rows = []
limited (suc n) [] = []
limited (suc n) (row ∷ rows) = row ∷ limited n rows

-- The rows that `claim_batch` selects.
unfoldable pub ready_items : ℕ → ℕ → List WorkItem → List WorkItem
unfolding by_age limited keep is_ready
ready_items limit now rows = limited limit (by_age (keep (is_ready now) rows))

-- What `claim_batch` writes to a row.
unfoldable pub leased : ℕ → WorkItem → WorkItem
leased lease row = record row {
  state = claimed;
  lease_until = some lease;
  attempts = row.attempts + 1;
}

-- The loop of UPDATEs of `claim_batch`.
unfoldable pub claim_items : ℕ → List WorkItem → List WorkItem → List WorkItem
unfolding leased update_item
claim_items lease [] rows = rows
claim_items lease (item ∷ items) rows =
    claim_items lease items (update_item item (leased lease) rows)

-- The snapshot that `claim_batch` reads for an item.
unfoldable pub snapshot : WorkItem → List EventRevision → Option EventRevision
snapshot item [] = none
snapshot item (r ∷ rs) =
    if r.canonical_event_id == item.canonical_event_id && r.revision == item.revision
    then some r
    else snapshot item rs

-- WorkQueue.claim_batch: the store after it, and the items with their snapshots.
unfoldable pub claim_batch : ℕ → ℕ → ℕ → Store → Store × List (WorkItem × Option EventRevision)
unfolding ready_items claim_items snapshot
claim_batch limit lease_seconds now s =
    let rows = ready_items limit now s.work_items in
    (
      record s { work_items = claim_items (now + seconds lease_seconds) rows s.work_items },
      map (λ (r : WorkItem). (r, snapshot r s.revisions)) rows,
    )

-- UPDATE processed_observations ... WHERE canonical_event_id=? AND source_revision=?
unfoldable pub update_observation :
    WorkItem → (Observation → Observation) → List Observation → List Observation
update_observation item f [] = []
update_observation item f (o ∷ os) =
    (if o.canonical_event_id == item.canonical_event_id && o.source_revision == item.revision
      then f o
      else o)
    ∷ update_observation item f os

-- What `ack` writes to the row of the item.
unfoldable pub acked : ℕ → WorkItem → WorkItem
acked now row = record row {
  state = processed;
  processed_at = some now;
  lease_until = none;
  last_error_code = none;
}

-- WorkQueue.ack
unfoldable pub ack : ℕ → WorkItem → Store → Store
unfolding acked update_item update_observation
ack now item s = record s {
  work_items = update_item item (acked now) s.work_items;
  observations =
      update_observation item
        (λ (o : Observation). record o { state = "correlated"; processed_at = now }) s.observations;
}

-- The attempts that `fail` reads: MAX_ATTEMPTS where there is no row.
unfoldable pub attempts_of : WorkItem → List WorkItem → ℕ
unfolding same_item
attempts_of item [] = max_attempts
attempts_of item (row ∷ rows) = if same_item item row then row.attempts else attempts_of item rows

unfoldable pub failed_state : ℕ → WorkState
failed_state attempts = if leb max_attempts attempts then quarantined else failed_retryable

-- min(300.0, 2.0 ** attempts)
unfoldable pub backoff : ℕ → ℕ
backoff attempts = min 300 (2 ^ attempts)

-- What `fail` writes to the row of the item; `code` is already cut.
unfoldable pub failed_item : ℕ → ℕ → String → WorkItem → WorkItem
unfolding failed_state backoff
failed_item now attempts code row = record row {
  state = failed_state attempts;
  last_error_code = some code;
  next_attempt_at = now + seconds (backoff attempts);
  lease_until = none;
}

-- WorkQueue.fail: the store after it, and the new state. `cut` is `code[:80]`.
unfoldable pub fail : (String → String) → ℕ → WorkItem → String → Store → Store × WorkState
unfolding attempts_of failed_item failed_state update_item update_observation
fail cut now item code s =
    let attempts = attempts_of item s.work_items in
    (
      record s {
        work_items = update_item item (failed_item now attempts (cut code)) s.work_items;
        observations =
            if leb max_attempts attempts
            then update_observation item
                (λ (o : Observation). record o { state = "quarantined"; detail = some (cut code) })
                s.observations
            else s.observations;
      },
      failed_state attempts,
    )
