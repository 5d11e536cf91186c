-- ===== src/Store/Ledger.antt =====
-- engine/store/ledger.py: a source page becomes durable, with its aliases, its revisions and its
-- work items. The vault of engine/store/evidence.py is two functions: the encryption of a payload
-- under its reference, and the hash of a payload. Context observations and incident links, which
-- nothing else here reads, are left out.
pub mod Dedup
pub mod Retention
use log_lookup_ai.Prelude.{
  ℕ, suc, ◌+◌, String, Bool, true, false, not, ◌&&◌, Option, none, some, List, [], ◌∷◌, ◌++◌, ◌==◌,
  string_eq, nat_eq, if◌then◌else◌, any,
}
use log_lookup_ai.Prelude.Table.{find, update}
use log_lookup_ai.Store.Records.{
  SourceEnvelope, is_detection, SourceEvent, SourceAlias, EventRevision, Observation, WorkState,
  pending, WorkItem, SourceCursor, Store,
}

-- A PageItem, less its contexts and links; the payload is its canonical JSON.
pub record PageItem : Type 0 where
  pub envelope : SourceEnvelope
  pub payload : String

pub record AcceptedRecord : Type 0 where
  pub envelope : SourceEnvelope
  pub payload : String
  pub is_update : Bool
  pub duplicate_of : Option String

-- AcceptedRecord.forward_to_correlation
unfoldable pub forward_to_correlation : AcceptedRecord → Bool
unfolding is_detection
forward_to_correlation r =
    is_detection r.envelope && elim r.duplicate_of [ none ↦ true | some _ ↦ false ]

-- The vault, and the f-string of a payload's reference.
pub record Vault : Type 0 where
  pub encrypt : String → String → String
  pub sha256 : String → String
  pub payload_ref : String → ℕ → String

-- SELECT ... FROM source_aliases WHERE scope_id=? AND alias_scheme=? AND alias_value=?
unfoldable pub find_alias : String → String × String → List SourceAlias → Option SourceAlias
find_alias scope alias [] = none
find_alias scope alias (row ∷ rows) =
    if row.scope_id == scope && row.alias_scheme == alias.0 && row.alias_value == alias.1
    then some row
    else find_alias scope alias rows

abbrev pub alias_row : SourceEnvelope → ℕ → String × String → SourceAlias
alias_row env now alias = record {
  scope_id = env.scope_id;
  alias_scheme = alias.0;
  alias_value = alias.1;
  canonical_event_id = env.canonical_event_id;
  created_at = now;
}

-- The `earlier` of the loop of `_claim_aliases` after an alias that has a holder.
unfoldable pub earlier_holder : SourceEnvelope → SourceAlias → Option String → Option String
earlier_holder env hit earlier =
    if not (hit.canonical_event_id == env.canonical_event_id)
    then elim earlier [ none ↦ some hit.canonical_event_id | some e ↦ some e ]
    else earlier

-- The loop of `_claim_aliases`.
unfoldable pub claim_each :
    SourceEnvelope
    → ℕ
    → List (String × String)
    → Option String
    → List SourceAlias
    → List SourceAlias × Option String
unfolding find_alias earlier_holder
claim_each env now [] earlier rows = (rows, earlier)
claim_each env now (alias ∷ aliases) earlier rows = elim (find_alias env.scope_id alias rows) [
  | none ↦ claim_each env now aliases earlier (rows ++ alias_row env now alias ∷ [])
  | some hit ↦ claim_each env now aliases (earlier_holder env hit earlier) rows
]

-- Ledger._claim_aliases
unfoldable pub claim_aliases :
    SourceEnvelope → ℕ → List SourceAlias → List SourceAlias × Option String
unfolding claim_each
claim_aliases env now rows = claim_each env now env.aliases none rows

-- The row that `_ingest_one` inserts.
abbrev pub event_row : SourceEnvelope → String → Option String → SourceEvent
event_row env blob duplicate = record {
  canonical_event_id = env.canonical_event_id;
  scope_id = env.scope_id;
  connection_id = env.connection_id;
  provider = env.provider;
  record_kind = env.record_kind;
  source_event_id = env.source_event_id;
  source_incident_id = env.source_incident_id;
  source_url = env.source_url;
  event_time = env.event_time;
  source_updated_at = env.source_updated_at;
  observed_at = env.observed_at;
  raw_sha256 = env.raw_sha256;
  raw_enc = some blob;
  revision = env.revision;
  duplicate_of = duplicate;
  envelope = env;
}

-- ON CONFLICT(canonical_event_id) DO UPDATE SET ...
abbrev pub revised_event : SourceEvent → SourceEvent → SourceEvent
revised_event new old = record old {
  source_updated_at = new.source_updated_at;
  observed_at = new.observed_at;
  raw_sha256 = new.raw_sha256;
  raw_enc = new.raw_enc;
  revision = new.revision;
  envelope = new.envelope;
  source_incident_id = new.source_incident_id;
}

unfoldable pub upsert_found : SourceEvent → Option SourceEvent → List SourceEvent → List SourceEvent
unfolding update
upsert_found new none rows = rows ++ new ∷ []
upsert_found new (some _) rows =
    update SourceEvent.canonical_event_id new.canonical_event_id (revised_event new) rows

unfoldable pub upsert_event : SourceEvent → List SourceEvent → List SourceEvent
unfolding find upsert_found
upsert_event new rows =
    upsert_found new (find SourceEvent.canonical_event_id new.canonical_event_id rows) rows

-- INSERT OR IGNORE INTO source_event_revisions
unfoldable pub insert_revision : EventRevision → List EventRevision → List EventRevision
unfolding any
insert_revision new rows =
    if any
      (λ (r : EventRevision).
        r.canonical_event_id == new.canonical_event_id && r.revision == new.revision)
      rows
    then rows
    else rows ++ new ∷ []

-- INSERT OR IGNORE INTO processed_observations
unfoldable pub insert_observation : Observation → List Observation → List Observation
unfolding any
insert_observation new rows =
    if any
      (λ (o : Observation).
        o.canonical_event_id == new.canonical_event_id && o.source_revision == new.source_revision)
      rows
    then rows
    else rows ++ new ∷ []

-- INSERT OR IGNORE INTO ingest_work_items
unfoldable pub insert_item : WorkItem → List WorkItem → List WorkItem
unfolding any
insert_item new rows =
    if any
      (λ (i : WorkItem).
        i.canonical_event_id == new.canonical_event_id
        && i.revision == new.revision
        && i.operation == new.operation)
      rows
    then rows
    else rows ++ new ∷ []

-- Ledger._enqueue, with the state `pending` of its calls
unfoldable pub enqueue : SourceEnvelope → ℕ → String → List WorkItem → List WorkItem
unfolding insert_item
enqueue env now operation rows =
    insert_item
      (record {
        canonical_event_id = env.canonical_event_id;
        revision = env.revision;
        operation = operation;
        scope_id = env.scope_id;
        connection_id = env.connection_id;
        state = pending;
        attempts = 0;
        next_attempt_at = now;
        lease_until = none;
        last_error_code = none;
        created_at = now;
        processed_at = none;
      })
      rows

-- The four cases of the hand-off: the state of the observation, and the queue. `if duplicate_of`
-- takes the empty text for none.
unfoldable pub hand_off :
    SourceEnvelope → ℕ → Bool → Option String → List WorkItem → String × List WorkItem
unfolding enqueue is_detection
hand_off env now is_new duplicate rows =
    if elim duplicate [ none ↦ false | some d ↦ not (d == "") ]
    then ("duplicate", rows)
    else if not (is_detection env)
    then ("ingested", rows)
    else if not is_new
    then ("queued_for_correlation", enqueue env now "revise" rows)
    else ("queued_for_correlation", enqueue env now "correlate" rows)

-- The upsert of upsert_cursor_sql.
unfoldable pub upsert_cursor : SourceCursor → List SourceCursor → List SourceCursor
upsert_cursor new [] = new ∷ []
upsert_cursor new (c ∷ cs) =
    let rest = upsert_cursor new cs in
    if c.connection_id == new.connection_id && c.stream_name == new.stream_name
    then new ∷ cs
    else c ∷ rest

module _ (vault : Vault) where
  -- The envelope with its revision, its reference and the hash of what the vault encrypts.
  abbrev pub sealed_envelope : SourceEnvelope → ℕ → String → SourceEnvelope
  sealed_envelope env revision payload = record env {
    revision = revision;
    raw_payload_ref = some (vault.payload_ref env.canonical_event_id revision);
    raw_sha256 = vault.sha256 payload;
  }

  -- The INSERTs of `_ingest_one`, for a revision that is not there yet.
  unfoldable pub store_revision :
      PageItem → ℕ → ℕ → Bool → Option String → Store → Store × AcceptedRecord
  unfolding upsert_event insert_revision hand_off insert_observation
  store_revision item now revision is_new duplicate s =
      let env = sealed_envelope item.envelope revision item.payload in
      let blob =
        vault.encrypt item.payload (vault.payload_ref item.envelope.canonical_event_id revision) in
      let (obs_state, items) = hand_off env now is_new duplicate s.work_items in
      (
        record s {
          source_events = upsert_event (event_row env blob duplicate) s.source_events;
          revisions =
              insert_revision
                (record {
                  canonical_event_id = env.canonical_event_id;
                  revision = revision;
                  raw_sha256 = env.raw_sha256;
                  encrypted_payload = some blob;
                  envelope = env;
                  committed_at = now;
                })
                s.revisions;
          work_items = items;
          observations =
              insert_observation
                (record {
                  canonical_event_id = env.canonical_event_id;
                  source_revision = revision;
                  state = obs_state;
                  detail = duplicate;
                  processed_at = now;
                })
                s.observations;
        },
        record {
          envelope = env;
          payload = item.payload;
          is_update = not is_new;
          duplicate_of = duplicate;
        },
      )

  -- `_ingest_one` with the row of the event, if there is one.
  unfoldable pub ingest_row :
      PageItem → ℕ → Option SourceEvent → Store → Store × Option AcceptedRecord
  unfolding claim_aliases store_revision
  ingest_row item now none s =
      let (aliases, duplicate) = claim_aliases item.envelope now s.source_aliases in
      let (s', r) =
        store_revision item now 1 true duplicate (record s { source_aliases = aliases }) in
      (s', some r)
  ingest_row item now (some row) s =
      if row.raw_sha256 == item.envelope.raw_sha256
      then (s, none)
      else (let (s', r) = store_revision item now (row.revision + 1) false row.duplicate_of s in
          (s', some r))

  -- Ledger._ingest_one
  unfoldable pub ingest_one : PageItem → ℕ → Store → Store × Option AcceptedRecord
  unfolding find ingest_row
  ingest_one item now s =
      ingest_row item now
        (find SourceEvent.canonical_event_id item.envelope.canonical_event_id s.source_events) s

  -- The loop of `commit_page`.
  unfoldable pub ingest_all : List PageItem → ℕ → Store → Store × List AcceptedRecord
  unfolding ingest_one
  ingest_all [] now s = (s, [])
  ingest_all (item ∷ items) now s =
      let (s', r) = ingest_one item now s in
      let (s'', rest) = ingest_all items now s' in (s'', elim r [ none ↦ rest | some a ↦ a ∷ rest ])

  -- Ledger.commit_page
  unfoldable pub commit_page :
      String
      → String
      → List PageItem
      → Option String
      → Bool
      → ℕ
      → Store
      → Store × List AcceptedRecord
  unfolding ingest_all upsert_cursor
  commit_page connection stream items next_cursor complete now s =
      let (s', accepted) = ingest_all items now s in
      (
        elim next_cursor [
          | none ↦ s'
          | some cursor ↦ record s' {
            cursors =
                upsert_cursor
                  (record {
                    connection_id = connection;
                    stream_name = stream;
                    cursor = cursor;
                    window_complete = complete;
                    committed_at = now;
                  })
                  s'.cursors;
          }
        ],
        accepted,
      )
