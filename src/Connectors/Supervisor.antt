-- ===== src/Connectors/Supervisor.antt =====
-- engine/connectors/supervisor.py: the worker of one connection, its polls, its failures and a backfill.
-- Times are numbers of milliseconds. The connector is a parameter: what fetch_page answers for
-- a cursor, and the item that a record becomes. on_accepted and the database are taken not to raise. The progress of the streams for display is left out.
pub mod Running
pub mod Counters
pub mod Checkpoint
use log_lookup_ai.Prelude.{
  ℕ, zero, suc, ◌+◌, ◌-◌, ◌*◌, max, min, String, Bool, true, false, ◌&&◌, ◌||◌, not, Option, none,
  some, List, [], ◌∷◌, ◌++◌, string_eq, nat_eq, ◌==◌, if◌then◌else◌, any, count, contains, length,
  leb,
}
use log_lookup_ai.Store.Records.{SourceCursor, Store}
use log_lookup_ai.Store.Ledger.{PageItem, AcceptedRecord, Vault, commit_page}

-- ConnectorError, and an exception of another class.
pub data ErrorKind : Type 0 where
  configuration connector crash : ErrorKind

pub record ConnectorError : Type 0 where
  pub kind : ErrorKind
  pub message : String
  pub status : String
  pub code : String
  pub retry_after : Option ℕ
  pub ref : Option String

-- A row that was set aside.
pub record Rejected : Type 0 where
  pub ref : String
  pub reason : String

pub record PageResult : Type 0 where
  pub records : List String
  pub next_cursor : Option String
  pub window_complete : Bool
  pub source_warnings : List String
  pub rejected : List Rejected

pub data Fetched : Type 0 where
  page : PageResult → Fetched
  failed : ConnectorError → Fetched

-- What a connector answers: fetch_page of a cursor and a stream, strict or not, and _to_items of one
-- record (`none` where an exception quarantines it), with the reference that a quarantine notes.
pub record Connector : Type 0 where
  pub streams : List String
  pub fetch_page : Option String → String → Bool → Fetched
  pub to_item : String → String → Option PageItem
  pub ref_of : String → String

-- The fields of SourceConnection that the worker reads.
pub record SourceConnection : Type 0 where
  pub connection_id : String
  pub poll_ms : ℕ

pub record SourceHealth : Type 0 where
  pub status : String
  pub last_attempt : Option ℕ
  pub last_success : Option ℕ
  pub last_receipt : Option ℕ
  pub last_error_code : Option String
  pub last_error : Option String
  pub records_received : ℕ
  pub records_new : ℕ
  pub records_updated : ℕ
  pub records_duplicate : ℕ
  pub records_unchanged : ℕ
  pub records_committed : ℕ
  pub records_quarantined : ℕ
  pub pages_drained : ℕ
  pub provider_partial_errors : ℕ
  pub consecutive_failures : ℕ
  pub warnings : List String

-- A row of source_errors, less its detail and its time.
pub record SourceError : Type 0 where
  pub connection_id : String
  pub stream_name : Option String
  pub code : String
  pub ref : Option String

-- The worker with the tables it writes; `handed` has what was given to on_accepted.
pub record Worker : Type 0 where
  pub health : SourceHealth
  pub tolerate_bad_rows : Bool
  pub retry_requested : Bool
  pub stream : Option String
  pub backoff : ℕ
  pub store : Store
  pub errors : List SourceError
  pub handed : List AcceptedRecord

-- COMPLETENESS_ERRORS with SNAPSHOT_EXPIRED_REPLAYING, and DEGRADING_WARNINGS
abbrev pub partial_codes : List String
partial_codes =
    "PARTIAL_RESPONSE" ∷ "UNPARSEABLE_ROW" ∷ "CURSOR_NON_ADVANCING" ∷ "CURSOR_CONFIG_CHANGED"
    ∷ "SNAPSHOT_EXPIRED_REPLAYING" ∷ []

abbrev pub degrading_warnings : List String
degrading_warnings = "SNAPSHOT_EXPIRED_REPLAYING" ∷ "BAD_ROWS_SKIPPED" ∷ []

-- The DELETE of record_error: of the connection's errors, the newest `limit` stay. The list has the oldest
-- first.
unfoldable pub newest : ℕ → String → List SourceError → List SourceError
unfolding count
newest limit cid [] = []
newest limit cid (e ∷ errors) =
    let rest = newest limit cid errors in
    if e.connection_id == cid
      && leb limit (count (λ (later : SourceError). later.connection_id == cid) errors)
    then rest
    else e ∷ rest

-- Ledger.record_error, less the detail
unfoldable pub record_error : String → Option String → String → Option String → Worker → Worker
unfolding newest
record_error cid stream code ref w = record w {
  errors = newest 500 cid (
      w.errors
      ++ record { connection_id = cid; stream_name = stream; code = code; ref = ref } ∷ []);
}

abbrev pub quarantined : SourceHealth → SourceHealth
quarantined h = record h { records_quarantined = h.records_quarantined + 1 }

-- The loop over the rows that the page set aside.
unfoldable pub set_aside : String → String → List Rejected → Worker → Worker
unfolding record_error
set_aside cid stream [] w = w
set_aside cid stream (bad ∷ rejected) w =
    let w' = record_error cid (some stream) bad.reason (some bad.ref) w in
    set_aside cid stream rejected (record w' { health = quarantined w'.health })

-- _to_items
unfoldable pub to_items :
    Connector → String → String → List String → Worker → Worker × List PageItem
unfolding record_error
to_items c cid stream [] w = (w, [])
to_items c cid stream (r ∷ records) w = elim (c.to_item r stream) [
  | some item ↦ let (w', items) = to_items c cid stream records w in (w', item ∷ items)
  | none ↦ to_items c cid stream records (
      record_error cid (some stream) "malformed_record" (some (c.ref_of r))
        (record w { health = quarantined w.health }))
]

-- `if a.duplicate_of`: an empty text counts as none.
abbrev pub is_duplicate : AcceptedRecord → Bool
is_duplicate a = elim a.duplicate_of [ none ↦ false | some d ↦ not (d == "") ]

-- The counters of _poll_once after a page.
unfoldable pub counted :
    ℕ → PageResult → List PageItem → List AcceptedRecord → SourceHealth → SourceHealth
unfolding count
counted now p items accepted h = record h {
  last_receipt = if length accepted == 0 then h.last_receipt else some now;
  records_received = h.records_received + length p.records;
  records_duplicate = h.records_duplicate + count is_duplicate accepted;
  records_updated =
      h.records_updated
      + count (λ (a : AcceptedRecord). a.is_update && not (is_duplicate a)) accepted;
  records_new =
      h.records_new
      + count (λ (a : AcceptedRecord). not a.is_update && not (is_duplicate a)) accepted;
  records_unchanged = h.records_unchanged + (length items - length accepted);
  records_committed = h.records_committed + length accepted;
  pages_drained = if p.window_complete then h.pages_drained + 1 else h.pages_drained;
}

-- cursors.get, less the parsing of its JSON
unfoldable pub cursor_of : String → String → List SourceCursor → Option String
cursor_of cid stream [] = none
cursor_of cid stream (c ∷ cs) =
    if c.connection_id == cid && c.stream_name == stream
    then some c.cursor
    else cursor_of cid stream cs

module _ (vault : Vault) (c : Connector) (conn : SourceConnection) where
  -- One round of the loop of _poll_once over the streams, once the page is there.
  unfoldable pub take_page : ℕ → String → PageResult → Worker → Worker
  unfolding set_aside to_items commit_page counted
  take_page now stream p w =
      let (w', items) =
        to_items c conn.connection_id stream p.records
          (set_aside conn.connection_id stream p.rejected w) in
      let (store, accepted) =
        commit_page vault conn.connection_id stream items p.next_cursor p.window_complete now
          w'.store in
      record w' {
        store = store;
        handed = w'.handed ++ accepted;
        health = counted now p items accepted w'.health;
        tolerate_bad_rows = if p.window_complete then false else w'.tolerate_bad_rows;
      }

  -- What the loop of _poll_once has gathered: whether all streams are drained, and the warnings; or the
  -- exception that ended it.
  pub data Polled : Type 0 where
    polled : Bool → List String → Polled
    broken : ConnectorError → Polled

  unfoldable pub poll_streams : ℕ → List String → Bool → List String → Worker → Worker × Polled
  unfolding take_page cursor_of
  poll_streams now [] drained warnings w = (w, polled drained warnings)
  poll_streams now (stream ∷ streams) drained warnings w =
      let w' = record w { stream = some stream } in
      elim (c.fetch_page (cursor_of conn.connection_id stream w.store.cursors) stream
        (not w.tolerate_bad_rows)) [
          | failed e ↦ (w', broken e)
          | page p ↦
              poll_streams now streams (drained && p.window_complete)
                (warnings ++ p.source_warnings) (take_page now stream p w')
        ]
