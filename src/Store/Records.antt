-- ===== src/Store/Records.antt =====
-- engine/envelope.py, and the rows of engine/store/migrations.py that the ledger and the work queue
-- write. A time is its number of microseconds; an encrypted payload and a JSON text are texts.
use log_lookup_ai.Prelude.{ℕ, String, Bool, Option, List, ◌==◌, string_eq}

-- SourceEnvelope, less its schema version, cursor fragment and provenance.
pub record SourceEnvelope : Type 0 where
  pub scope_id : String
  pub connection_id : String
  pub provider : String
  pub record_kind : String
  pub source_event_id : String
  pub canonical_event_id : String
  pub event_time : Option ℕ
  pub observed_at : ℕ
  pub raw_sha256 : String
  pub source_incident_id : Option String
  pub source_url : Option String
  pub source_updated_at : Option ℕ
  pub raw_payload_ref : Option String
  pub revision : ℕ
  pub aliases : List (String × String)

-- SourceEnvelope.is_detection: DETECTION_KINDS has one element.
unfoldable pub is_detection : SourceEnvelope → Bool
is_detection env = env.record_kind == "alert"

-- A row of source_events.
pub record SourceEvent : Type 0 where
  pub canonical_event_id : String
  pub scope_id : String
  pub connection_id : String
  pub provider : String
  pub record_kind : String
  pub source_event_id : String
  pub source_incident_id : Option String
  pub source_url : Option String
  pub event_time : Option ℕ
  pub source_updated_at : Option ℕ
  pub observed_at : ℕ
  pub raw_sha256 : String
  pub raw_enc : Option String
  pub revision : ℕ
  pub duplicate_of : Option String
  pub envelope : SourceEnvelope

-- A row of source_aliases.
pub record SourceAlias : Type 0 where
  pub scope_id : String
  pub alias_scheme : String
  pub alias_value : String
  pub canonical_event_id : String
  pub created_at : ℕ

-- A row of source_event_revisions.
pub record EventRevision : Type 0 where
  pub canonical_event_id : String
  pub revision : ℕ
  pub raw_sha256 : String
  pub encrypted_payload : Option String
  pub envelope : SourceEnvelope
  pub committed_at : ℕ

-- A row of processed_observations.
pub record Observation : Type 0 where
  pub canonical_event_id : String
  pub source_revision : ℕ
  pub state : String
  pub detail : Option String
  pub processed_at : ℕ

-- The states of a work item.
pub data WorkState : Type 0 where
  pending claimed failed_retryable processed quarantined : WorkState

-- A row of ingest_work_items.
pub record WorkItem : Type 0 where
  pub canonical_event_id : String
  pub revision : ℕ
  pub operation : String
  pub scope_id : String
  pub connection_id : String
  pub state : WorkState
  pub attempts : ℕ
  pub next_attempt_at : ℕ
  pub lease_until : Option ℕ
  pub last_error_code : Option String
  pub created_at : ℕ
  pub processed_at : Option ℕ

-- A row of source_cursors.
pub record SourceCursor : Type 0 where
  pub connection_id : String
  pub stream_name : String
  pub cursor : String
  pub window_complete : Bool
  pub committed_at : ℕ

pub record Store : Type 0 where
  pub source_events : List SourceEvent
  pub source_aliases : List SourceAlias
  pub revisions : List EventRevision
  pub observations : List Observation
  pub work_items : List WorkItem
  pub cursors : List SourceCursor
