-- ===== src/Store/Tests/Retained.antt =====
-- A store with an old event that pending work needs and one that it does not, at which the theorem on
-- the retention is applied.
use log_lookup_ai.Prelude.{◌≡◌, refl, String, none, some, [], ◌∷◌, any, count, ◌+◌}
use log_lookup_ai.Store.Records.{SourceEnvelope, SourceEvent, EventRevision, pending, Store}
use log_lookup_ai.Store.Ledger.Retention.{
  is_unresolved, is_needed, is_expired, expired_event, purge_raw_older_than,
}
use log_lookup_ai.Store.Ledger.Retention.Purged.{
  Rowwise, EventPurged, RevisionPurged, payloads, purge_raw-Rowwise,
}

abbrev envelope : String → SourceEnvelope
envelope id = record {
  scope_id = "prod";
  connection_id = "sentinel";
  provider = "sentinel";
  record_kind = "alert";
  source_event_id = id;
  canonical_event_id = id;
  event_time = some 3;
  observed_at = 4;
  raw_sha256 = "hash";
  source_incident_id = none;
  source_url = none;
  source_updated_at = none;
  raw_payload_ref = none;
  revision = 1;
  aliases = [];
}

abbrev event : String → SourceEvent
event id = record {
  canonical_event_id = id;
  scope_id = "prod";
  connection_id = "sentinel";
  provider = "sentinel";
  record_kind = "alert";
  source_event_id = id;
  source_incident_id = none;
  source_url = none;
  event_time = some 3;
  source_updated_at = none;
  observed_at = 4;
  raw_sha256 = "hash";
  raw_enc = some "{}";
  revision = 1;
  duplicate_of = none;
  envelope = envelope id;
}

abbrev first_revision : String → EventRevision
first_revision id = record {
  canonical_event_id = id;
  revision = 1;
  raw_sha256 = "hash";
  encrypted_payload = some "{}";
  envelope = envelope id;
  committed_at = 4;
}

abbrev old_store : Store
old_store = record {
  source_events = event "e1" ∷ event "e2" ∷ [];
  source_aliases = [];
  revisions = first_revision "e1" ∷ first_revision "e2" ∷ [];
  observations = [];
  work_items =
      record {
        canonical_event_id = "e1";
        revision = 1;
        operation = "correlate";
        scope_id = "prod";
        connection_id = "sentinel";
        state = pending;
        attempts = 0;
        next_attempt_at = 0;
        lease_until = none;
        last_error_code = none;
        created_at = 0;
        processed_at = none;
      }
      ∷ [];
  cursors = [];
}

e2_dropped : (purge_raw_older_than 100 old_store).1 ≡ 1
unfolding purge_raw_older_than is_needed any is_unresolved expired_event is_expired count
e2_dropped = refl

purge_raw-Rowwise_example :
    Rowwise
      (EventPurged 100 old_store.work_items)
      old_store.source_events
      (purge_raw_older_than 100 old_store).0.source_events
    × Rowwise
        (RevisionPurged 100 old_store.work_items)
        old_store.revisions
        (purge_raw_older_than 100 old_store).0.revisions
    × (payloads old_store.source_events
        ≡ payloads (purge_raw_older_than 100 old_store).0.source_events
          + (purge_raw_older_than 100 old_store).1)
purge_raw-Rowwise_example = purge_raw-Rowwise 100 old_store
